-- ===== src/Core/Capability.antt =====
-- crates/vsm-core/src/capability.rs: what a leaf may do, and the capabilities derived from a node.
use vsm_agent_kernel.Base.{String, Bool, true, false, Option, none, some}

pub data LeafOperationKind : Type 0 where
  coding reviewing testing research integration documentation planning : LeafOperationKind
  custom : String → LeafOperationKind

pub record LeafOperationSpec : Type 0 where
  pub kind : Option LeafOperationKind
  pub allows_code_write : Bool
  pub allows_test_execution : Bool
  pub allows_review : Bool
  pub allows_research : Bool
  pub allows_integration : Bool
  pub allows_filesystem_read : Bool
  pub allows_filesystem_write : Bool

abbrev pub default_leaf_operation : LeafOperationSpec
default_leaf_operation = record {
  kind = none;
  allows_code_write = false;
  allows_test_execution = false;
  allows_review = false;
  allows_research = false;
  allows_integration = false;
  allows_filesystem_read = false;
  allows_filesystem_write = false;
}

abbrev pub coding_spec : LeafOperationSpec
coding_spec = record {
  kind = some coding;
  allows_code_write = true;
  allows_test_execution = true;
  allows_review = false;
  allows_research = true;
  allows_integration = false;
  allows_filesystem_read = true;
  allows_filesystem_write = true;
}

abbrev pub reviewer_spec : LeafOperationSpec
reviewer_spec = record {
  kind = some reviewing;
  allows_code_write = false;
  allows_test_execution = true;
  allows_review = true;
  allows_research = true;
  allows_integration = false;
  allows_filesystem_read = true;
  allows_filesystem_write = false;
}

abbrev pub tester_spec : LeafOperationSpec
tester_spec = record {
  kind = some testing;
  allows_code_write = false;
  allows_test_execution = true;
  allows_review = false;
  allows_research = false;
  allows_integration = false;
  allows_filesystem_read = true;
  allows_filesystem_write = false;
}

pub record CapabilitySet : Type 0 where
  pub can_write_code : Bool
  pub can_run_tests : Bool
  pub can_review : Bool
  pub can_research : Bool
  pub can_integrate : Bool
  pub can_read_filesystem : Bool
  pub can_write_filesystem : Bool
  pub can_delegate : Bool
  pub can_audit_children : Bool
  pub can_mutate_child_topology : Bool
  pub can_issue_command : Bool
  pub can_coordinate : Bool
  pub can_allocate_resources : Bool
  pub can_run_future_probes : Bool

unfoldable pub for_leaf : LeafOperationSpec → CapabilitySet
for_leaf operation = record {
  can_write_code = operation.allows_code_write;
  can_run_tests = operation.allows_test_execution;
  can_review = operation.allows_review;
  can_research = operation.allows_research;
  can_integrate = operation.allows_integration;
  can_read_filesystem = operation.allows_filesystem_read;
  can_write_filesystem = operation.allows_filesystem_write;
  can_delegate = false;
  can_audit_children = false;
  can_mutate_child_topology = false;
  can_issue_command = false;
  can_coordinate = false;
  can_allocate_resources = false;
  can_run_future_probes = false;
}

unfoldable pub for_metasystem : CapabilitySet
for_metasystem = record {
  can_write_code = false;
  can_run_tests = false;
  can_review = false;
  can_research = true;
  can_integrate = true;
  can_read_filesystem = true;
  can_write_filesystem = false;
  can_delegate = true;
  can_audit_children = true;
  can_mutate_child_topology = true;
  can_issue_command = true;
  can_coordinate = true;
  can_allocate_resources = true;
  can_run_future_probes = true;
}
