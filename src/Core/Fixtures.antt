-- ===== src/Core/Fixtures.antt =====
-- Concrete data for the tests: genomes with a root, alone and with one coding leaf, whole numbers in the place
-- of `f64`, and strings in the place of `serde_json::Value`.
use Prim.Native.Nat.{◌/◌, ◌^◌}
use vsm_agent_kernel.Base.{
  ℕ, ◌+◌, ◌-◌, ◌*◌, String, refl, none, some, [], ◌∷◌, string_key, ltb, leb, nat_beq,
}
use vsm_agent_kernel.Base.Decimal.{greatest}
use vsm_agent_kernel.Base.Float.{Float}
use vsm_agent_kernel.Base.Json.{Json}
use vsm_agent_kernel.Base.TreeMap.{get, insert, modify}
use vsm_agent_kernel.Core.Capability.{coding_spec}
use vsm_agent_kernel.Core.Node.{ViableNode, new_leaf, new_metasystem}
use vsm_agent_kernel.Core.Genome.{World, new, add_child, update_node}
use vsm_agent_kernel.Core.Genome.Tree.{Holds}
use vsm_agent_kernel.Core.Genome.Within.{Within, new-Within, add_child-Within}

-- Ids of channels and nodes that nothing else uses.
abbrev pub uuid : ℕ → String
uuid _ = "fresh"

abbrev pub root : ViableNode
root = new_metasystem "r" "root"

abbrev pub coder : ViableNode
coder = new_leaf "c" "coder" coding_spec

abbrev pub one : World
one = record { genome = new "g" root; issued = 0 }

abbrev pub two : World
two = (add_child uuid one "r" coder).1

pub one-Within : Within 0 one.genome
one-Within = new-Within "g" root refl refl

pub two-Within : Within 1 two.genome
two-Within = add_child-Within uuid one "r" coder 0 refl one-Within

pub root_held : Holds two.genome "r" (record root { children = "c" ∷ [] })
unfolding new add_child update_node get insert modify
root_held = refl

pub coder_held : Holds two.genome "c" (record coder { parent_id = some "r" })
unfolding new add_child update_node get insert modify
coder_held = refl

instance abbrev pub nat_float : Float ℕ
nat_float = record {
  literal = λ m d. m / 10 ^ d;
  negate = λ a. 0;
  of_nat = λ a. a;
  empty_sum = 0;
  plus = λ a b. a + b;
  minus = λ a b. a - b;
  times = λ a b. a * b;
  divide = λ a b. a / b;
  powi = λ a n. a ^ n;
  at_least = λ a b. leb b a;
  less = ltb;
  equal = nat_beq;
  larger = greatest;
  parse = λ s. none;
}

instance abbrev pub text_json : Json String
text_json = record {
  get_field = λ v key. none;
  as_str = some;
  as_u64 = λ v. none;
  as_array = λ v. none;
}
