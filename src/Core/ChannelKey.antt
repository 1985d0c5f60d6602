-- ===== src/Core/ChannelKey.antt =====
-- The equality of channel types (crates/vsm-core/src/channel.rs derives `PartialEq`): the variants by their
-- number.
use vsm_agent_kernel.Base.{
  ℕ, zero, suc, ◌≡◌, ◌↔◌, refl, sym, ap, ◌∙◌, Bool, true, List, [], ◌∷◌, Key, nat_key, ◌==◌, ==_eq,
  ==_refl, ltb,
}
use vsm_agent_kernel.Core.Channel.{
  VsmChannelType, resource_bargaining, command, system2_coordination, audit, three_four_homeostat,
  management_to_operation, operation_to_operation, operation_to_environment,
  future_probe_to_environment, environment_to_environment, algedonic,
}

abbrev pub channel_number : VsmChannelType → ℕ
channel_number resource_bargaining = 0
channel_number command = 1
channel_number system2_coordination = 2
channel_number audit = 3
channel_number three_four_homeostat = 4
channel_number management_to_operation = 5
channel_number operation_to_operation = 6
channel_number operation_to_environment = 7
channel_number future_probe_to_environment = 8
channel_number environment_to_environment = 9
channel_number algedonic = 10

abbrev channel_of : List VsmChannelType → ℕ → VsmChannelType
channel_of [] n = algedonic
channel_of (c ∷ cs) zero = c
channel_of (c ∷ cs) (suc n) = channel_of cs n

abbrev channel_types : List VsmChannelType
channel_types =
    resource_bargaining ∷ command ∷ system2_coordination ∷ audit ∷ three_four_homeostat
    ∷ management_to_operation ∷ operation_to_operation ∷ operation_to_environment
    ∷ future_probe_to_environment ∷ environment_to_environment ∷ algedonic ∷ []

channel_of-number : (c : VsmChannelType) → channel_of channel_types (channel_number c) ≡ c
channel_of-number resource_bargaining = refl
channel_of-number command = refl
channel_of-number system2_coordination = refl
channel_of-number audit = refl
channel_of-number three_four_homeostat = refl
channel_of-number management_to_operation = refl
channel_of-number operation_to_operation = refl
channel_of-number operation_to_environment = refl
channel_of-number future_probe_to_environment = refl
channel_of-number environment_to_environment = refl
channel_of-number algedonic = refl

abbrev pub channel_beq : VsmChannelType → VsmChannelType → Bool
channel_beq a b = channel_number a == channel_number b

pub channel_beq_iff : (a b : VsmChannelType) → (channel_beq a b ≡ true) ↔ (a ≡ b)
channel_beq_iff a b = (
  λ h.
      sym (channel_of-number a)
      ∙ ap (channel_of channel_types) {x = channel_number a} {y = channel_number b} (==_eq h)
      ∙ channel_of-number b,
  λ e. rw e (==_refl (channel_number b)),
)

instance abbrev pub channel_key : Key VsmChannelType
channel_key = record {
  beq = channel_beq;
  before = λ a b. ltb (channel_number a) (channel_number b);
  beq_iff = channel_beq_iff;
}
