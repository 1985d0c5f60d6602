-- ===== src/Runtime/Subscriptions.antt =====
-- `matches_subscription` (crates/vsm-runtime/src/in_memory_transport.rs): which envelopes of the broadcast
-- channel a subscriber's stream yields.
use vsm_agent_kernel.Base.{
  String, ◌≡◌, ◌↔◌, refl, Bool, true, false, ◌&&◌, ◌||◌, Option, none, some, string_key, ◌==◌,
  ==_eq, ==_refl, arith, is_empty, contains,
}
use vsm_agent_kernel.Core.ChannelKey.{channel_key}
use vsm_agent_kernel.Core.Envelope.{MessageEnvelope}
use vsm_agent_kernel.Core.Id.{NodeId}
use vsm_agent_kernel.Core.Transport.{Subscription}

-- The `match` for `target_ok`.
unfoldable pub target_ok : Option String → Option NodeId → Bool
target_ok none node_id = true
target_ok (some target) (some node_id) = target == node_id
target_ok (some target) none = false

unfoldable pub matches_subscription : {V : Type 0} → Subscription → MessageEnvelope V → Bool
unfolding target_ok
matches_subscription subscription envelope =
    (is_empty subscription.channel_types
      || contains subscription.channel_types envelope.channel_type)
    && target_ok subscription.target_node_id envelope.target_node_id

target_passes :
    (o : Option String) (to : Option NodeId)
    → target_ok o to ≡ true
    → (t : String) → o ≡ some t
    → to ≡ some t
unfolding target_ok
target_passes none to h t e = absurd (ground arith)
target_passes (some s) none h t e = absurd (ground arith)
target_passes (some s) (some n) h t e = ground (arith, ==_eq {a = s} {b = n} h)

target_holds :
    (o : Option String) (to : Option NodeId)
    → ((t : String) → o ≡ some t → to ≡ some t)
    → target_ok o to ≡ true
unfolding target_ok
target_holds none to f = refl
target_holds (some s) to f = rw (f s refl) (==_refl s)

-- A subscriber gets exactly the envelopes on one of its channels, or on any if it names none, that are
-- addressed to its node if it names one. An envelope without a target goes only to those that name none.
pub matches_subscription_iff :
    {V : Type 0} (s : Subscription) (envelope : MessageEnvelope V)
    → (matches_subscription s envelope ≡ true) ↔ (
        ((is_empty s.channel_types ≡ false) → contains s.channel_types envelope.channel_type ≡ true)
        × ((t : String) → s.target_node_id ≡ some t → envelope.target_node_id ≡ some t))
unfolding matches_subscription
matches_subscription_iff s envelope = (
  λ h. (λ e. ground arith, target_passes s.target_node_id envelope.target_node_id (ground arith)),
  λ p. ground (arith, p.0, target_holds s.target_node_id envelope.target_node_id p.1),
)
