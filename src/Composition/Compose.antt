-- ===== src/Composition/Compose.antt =====
-- hitbox-backend/src/composition/compose.rs and policy/builder.rs: how two backends are composed, and
-- the builder of the policies of a composition. The argument `order` of the default write policy says
-- which of two joined writes completes first.
use hitbox.Prelude.{◌≡◌, refl}
use hitbox.Core.Context.{BackendLabel, CompositionLayer}
use hitbox.Composition.Write
use hitbox.Backend.{CacheBackend}
use hitbox.Composition.Backend.{
  ReadPolicy, WritePolicy, RefillPolicy, never, CompositionBackend, sequential_reads, with_label,
}
use hitbox.Composition.Backend

pub record CompositionPolicy (W : Type 0) : Type 1 where
  pub read : ReadPolicy W
  pub write : WritePolicy W
  pub refill : RefillPolicy

module _ {W : Type 0} where
  unfoldable pub new_policy : CompositionLayer → CompositionPolicy W
  new_policy order = record {
    read = sequential_reads;
    write = Write.optimistic_parallel order;
    refill = never;
  }

  unfoldable pub with_read : ReadPolicy W → CompositionPolicy W → CompositionPolicy W
  with_read read p = record { read = read; write = p.write; refill = p.refill }

  unfoldable pub with_write : WritePolicy W → CompositionPolicy W → CompositionPolicy W
  with_write write p = record { read = p.read; write = write; refill = p.refill }

  unfoldable pub with_refill : RefillPolicy → CompositionPolicy W → CompositionPolicy W
  with_refill refill p = record { read = p.read; write = p.write; refill = refill }

module _ {W Key C : Type 0} where
  unfoldable pub with_policy :
      CompositionPolicy W → CompositionBackend W Key C → CompositionBackend W Key C
  with_policy policy b = record {
    l1 = b.l1;
    l2 = b.l2;
    format = b.format;
    read_policy = policy.read;
    write_policy = policy.write;
    refill_policy = policy.refill;
    label = b.label;
  }

  module _ (order : CompositionLayer) (a b : CacheBackend W Key C) where
    unfoldable pub compose : CompositionBackend W Key C
    unfolding Backend.new
    compose = Backend.new order a b

    unfoldable pub compose_with : CompositionPolicy W → CompositionBackend W Key C
    unfolding Backend.new with_policy
    compose_with policy = with_policy policy (Backend.new order a b)

    -- Composing with the default policies is composing without a choice of policies.
    pub compose_with-new_policy : compose_with (new_policy order) ≡ compose
    unfolding compose_with compose with_policy new_policy Backend.new
    compose_with-new_policy = refl

    -- The policies that were set last count, and neither the labels nor the order in which the
    -- label and the policies are set make a difference.
    pub with_policy-with_label :
        (p q : CompositionPolicy W) (label : BackendLabel)
        → with_policy q (with_label (compose_with p) label) ≡ with_label (compose_with q) label
    unfolding compose_with with_policy with_label Backend.new
    with_policy-with_label p q label = refl
