-- ===== src/Config/Backends/Laws.antt =====
-- What a configured composition is: hitbox-configuration/src/backend/composition.rs.
use hitbox.Prelude.{String, Option, ◌≡◌, refl, ap, ◌∙◌, arith}
use hitbox.Core.Response.{ok, err}
use hitbox.Key.{CacheKey}
use hitbox.Backend.{Backend, provided}
use hitbox.Composition.Write
use hitbox.Composition.Backend as Composed
use hitbox.Composition.Backend.{sequential_reads, never, with_label}
use hitbox.Composition.Backend.Packed.{as_backend}
use hitbox.Composition.Compose.{new_policy, with_read, with_write, with_refill, compose_with}
use hitbox.Config.Error.{ConfigError}
use hitbox.Config.Backends.{
  Parts, Configured, composition, CompositionPolicyConfig, ReadPolicy, sequential_read, race_read,
  parallel_read, WritePolicy, sequential_write, optimistic_parallel_write, race_write, to_refill,
  labelled, branch_policy, composed, into_backend,
}

module _ {I32 W C P B S F MP MB : Type 0} (parts : Parts I32 W C P B S F MP MB) where
  abbrev pub reads : ReadPolicy → Composed.ReadPolicy W
  reads sequential_read = sequential_reads
  reads race_read = parts.race_reads
  reads parallel_read = parts.parallel_reads

  abbrev pub writes : WritePolicy → Composed.WritePolicy W
  writes sequential_write = Write.sequential
  writes optimistic_parallel_write = Write.optimistic_parallel parts.order
  writes race_write = parts.race_writes

  branch_policy-reads :
      (r : ReadPolicy) (w : WritePolicy)
      → branch_policy parts r w ≡ record { read = reads r; write = writes w; refill = never }
  unfolding branch_policy with_read with_write new_policy
  branch_policy-reads sequential_read sequential_write = refl
  branch_policy-reads sequential_read optimistic_parallel_write = refl
  branch_policy-reads sequential_read race_write = refl
  branch_policy-reads race_read sequential_write = refl
  branch_policy-reads race_read optimistic_parallel_write = refl
  branch_policy-reads race_read race_write = refl
  branch_policy-reads parallel_read sequential_write = refl
  branch_policy-reads parallel_read optimistic_parallel_write = refl
  branch_policy-reads parallel_read race_write = refl

  composed-reads :
      (policy : CompositionPolicyConfig) (label : Option String) (l1 l2 : Backend W CacheKey C)
      → composed parts policy label l1 l2
        ≡ as_backend
            (labelled label
              (λ l b. with_label b l)
              (compose_with parts.order (provided l1) (provided l2) (record {
                read = reads policy.read;
                write = writes policy.write;
                refill = to_refill policy.refill;
              })))
            parts.from_timestamp
            parts.order
  unfolding composed with_refill
  composed-reads policy label l1 l2 =
      ap
        (λ p.
          as_backend
            (labelled label (λ l b. with_label b l)
              (compose_with parts.order (provided l1) (provided l2)
                (with_refill (to_refill policy.refill) p)))
            parts.from_timestamp parts.order)
        (branch_policy-reads policy.read policy.write)

  -- Where both layers of a configured composition are built, it is the composition of the two with
  -- the read, the write and the refill policy that are configured, each for itself, and the
  -- configured label.
  pub into_backend-reads :
      (l1 l2 : Configured I32) (policy : CompositionPolicyConfig) (label : Option String)
      (b1 b2 : Backend W CacheKey C)
      → into_backend parts l1 ≡ ok b1
      → into_backend parts l2 ≡ ok b2
      → into_backend parts (composition l1 l2 policy label)
        ≡ ok (
            as_backend
              (labelled label
                (λ l b. with_label b l)
                (compose_with parts.order (provided b1) (provided b2) (record {
                  read = reads policy.read;
                  write = writes policy.write;
                  refill = to_refill policy.refill;
                })))
              parts.from_timestamp
              parts.order)
  unfolding into_backend
  into_backend-reads l1 l2 policy label b1 b2 built1 built2 =
      ground (arith, built1, built2) ∙ ap ok (composed-reads policy label b1 b2)

  -- The error of the first layer that cannot be built is the composition's.
  pub into_backend-fails :
      (l1 l2 : Configured I32) (policy : CompositionPolicyConfig) (label : Option String)
      (e : ConfigError)
      → into_backend parts l1 ≡ err e
      → into_backend parts (composition l1 l2 policy label) ≡ err e
  unfolding into_backend
  into_backend-fails l1 l2 policy label e h = ground (arith, h)
