-- ===== src/Core/Predicate/Laws.antt =====
-- The algebra of predicates (hitbox-core/src/predicate/combinators.rs). The laws hold for every
-- predicate, also one that changes its subject.
use hitbox.Prelude.{◌≡◌, arith}
use hitbox.Core.Predicate.{Predicate, not_, and_, or_}

module _ {S : Type 0} (p q r : Predicate S) (s : S) where
  -- De Morgan: the negation of a conjunction is the disjunction of the negations, and the other way
  -- round, with the same subject handed on and the same predicates asked.
  pub not-and-or :
      (not_ (and_ p q) s ≡ or_ (not_ p) (not_ q) s) × (not_ (or_ p q) s ≡ and_ (not_ p) (not_ q) s)
  unfolding not_ and_ or_
  not-and-or = ground arith
