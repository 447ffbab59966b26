-- ===== src/Core/Predicate.antt =====
-- hitbox-core/src/predicate: asynchronous predicates, which hand their subject on with the answer.
pub mod Laws

pub data PredicateResult (S : Type 0) : Type 0 where
  cacheable : S → PredicateResult S
  non_cacheable : S → PredicateResult S

-- `Predicate::check`; the impls for boxes and references call the inner one.
abbrev pub Predicate : Type 0 → Type 0
Predicate S = S → PredicateResult S

module _ {S : Type 0} where
  unfoldable pub and_then : PredicateResult S → (S → PredicateResult S) → PredicateResult S
  and_then (cacheable s) f = f s
  and_then (non_cacheable s) f = non_cacheable s

  -- The match of `Not::check`.
  abbrev pub flip : PredicateResult S → PredicateResult S
  flip (cacheable s) = non_cacheable s
  flip (non_cacheable s) = cacheable s

  unfoldable pub not_ : Predicate S → Predicate S
  not_ p s = flip (p s)

  -- The match of `And::check`.
  abbrev on_cacheable : PredicateResult S → Predicate S → PredicateResult S
  on_cacheable (cacheable s) right = right s
  on_cacheable (non_cacheable s) right = non_cacheable s

  unfoldable pub and_ : Predicate S → Predicate S → Predicate S
  and_ left right s = on_cacheable (left s) right

  -- The match of `Or::check`.
  abbrev pub on_non_cacheable : PredicateResult S → Predicate S → PredicateResult S
  on_non_cacheable (cacheable s) right = cacheable s
  on_non_cacheable (non_cacheable s) right = right s

  unfoldable pub or_ : Predicate S → Predicate S → Predicate S
  or_ left right s = on_non_cacheable (left s) right

  unfoldable pub neutral : Predicate S
  neutral s = cacheable s
