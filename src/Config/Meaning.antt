-- ===== src/Config/Meaning.antt =====
-- What a configured predicate is to do, hitbox-configuration/src/predicates: it answers a subject by
-- a Boolean, or its conversion fails as that of a leaf does.
use hitbox.Prelude.{Bool, true, false, not, ◌||◌, List, [], ◌∷◌, ◌≡◌, refl, arith}
use hitbox.Core.Predicate.{Predicate, not_, or_, neutral}
use hitbox.Core.Response.{Result, ok, err}
use hitbox.Config.Answer.{bind, answer, try_rfold}
use hitbox.Config.Gives.{Gives, bind-Gives}

-- A conversion either gives a predicate that answers `b` of the subject `s`, and hands it on as it
-- came, or fails as the conversion of some leaf does.
abbrev pub Answers :
    {P S E : Type 0}
    → (P → Predicate S → Result E (Predicate S))
    → S
    → Bool
    → Result E (Predicate S)
    → Type 0
Answers leaf s b (ok q) = q s ≡ answer s b
Answers {P} {S} leaf s b (err e) = (p : P) × (inner : Predicate S) × (leaf p inner ≡ err e)

-- A leaf that is converted answers by its test, from the answer of its inner predicate.
pub record IsTested {P S E : Type 0} (leaf : P → Predicate S → Result E (Predicate S))
    (test : P → Bool → Bool) (s : S) : Type 0 where
  pub tested :
      (p : P) (inner q : Predicate S) (b : Bool)
      → leaf p inner ≡ ok q
      → inner s ≡ answer s b
      → q s ≡ answer s (test p b)

module _ {S : Type 0} (p q : Predicate S) (s : S) where
  pub or_answer : (a b : Bool) → p s ≡ answer s a → q s ≡ answer s b → or_ p q s ≡ answer s (a || b)
  unfolding or_
  or_answer true b e e' = ground (arith, e, e')
  or_answer false b e e' = ground (arith, e, e')

  pub not-answer : (a : Bool) → p s ≡ answer s a → not_ p s ≡ answer s (not a)
  unfolding not_
  not-answer true e = ground (arith, e)
  not-answer false e = ground (arith, e)

pub or_swap : (c a d : Bool) → ((c || a) || d) ≡ (a || (c || d))
or_swap true true d = refl
or_swap true false d = refl
or_swap false a d = refl

pub or_false : (a : Bool) → a ≡ (a || false)
or_false true = refl
or_false false = refl

module _ {P S E : Type 0} (leaf : P → Predicate S → Result E (Predicate S)) (s : S) where
  pub bind-Answers :
      (c d : Bool) (r : Result E (Predicate S)) (f : Predicate S → Result E (Predicate S))
      → Answers leaf s c r
      → ((q : Predicate S) → q s ≡ answer s c → Answers leaf s d (f q))
      → Answers leaf s d (bind r f)
  bind-Answers c d (ok q) f h next = next q h
  bind-Answers c d (err e) f h next = h

  module _ (test : P → Bool → Bool) (leaves : IsTested leaf test s) (p : P) (b : Bool)
      (inner : Predicate S) (h : inner s ≡ answer s b) where
    outcome_kept : (r : Result E (Predicate S)) → leaf p inner ≡ r → Answers leaf s (test p b) r
    outcome_kept (ok q) e = leaves.tested p inner q b e h
    outcome_kept (err x) e = (p, inner, e)

    pub leaf-Answers : Answers leaf s (test p b) (leaf p inner)
    leaf-Answers = outcome_kept (leaf p inner) refl

-- A property of predicates that the leaves and the combinators keep.
pub record IsKept {P S E : Type 0} (leaf : P → Predicate S → Result E (Predicate S))
    (Good : Predicate S → Type 0) : Type 0 where
  pub neutral-Good : Good neutral
  pub or-Good : (p q : Predicate S) → Good p → Good q → Good (or_ p q)
  pub not-Good : (p : Predicate S) → Good p → Good (not_ p)
  pub leaf-Good : (p : P) (inner : Predicate S) → Good inner → Gives Good (leaf p inner)

-- It is kept by a flat list.
pub try_rfold-Gives :
    {P S E : Type 0} (leaf : P → Predicate S → Result E (Predicate S)) (Good : Predicate S → Type 0)
    (kept : IsKept leaf Good) (ps : List P)
    → Gives Good (try_rfold (λ inner p. leaf p inner) neutral ps)
unfolding try_rfold
try_rfold-Gives leaf Good kept [] = kept.neutral-Good
try_rfold-Gives leaf Good kept (p ∷ ps) =
    bind-Gives Good Good (try_rfold (λ inner x. leaf x inner) neutral ps) (leaf p)
      (try_rfold-Gives leaf Good kept ps) (kept.leaf-Good p)
