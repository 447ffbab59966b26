-- ===== src/Http/Plain/Search.antt =====
-- The search for a pattern in the bytes of a body, hitbox-http/src/predicates/body/plain.rs.
use hitbox.Prelude.{
  ℕ, zero, suc, true, Bool-cases, [], ◌∷◌, ◌++◌, length, take, drop, length-append, ◌≡◌, refl, sym,
  ap, ◌∙◌, ◌↔◌, ◌⊎◌, inl, inr, arith,
}
use mathlib.Core.List.{append_assoc}
use hitbox.Http.Body.{Bytes}
use hitbox.Http.Body.Collect.{freeze}
use hitbox.Http.Plain.{same, contains, contained}

-- A pattern that stands somewhere in the bytes.
abbrev pub Infix : Bytes → Bytes → Type 0
Infix pattern bytes = (before : Bytes) × ((after : Bytes) × (bytes ≡ before ++ (pattern ++ after)))

pub same-eq : (xs ys : Bytes) → same xs ys ≡ true → xs ≡ ys
same-eq [] [] h = refl
same-eq [] (y ∷ ys) h = ground (arith, h)
same-eq (x ∷ xs) [] h = ground (arith, h)
same-eq (x ∷ xs) (y ∷ ys) h = ground (arith, h, same-eq xs ys)

pub same_refl : (xs : Bytes) → same xs xs ≡ true
same_refl [] = refl
same_refl (x ∷ xs) = ground (arith, same_refl xs)

pub take-append : (xs ys : Bytes) → take (length xs) (xs ++ ys) ≡ xs
take-append [] ys = refl
take-append (x ∷ xs) ys = ap (λ zs. x ∷ zs) (take-append xs ys)

pub take-drop : (n : ℕ) (xs : Bytes) → take n xs ++ drop n xs ≡ xs
take-drop zero xs = refl
take-drop (suc n) [] = refl
take-drop (suc n) (x ∷ xs) = ap (λ zs. x ∷ zs) (take-drop n xs)

Infix-later : (x : ℕ) (p bs : Bytes) → Infix p bs → Infix p (x ∷ bs)
Infix-later x p bs (before, (after, e)) = (x ∷ before, (after, ap (λ zs. x ∷ zs) e))

pub Infix-append : (p bs more : Bytes) → Infix p bs → Infix p (bs ++ more)
Infix-append p bs more (before, (after, e)) = (
  before,
  (
    after ++ more,
    ap (λ zs. zs ++ more) e
        ∙ append_assoc before (p ++ after) more
        ∙ ap (λ zs. before ++ zs) (append_assoc p after more),
  ),
)

pub Infix-drop : (n : ℕ) (p bs : Bytes) → Infix p (drop n bs) → Infix p bs
Infix-drop zero p bs h = h
Infix-drop (suc n) p [] h = h
Infix-drop (suc n) p (x ∷ bs) h = Infix-later x p bs (Infix-drop n p bs h)

Infix-take : (n : ℕ) (p bs : Bytes) → same (take n bs) p ≡ true → Infix p bs
Infix-take n p bs h = (
  [],
  (drop n bs, sym (take-drop n bs) ∙ ap (λ front. front ++ drop n bs) (same-eq (take n bs) p h)),
)

contains-cons :
    (p bs : Bytes) (x : ℕ)
    → contains p (x ∷ bs) ≡ true
    → (same (take (length p) (x ∷ bs)) p ≡ true) ⊎ (contains p bs ≡ true)
contains-cons p bs x h = elim (Bool-cases (same (take (length p) (x ∷ bs)) p)) [
  | inl e ↦ inl e
  | inr e ↦ inr (ground (arith, h, e))
]

pub contains-Infix : (p bs : Bytes) → contains p bs ≡ true → Infix p bs
contains-Infix p [] h = absurd (ground (arith, h))
contains-Infix p (x ∷ bs) h = elim (contains-cons p bs x h) [
  | inl e ↦ Infix-take (length p) p (x ∷ bs) e
  | inr e ↦ Infix-later x p bs (contains-Infix p bs e)
]

contains-append :
    (x : ℕ) (p before after : Bytes) → contains (x ∷ p) (before ++ ((x ∷ p) ++ after)) ≡ true
contains-append x p [] after =
    ground (arith, length-append p after, take-append p after, same_refl p)
contains-append x p (y ∷ before) after = ground (
  arith,
  contains-append x p before after,
  length-append before ((x ∷ p) ++ after),
  length-append p after,
)

pub Infix-contains : (x : ℕ) (p bs : Bytes) → Infix (x ∷ p) bs → contains (x ∷ p) bs ≡ true
Infix-contains x p bs (before, (after, e)) =
    ap (contains (x ∷ p)) e ∙ contains-append x p before after

-- The test of a slice finds a pattern that is not empty where it stands, and nowhere else.
pub contains_iff : (x : ℕ) (p bs : Bytes) → contains (x ∷ p) bs ≡ true ↔ Infix (x ∷ p) bs
contains_iff x p bs = (contains-Infix (x ∷ p) bs, Infix-contains x p bs)

pub contained-freeze :
    (x : ℕ) (p buffer : Bytes) → contained (x ∷ p) (freeze buffer) ≡ contains (x ∷ p) buffer
contained-freeze x p [] = refl
contained-freeze x p (b ∷ buffer) = refl
