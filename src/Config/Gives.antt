-- ===== src/Config/Gives.antt =====
-- What a configured value that is parsed gives: lemmas on `?`, `collect` and the predicates on heads,
-- for hitbox-configuration/src.
use hitbox.Prelude.{Bool, true, false, ◌&&◌, ◌||◌, List, [], ◌∷◌, ◌≡◌, refl, ap, ◌∙◌}
use hitbox.Core.Predicate.{Predicate}
use hitbox.Core.Response.{Result, ok, err}
use hitbox.Http.Heads.{any, guard}
use hitbox.Config.Answer.{bind, collect_all, answer}

-- What a result gives, if it is no error.
abbrev pub Gives : {E A : Type 0} → (A → Type 0) → Result E A → Type 0
Gives Good (ok a) = Good a
Gives Good (err e) = Unit

pub bind-Gives :
    {E A B : Type 0} (Good : A → Type 0) (Fine : B → Type 0) (r : Result E A) (f : A → Result E B)
    → Gives Good r
    → ((a : A) → Good a → Gives Fine (f a))
    → Gives Fine (bind r f)
bind-Gives Good Fine (ok a) f h next = next a h
bind-Gives Good Fine (err e) f h next = tt

pub any-Gives : {E A : Type 0} (r : Result E A) → Gives (λ a. Unit {0}) r
any-Gives (ok a) = tt
any-Gives (err e) = tt

-- A test of what a text is parsed to.
abbrev pub accepts : {E A : Type 0} → (A → Bool) → Result E A → Bool
accepts test (ok a) = test a
accepts test (err e) = false

module _ {E A : Type 0} (test : A → Bool) where
  pub accepts-Gives : (r : Result E A) → Gives (λ a. test a ≡ accepts test r) r
  accepts-Gives (ok a) = refl
  accepts-Gives (err e) = tt

  pub collect_all-Gives :
      {T : Type 0} (parse : T → Result E A) (texts : List T)
      → Gives
          (λ as_. any test as_ ≡ any (λ t. accepts test (parse t)) texts)
          (collect_all parse texts)
  unfolding collect_all
  collect_all-Gives parse [] = refl
  collect_all-Gives parse (t ∷ texts) =
      bind-Gives (λ a. test a ≡ accepts test (parse t))
        (λ as_. any test as_ ≡ any (λ t'. accepts test (parse t')) (t ∷ texts)) (parse t)
        (λ a. bind (collect_all parse texts) (λ as_. ok (a ∷ as_))) (accepts-Gives (parse t))
        (λ a e.
          bind-Gives (λ as_. any test as_ ≡ any (λ t'. accepts test (parse t')) texts)
            (λ as_. any test as_ ≡ any (λ t'. accepts test (parse t')) (t ∷ texts))
            (collect_all parse texts) (λ as_. ok (a ∷ as_)) (collect_all-Gives parse texts)
            (λ as_ e'. ap (λ x. x || any test as_) e ∙ ap (λ x. accepts test (parse t) || x) e'))

module _ {S : Type 0} (test : S → Bool) (s : S) where
  guard-answer : (b : Bool) → guard test (answer s b) ≡ answer s (b && test s)
  unfolding guard
  guard-answer true = refl
  guard-answer false = refl

  -- A predicate on the head behind an inner one that answers `b`, of which the test is known.
  pub guard-tested :
      (inner : Predicate S) (b t : Bool)
      → inner s ≡ answer s b
      → test s ≡ t
      → guard test (inner s) ≡ answer s (b && t)
  guard-tested inner b t e e' = ap (guard test) e ∙ guard-answer b ∙ ap (λ x. answer s (b && x)) e'
