-- ===== src/Config/Answer.antt =====
-- What the configured predicates and extractors of hitbox-configuration/src share.
use hitbox.Prelude.{Bool, List, [], ◌∷◌, if◌then◌else◌}
use hitbox.Core.Predicate.{PredicateResult, cacheable, non_cacheable}
use hitbox.Core.Response.{Result, ok, err}

-- The operator `?`, and the step of `try_fold` and `try_rfold`.
abbrev pub bind : {E A B : Type 0} → Result E A → (A → Result E B) → Result E B
bind (ok a) f = f a
bind (err e) f = err e

-- `.iter().map(...).collect()` into a result: the first error, or the list.
unfoldable pub collect_all : {E A B : Type 0} → (A → Result E B) → List A → Result E (List B)
collect_all f [] = ok []
collect_all f (x ∷ xs) = bind (f x) (λ y. bind (collect_all f xs) (λ ys. ok (y ∷ ys)))

-- `try_rfold`, from the last to the first.
unfoldable pub try_rfold : {E A B : Type 0} → (B → A → Result E B) → B → List A → Result E B
try_rfold f b [] = ok b
try_rfold f b (x ∷ xs) = bind (try_rfold f b xs) (λ b'. f b' x)

-- The answer of a predicate that hands its subject on as it came.
abbrev pub answer : {S : Type 0} → S → Bool → PredicateResult S
answer s accepted = if accepted then cacheable s else non_cacheable s
