-- ===== src/Config/Request/Laws.antt =====
-- What a configured predicate on requests accepts,
-- hitbox-configuration/src/predicates/request.
use hitbox.Prelude.{Bool, true, not, ◌||◌, List, [], ◌∷◌, ◌≡◌, refl, arith}
use mathlib.Core.Path.{subst}
use hitbox.Core.Predicate.{Predicate, not_, or_, neutral}
use hitbox.Core.Response.{Result, ok}
use hitbox.Config.Answer.{answer, try_rfold}
use hitbox.Config.Meaning.{
  Answers, IsTested, or_answer, not-answer, or_swap, or_false, bind-Answers, leaf-Answers,
}
use hitbox.Config.Request.Meaning.{
  holds, holds_operation, holds_one, holds_all, holds_flat, holds_request,
}
use hitbox.Config.Request.{
  Expression, predicate, operation, Operation, and_of, or_of, not_of, Expressions, end, cons,
  Request, flat, tree, into_expression, into_operation, or_fold, and_fold, into_predicates,
}

module _ {P S E : Type 0} (leaf : P → Predicate S → Result E (Predicate S)) (test : P → Bool → Bool)
    (s : S) (leaves : IsTested leaf test s) where
  mutual
    unfolding into_expression holds neutral

    into_expression-Answers :
        (e : Expression P) (b : Bool) (inner : Predicate S)
        → inner s ≡ answer s b
        → Answers leaf s (holds test e b) (into_expression leaf e inner)
    into_expression-Answers (predicate p) b inner h = leaf-Answers leaf s test leaves p b inner h
    into_expression-Answers (operation op) b inner h = into_operation-Answers op b inner h

    into_operation-Answers :
        (op : Operation P) (b : Bool) (inner : Predicate S)
        → inner s ≡ answer s b
        → Answers leaf s (holds_operation test op b) (into_operation leaf op inner)
    into_operation-Answers (or_of end) b inner h = h
    into_operation-Answers (or_of (cons first es)) b inner h =
        bind-Answers leaf s (holds test first true) (holds test first true || holds_one test es)
          (into_expression leaf first neutral) (or_fold leaf es)
          (into_expression-Answers first true neutral refl)
          (or_fold-Answers es (holds test first true))
    into_operation-Answers (and_of es) b inner h = and_fold-Answers es b inner h
    into_operation-Answers (not_of e) b inner h =
        bind-Answers leaf s (holds test e true) (not (holds test e true))
          (into_expression leaf e neutral) (λ q. ok (not_ q))
          (into_expression-Answers e true neutral refl)
          (λ q h'. not-answer q q s (holds test e true) h')

    or_fold-Answers :
        (es : Expressions P) (a : Bool) (acc : Predicate S)
        → acc s ≡ answer s a
        → Answers leaf s (a || holds_one test es) (or_fold leaf es acc)
    or_fold-Answers end a acc h = subst (λ x. acc s ≡ answer s x) (or_false a) h
    or_fold-Answers (cons e es) a acc h =
        bind-Answers leaf s (holds test e true) (a || (holds test e true || holds_one test es))
          (into_expression leaf e neutral) (λ q. or_fold leaf es (or_ q acc))
          (into_expression-Answers e true neutral refl)
          (λ q h'.
            subst (λ x. Answers leaf s x (or_fold leaf es (or_ q acc)))
              (or_swap (holds test e true) a (holds_one test es))
              (or_fold-Answers es (holds test e true || a) (or_ q acc)
                (or_answer q acc s (holds test e true) a h' h)))

    and_fold-Answers :
        (es : Expressions P) (b : Bool) (inner : Predicate S)
        → inner s ≡ answer s b
        → Answers leaf s (holds_all test es b) (and_fold leaf es inner)
    and_fold-Answers end b inner h = h
    and_fold-Answers (cons e es) b inner h =
        bind-Answers leaf s (holds_all test es b) (holds test e (holds_all test es b))
          (and_fold leaf es inner) (into_expression leaf e) (and_fold-Answers es b inner h)
          (into_expression-Answers e (holds_all test es b))

  flat-Answers :
      (ps : List P)
      → Answers leaf s (holds_flat test ps) (try_rfold (λ inner p. leaf p inner) neutral ps)
  unfolding try_rfold holds_flat neutral
  flat-Answers [] = refl
  flat-Answers (p ∷ ps) =
      bind-Answers leaf s (holds_flat test ps) (test p (holds_flat test ps))
        (try_rfold (λ inner x. leaf x inner) neutral ps) (leaf p) (flat-Answers ps)
        (λ q h. leaf-Answers leaf s test leaves p (holds_flat test ps) q h)

  -- The predicate of a configured request accepts what `holds_request` says, where an `Or` that is
  -- not empty starts anew, and hands its subject on; or the conversion fails with the error of a
  -- leaf. The tests of the leaves are arbitrary; a leaf answers by the answer of its inner predicate.
  pub into_predicates-Answers_request :
      (request : Request P)
      → Answers leaf s (holds_request test request) (into_predicates leaf request)
  unfolding into_predicates holds_request neutral
  into_predicates-Answers_request (flat ps) = flat-Answers ps
  into_predicates-Answers_request (tree e) = into_expression-Answers e true neutral refl

-- Where an `And` begins with an `Or` that is not empty, what stands after it is not looked at: if it
-- can be converted, the configured predicate is that of the `Or` alone.
pub into_predicates-or_of_request :
    {P S E : Type 0} (leaf : P → Predicate S → Result E (Predicate S)) (first : Expression P)
    (es rest : Expressions P) (q : Predicate S)
    → and_fold leaf rest neutral ≡ ok q
    → into_predicates leaf
        (tree (operation (and_of (cons (operation (or_of (cons first es))) rest))))
      ≡ into_predicates leaf (tree (operation (or_of (cons first es))))
unfolding into_predicates into_expression
into_predicates-or_of_request leaf first es rest q e = ground (arith, e)
