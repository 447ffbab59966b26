-- ===== src/Config/Request/Kept.antt =====
-- A property that every leaf and combinator keeps is one of the configured predicate,
-- hitbox-configuration/src/predicates/request.
use hitbox.Core.Predicate.{Predicate, not_, or_, neutral}
use hitbox.Core.Response.{Result, ok}
use hitbox.Config.Gives.{Gives, bind-Gives}
use hitbox.Config.Meaning.{IsKept, try_rfold-Gives}
use hitbox.Config.Request.{
  Expression, predicate, operation, Operation, and_of, or_of, not_of, Expressions, end, cons,
  Request, flat, tree, into_expression, into_operation, or_fold, and_fold, into_predicates,
}

module _ {P S E : Type 0} (leaf : P → Predicate S → Result E (Predicate S))
    (Good : Predicate S → Type 0) (kept : IsKept leaf Good) where
  mutual
    unfolding into_expression

    into_expression-Gives :
        (e : Expression P) (inner : Predicate S)
        → Good inner
        → Gives Good (into_expression leaf e inner)
    into_expression-Gives (predicate p) inner h = kept.leaf-Good p inner h
    into_expression-Gives (operation op) inner h = into_operation-Gives op inner h

    into_operation-Gives :
        (op : Operation P) (inner : Predicate S)
        → Good inner
        → Gives Good (into_operation leaf op inner)
    into_operation-Gives (or_of end) inner h = h
    into_operation-Gives (or_of (cons first es)) inner h =
        bind-Gives Good Good (into_expression leaf first neutral) (or_fold leaf es)
          (into_expression-Gives first neutral kept.neutral-Good) (or_fold-Gives es)
    into_operation-Gives (and_of es) inner h = and_fold-Gives es inner h
    into_operation-Gives (not_of e) inner h =
        bind-Gives Good Good (into_expression leaf e neutral) (λ q. ok (not_ q))
          (into_expression-Gives e neutral kept.neutral-Good) kept.not-Good

    or_fold-Gives :
        (es : Expressions P) (acc : Predicate S) → Good acc → Gives Good (or_fold leaf es acc)
    or_fold-Gives end acc h = h
    or_fold-Gives (cons e es) acc h =
        bind-Gives Good Good (into_expression leaf e neutral) (λ q. or_fold leaf es (or_ q acc))
          (into_expression-Gives e neutral kept.neutral-Good)
          (λ q h'. or_fold-Gives es (or_ q acc) (kept.or-Good q acc h' h))

    and_fold-Gives :
        (es : Expressions P) (inner : Predicate S)
        → Good inner
        → Gives Good (and_fold leaf es inner)
    and_fold-Gives end inner h = h
    and_fold-Gives (cons e es) inner h =
        bind-Gives Good Good (and_fold leaf es inner) (into_expression leaf e)
          (and_fold-Gives es inner h) (into_expression-Gives e)

  pub into_predicates-Gives : (request : Request P) → Gives Good (into_predicates leaf request)
  unfolding into_predicates
  into_predicates-Gives (flat ps) = try_rfold-Gives leaf Good kept ps
  into_predicates-Gives (tree e) = into_expression-Gives e neutral kept.neutral-Good
