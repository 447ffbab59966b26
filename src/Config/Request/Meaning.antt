-- ===== src/Config/Request/Meaning.antt =====
-- The Boolean function that a tree of hitbox-configuration/src/predicates/request stands for.
use hitbox.Prelude.{Bool, true, false, not, ◌||◌, List, [], ◌∷◌}
use hitbox.Config.Request.{
  Expression, predicate, operation, Operation, and_of, or_of, not_of, Expressions, end, cons,
  Request, flat, tree,
}

-- What an expression accepts, from the tests of its leaves and the answer `b` of the inner
-- predicate. An `Or` that is not empty and
-- a `Not` start anew.
module _ {P : Type 0} (test : P → Bool → Bool) where
  unfoldable mutual
    pub holds : Expression P → Bool → Bool
    holds (predicate p) b = test p b
    holds (operation op) b = holds_operation op b

    pub holds_operation : Operation P → Bool → Bool
    holds_operation (or_of end) b = b
    holds_operation (or_of (cons first es)) b = holds first true || holds_one es
    holds_operation (and_of es) b = holds_all es b
    holds_operation (not_of e) b = not (holds e true)

    pub holds_one : Expressions P → Bool
    holds_one end = false
    holds_one (cons e es) = holds e true || holds_one es

    pub holds_all : Expressions P → Bool → Bool
    holds_all end b = b
    holds_all (cons e es) b = holds e (holds_all es b)

  unfoldable pub holds_flat : List P → Bool
  holds_flat [] = true
  holds_flat (p ∷ ps) = test p (holds_flat ps)

  unfoldable pub holds_request : Request P → Bool
  unfolding holds holds_flat
  holds_request (flat ps) = holds_flat ps
  holds_request (tree e) = holds e true
