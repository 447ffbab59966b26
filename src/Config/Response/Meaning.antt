-- ===== src/Config/Response/Meaning.antt =====
-- The Boolean function that a tree of hitbox-configuration/src/predicates/response/mod.rs stands for.
use hitbox.Prelude.{Bool, true, false, ◌||◌, List, [], ◌∷◌}
use hitbox.Config.Response.{
  Expression, predicate, operation, Operation, and_of, or_of, Expressions, end, cons, Response,
  flat, tree,
}

-- What an expression accepts, from the tests of its leaves and the answer `b` of the inner
-- predicate. An `Or` that is not empty starts anew.
module _ {P : Type 0} (test : P → Bool → Bool) where
  unfoldable mutual
    pub holds : Expression P → Bool → Bool
    holds (predicate p) b = test p b
    holds (operation op) b = holds_operation op b

    pub holds_operation : Operation P → Bool → Bool
    holds_operation (or_of end) b = b
    holds_operation (or_of (cons first es)) b = holds first true || holds_one es
    holds_operation (and_of es) b = holds_all es b

    pub holds_one : Expressions P → Bool
    holds_one end = false
    holds_one (cons e es) = holds e true || holds_one es

    pub holds_all : Expressions P → Bool → Bool
    holds_all end b = b
    holds_all (cons e es) b = holds_all es (holds e b)

  unfoldable pub holds_flat : List P → Bool
  holds_flat [] = true
  holds_flat (p ∷ ps) = test p (holds_flat ps)

  unfoldable pub holds_response : Response P → Bool
  unfolding holds holds_flat
  holds_response (flat ps) = holds_flat ps
  holds_response (tree e) = holds e true
