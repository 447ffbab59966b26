-- ===== src/Config/Response.antt =====
-- hitbox-configuration/src/predicates/response/mod.rs: the predicates on responses. The trees are
-- over any kind of leaf with its `into_predicates`; hitbox.Config.Leaves has the source's leaves.
pub mod Meaning
pub mod Laws
pub mod Kept
use hitbox.Prelude.{List, [], ◌∷◌}
use hitbox.Core.Predicate.{Predicate, or_, neutral}
use hitbox.Core.Response.{Result, ok}
use hitbox.Config.Answer.{bind, try_rfold}

mutual
  pub data Expression (P : Type 0) : Type 0 where
    predicate : P → Expression P
    operation : Operation P → Expression P

  pub data Operation (P : Type 0) : Type 0 where
    and_of : Expressions P → Operation P
    or_of : Expressions P → Operation P

  -- `Vec<Expression>`
  pub data Expressions (P : Type 0) : Type 0 where
    end : Expressions P
    cons : Expression P → Expressions P → Expressions P

pub data Response (P : Type 0) : Type 0 where
  flat : List P → Response P
  tree : Expression P → Response P

module _ {P S E : Type 0} (leaf : P → Predicate S → Result E (Predicate S)) where
  unfoldable mutual
    pub into_expression : Expression P → Predicate S → Result E (Predicate S)
    into_expression (predicate p) inner = leaf p inner
    into_expression (operation op) inner = into_operation op inner

    pub into_operation : Operation P → Predicate S → Result E (Predicate S)
    into_operation (or_of end) inner = ok inner
    into_operation (or_of (cons first predicates)) inner =
        bind (into_expression first neutral) (or_fold predicates)
    into_operation (and_of predicates) inner = and_fold predicates inner

    -- The `try_fold` of `Or`.
    pub or_fold : Expressions P → Predicate S → Result E (Predicate S)
    or_fold end acc = ok acc
    or_fold (cons e predicates) acc =
        bind (into_expression e neutral) (λ p. or_fold predicates (or_ p acc))

    -- The `try_fold` of `And`, from the first to the last.
    pub and_fold : Expressions P → Predicate S → Result E (Predicate S)
    and_fold end inner = ok inner
    and_fold (cons e predicates) inner = bind (into_expression e inner) (and_fold predicates)

  unfoldable pub into_predicates : Response P → Result E (Predicate S)
  unfolding into_expression try_rfold
  into_predicates (flat predicates) = try_rfold (λ inner p. leaf p inner) neutral predicates
  into_predicates (tree expression) = into_expression expression neutral
