-- ===== src/Config/Heads/Laws.antt =====
-- What the configured tests of a head accept, hitbox-configuration/src/predicates/{version,header}.rs
-- and request/{method,path,query}.rs.
use hitbox.Prelude.{String, Bool, true, ◌&&◌, ◌||◌, List, [], ◌∷◌, ◌≡◌, refl, ap, ◌∙◌}
use hitbox.Core.Predicate.{Predicate, or_, neutral}
use hitbox.Core.Response.{Result, ok}
use hitbox.Http.Response.{Version}
use hitbox.Http.Heads.{
  Headers, check_header, any, OneOf, is_one_of, or_false, query_matches, parsed, StatusClasses,
  Head, header_predicate, method_predicate, path_predicate, query_predicate, version_predicate,
}
use hitbox.Config.Error.{ConfigError}
use hitbox.Config.Answer.{bind, answer, collect_all}
use hitbox.Config.Gives.{Gives, bind-Gives, accepts, accepts-Gives, collect_all-Gives, guard-tested}
use hitbox.Config.Meaning.{or_answer, or_swap}
use hitbox.Config.Meaning as Meaning
use hitbox.Config.Heads.{
  Parsers, PathOperation, pattern_, ParamOperation, HeaderValue, to_operation, query_operation,
  parse_method, parse_version, one_of, named_operation, method_into_predicates,
  version_into_predicates, reduce_paths, path_into_predicates, query_fold, query_into_predicates,
  header_into_predicates,
}

-- A text, or one of some, is parsed to the value `x`.
abbrev pub one_accepts :
    {A : Type 0} → (String → Result ConfigError A) → (A → A → Bool) → OneOf String → A → Bool
one_accepts parse same (OneOf.eq text) x = accepts (λ a. same x a) (parse text)
one_accepts parse same (OneOf.in_ texts) x = any (λ t. accepts (λ a. same a x) (parse t)) texts

one_of-Gives :
    {A : Type 0} (parse : String → Result ConfigError A) (same : A → A → Bool) (op : OneOf String)
    (x : A)
    → Gives (λ o. is_one_of same o x ≡ one_accepts parse same op x) (one_of parse op)
unfolding one_of
one_of-Gives parse same (OneOf.eq text) x =
    bind-Gives (λ a. same x a ≡ accepts (λ a'. same x a') (parse text))
      (λ o. is_one_of same o x ≡ one_accepts parse same (OneOf.eq text) x) (parse text)
      (λ a. ok (OneOf.eq a)) (accepts-Gives (λ a. same x a) (parse text)) (λ a e. e)
one_of-Gives parse same (OneOf.in_ texts) x =
    bind-Gives (λ as_. any (λ a. same a x) as_ ≡ any (λ t. accepts (λ a. same a x) (parse t)) texts)
      (λ o. is_one_of same o x ≡ one_accepts parse same (OneOf.in_ texts) x)
      (collect_all parse texts) (λ as_. ok (OneOf.in_ as_))
      (collect_all-Gives (λ a. same a x) parse texts) (λ as_ e. e)

module _ {S Method Resource Map Name Value Regex : Type 0}
    (lib : Parsers Method Resource Name Value Regex) (head : Head S Method Resource Version Map)
    (h : Headers Map Name Value Regex) (classes : StatusClasses) (s : S) where
  -- The tests of the configured operations, from the answer `b` of the inner predicate.
  unfoldable pub method_holds : OneOf String → Bool → Bool
  method_holds op b = b && one_accepts (parse_method lib) head.same_method op (head.method s)

  unfoldable pub version_holds : OneOf String → Bool → Bool
  version_holds op b = b && one_accepts (parse_version lib) head.same_version op (head.version s)

  -- A list of paths does not ask the inner predicate.
  unfoldable pub path_holds : PathOperation → Bool → Bool
  path_holds (pattern_ p) b = b && head.is_match_path (lib.resource p) (head.path s)
  path_holds (PathOperation.in_ ps) b =
      any (λ p. head.is_match_path (lib.resource p) (head.path s)) ps

  unfoldable pub query_holds : List (String × ParamOperation) → Bool → Bool
  query_holds [] b = b
  query_holds ((key, op) ∷ params) b =
      query_holds params b
      && or_false (query_matches (query_operation key (to_operation op)))
          (parsed head.parse_query (head.query s))

  unfoldable pub header_holds : List (String × HeaderValue) → Bool → Bool
  header_holds [] b = b
  header_holds (header ∷ headers) b =
      header_holds headers b
      && accepts (λ o. check_header h o (head.headers s)) (named_operation lib header)

  module _ (b : Bool) (inner : Predicate S) (e : inner s ≡ answer s b) where
    pub method_into_predicates-Gives :
        (op : OneOf String)
        → Gives
            (λ q. q s ≡ answer s (method_holds op b))
            (method_into_predicates lib head h classes op inner)
    unfolding method_into_predicates method_predicate method_holds
    method_into_predicates-Gives op =
        bind-Gives
          (λ o.
            is_one_of head.same_method o (head.method s)
            ≡ one_accepts (parse_method lib) head.same_method op (head.method s))
          (λ q. q s ≡ answer s (method_holds op b)) (one_of (parse_method lib) op)
          (λ o. ok (method_predicate head h classes o inner))
          (one_of-Gives (parse_method lib) head.same_method op (head.method s))
          (λ o agrees.
            guard-tested (λ x. is_one_of head.same_method o (head.method x)) s inner b
              (one_accepts (parse_method lib) head.same_method op (head.method s)) e agrees)

    pub version_into_predicates-Gives :
        (op : OneOf String)
        → Gives
            (λ q. q s ≡ answer s (version_holds op b))
            (version_into_predicates lib head h classes op inner)
    unfolding version_into_predicates version_predicate version_holds
    version_into_predicates-Gives op =
        bind-Gives
          (λ o.
            is_one_of head.same_version o (head.version s)
            ≡ one_accepts (parse_version lib) head.same_version op (head.version s))
          (λ q. q s ≡ answer s (version_holds op b)) (one_of (parse_version lib) op)
          (λ o. ok (version_predicate head h classes o inner))
          (one_of-Gives (parse_version lib) head.same_version op (head.version s))
          (λ o agrees.
            guard-tested (λ x. is_one_of head.same_version o (head.version x)) s inner b
              (one_accepts (parse_version lib) head.same_version op (head.version s)) e agrees)

    query_fold-answer :
        (params : List (String × ParamOperation))
        → query_fold lib head h classes inner params s ≡ answer s (query_holds params b)
    unfolding query_fold query_predicate query_holds
    query_fold-answer [] = e
    query_fold-answer ((key, op) ∷ params) =
        guard-tested
          (λ x.
            or_false (query_matches (query_operation key (to_operation op)))
              (parsed head.parse_query (head.query x)))
          s (query_fold lib head h classes inner params) (query_holds params b)
          (or_false (query_matches (query_operation key (to_operation op)))
            (parsed head.parse_query (head.query s)))
          (query_fold-answer params) refl

    pub query_into_predicates-Gives :
        (params : List (String × ParamOperation))
        → Gives
            (λ q. q s ≡ answer s (query_holds params b))
            (query_into_predicates lib head h classes params inner)
    unfolding query_into_predicates
    query_into_predicates-Gives params = query_fold-answer params

    header_step-Gives :
        (header : String × HeaderValue) (c : Bool) (p : Predicate S)
        → p s ≡ answer s c
        → Gives
            (λ q.
              q s
              ≡ answer s (
                  c
                  && accepts (λ o. check_header h o (head.headers s)) (named_operation lib header)))
            (bind (named_operation lib header) (λ o. ok (header_predicate head h classes o p)))
    unfolding header_predicate
    header_step-Gives header c p e' =
        bind-Gives
          (λ o.
            check_header h o (head.headers s)
            ≡ accepts (λ o'. check_header h o' (head.headers s)) (named_operation lib header))
          (λ q.
            q s
            ≡ answer s (
                c && accepts (λ o. check_header h o (head.headers s)) (named_operation lib header)))
          (named_operation lib header) (λ o. ok (header_predicate head h classes o p))
          (accepts-Gives (λ o. check_header h o (head.headers s)) (named_operation lib header))
          (λ o agrees.
            guard-tested (λ x. check_header h o (head.headers x)) s p c
              (accepts (λ o'. check_header h o' (head.headers s)) (named_operation lib header)) e'
              agrees)

    pub header_into_predicates-Gives :
        (headers : List (String × HeaderValue))
        → Gives
            (λ q. q s ≡ answer s (header_holds headers b))
            (header_into_predicates lib head h classes headers inner)
    unfolding header_into_predicates header_holds
    header_into_predicates-Gives [] = e
    header_into_predicates-Gives (header ∷ headers) =
        bind-Gives (λ q. q s ≡ answer s (header_holds headers b))
          (λ q. q s ≡ answer s (header_holds (header ∷ headers) b))
          (header_into_predicates lib head h classes headers inner)
          (λ p. bind (named_operation lib header) (λ o. ok (header_predicate head h classes o p)))
          (header_into_predicates-Gives headers)
          (λ p e'. header_step-Gives header (header_holds headers b) p e')

  path-answer :
      (p : String)
      → path_predicate head h classes (lib.resource p) neutral s
        ≡ answer s (head.is_match_path (lib.resource p) (head.path s))
  unfolding path_predicate neutral
  path-answer p =
      guard-tested (λ x. head.is_match_path (lib.resource p) (head.path x)) s neutral true
        (head.is_match_path (lib.resource p) (head.path s)) refl refl

  reduce_paths-answer :
      (ps : List String) (a : Bool) (acc : Predicate S)
      → acc s ≡ answer s a
      → reduce_paths lib head h classes acc ps s
        ≡ answer s (a || any (λ p. head.is_match_path (lib.resource p) (head.path s)) ps)
  unfolding reduce_paths
  reduce_paths-answer [] a acc e = e ∙ ap (answer s) (Meaning.or_false a)
  reduce_paths-answer (p ∷ ps) a acc e =
      let t = head.is_match_path (lib.resource p) (head.path s) in
      reduce_paths-answer ps (t || a)
        (or_ (path_predicate head h classes (lib.resource p) neutral) acc)
        (or_answer (path_predicate head h classes (lib.resource p) neutral) acc s t a
          (path-answer p) e)
      ∙ ap (answer s)
          (or_swap t a (any (λ p'. head.is_match_path (lib.resource p') (head.path s)) ps))

  pub path_into_predicates-Gives :
      (op : PathOperation) (b : Bool) (inner : Predicate S)
      → inner s ≡ answer s b
      → Gives
          (λ q. q s ≡ answer s (path_holds op b))
          (path_into_predicates lib head h classes op inner)
  unfolding path_into_predicates path_holds path_predicate
  path_into_predicates-Gives (pattern_ p) b inner e =
      guard-tested (λ x. head.is_match_path (lib.resource p) (head.path x)) s inner b
        (head.is_match_path (lib.resource p) (head.path s)) e refl
  path_into_predicates-Gives (PathOperation.in_ []) b inner e = tt
  path_into_predicates-Gives (PathOperation.in_ (p ∷ ps)) b inner e =
      reduce_paths-answer ps (head.is_match_path (lib.resource p) (head.path s))
        (path_predicate head h classes (lib.resource p) neutral) (path-answer p)
