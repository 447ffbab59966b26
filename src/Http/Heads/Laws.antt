-- ===== src/Http/Heads/Laws.antt =====
-- The predicates on heads, hitbox-http/src/predicates/{header,request,response,version}.
use hitbox.Prelude.{Bool, true, ◌&&◌, Option, none, some, List, [], ◌∷◌, ◌≡◌, refl, ap, ◌∙◌, arith}
use hitbox.Core.Predicate.{PredicateResult, cacheable, non_cacheable, Predicate}
use hitbox.Http.Plain.Laws.{is_cacheable, subject}
use hitbox.Http.Heads.{
  Headers, HeaderOperation, contains, regex, any, is_some, or_false, check_header, OneOf, is_one_of,
  QueryOperation, query_matches, parsed, StatusClasses, StatusOperation, status_matches, guard,
  Head, header_predicate, method_predicate, path_predicate, query_predicate, status_predicate,
  version_predicate,
}

module _ {S : Type 0} where
  guard-lem :
      (test : S → Bool) (r : PredicateResult S)
      → (is_cacheable (guard test r) ≡ is_cacheable r && test (subject r))
        × (subject (guard test r) ≡ subject r)
  unfolding guard
  guard-lem test (cacheable s) = ground arith
  guard-lem test (non_cacheable s) = (refl, refl)

-- One step of the description of a predicate on a head.
pub data HeadOperation (Method Resource Version Name Value Regex : Type 0) : Type 0 where
  header : HeaderOperation Name Value Regex → HeadOperation Method Resource Version Name Value Regex
  method : OneOf Method → HeadOperation Method Resource Version Name Value Regex
  path : Resource → HeadOperation Method Resource Version Name Value Regex
  query : QueryOperation → HeadOperation Method Resource Version Name Value Regex
  status : StatusOperation → HeadOperation Method Resource Version Name Value Regex
  version : OneOf Version → HeadOperation Method Resource Version Name Value Regex

module _ {S Method Resource Version Map Name Value Regex : Type 0}
    (head : Head S Method Resource Version Map) (h : Headers Map Name Value Regex)
    (classes : StatusClasses) where
  -- What a chain `predicate.header(...).method(...)` builds around an inner predicate.
  abbrev pub add :
      HeadOperation Method Resource Version Name Value Regex → Predicate S → Predicate S
  add (header op) = header_predicate head h classes op
  add (method op) = method_predicate head h classes op
  add (path resource) = path_predicate head h classes resource
  add (query op) = query_predicate head h classes op
  add (status op) = status_predicate head h classes op
  add (version op) = version_predicate head h classes op

  abbrev pub chain_of :
      List (HeadOperation Method Resource Version Name Value Regex) → Predicate S → Predicate S
  chain_of [] inner = inner
  chain_of (op ∷ ops) inner = chain_of ops (add op inner)

  -- The test of an operation alone.
  abbrev pub test : HeadOperation Method Resource Version Name Value Regex → S → Bool
  test (header op) s = check_header h op (head.headers s)
  test (method op) s = is_one_of head.same_method op (head.method s)
  test (path resource) s = head.is_match_path resource (head.path s)
  test (query op) s = or_false (query_matches op) (parsed head.parse_query (head.query s))
  test (status op) s = status_matches classes op (head.status s)
  test (version op) s = is_one_of head.same_version op (head.version s)

  abbrev pub all_tests : List (HeadOperation Method Resource Version Name Value Regex) → S → Bool
  all_tests [] s = true
  all_tests (op ∷ ops) s = test op s && all_tests ops s

  add-lem :
      (op : HeadOperation Method Resource Version Name Value Regex) (inner : Predicate S) (s : S)
      → (is_cacheable (add op inner s) ≡ is_cacheable (inner s) && test op (subject (inner s)))
        × (subject (add op inner s) ≡ subject (inner s))
  unfolding header_predicate method_predicate path_predicate query_predicate status_predicate
      version_predicate
  add-lem (header op) inner s = guard-lem (test (header op)) (inner s)
  add-lem (method op) inner s = guard-lem (test (method op)) (inner s)
  add-lem (path op) inner s = guard-lem (test (path op)) (inner s)
  add-lem (query op) inner s = guard-lem (test (query op)) (inner s)
  add-lem (status op) inner s = guard-lem (test (status op)) (inner s)
  add-lem (version op) inner s = guard-lem (test (version op)) (inner s)

  -- A chain of predicates on the head, of any operations in any number, is cacheable just if the
  -- predicate it begins with is and every operation's test passes; and the subject is the one that
  -- that predicate handed on, as it was. So the order of the operations does not matter.
  pub chain_of-all_tests :
      (ops : List (HeadOperation Method Resource Version Name Value Regex)) (inner : Predicate S)
      (s : S)
      → (is_cacheable (chain_of ops inner s)
          ≡ is_cacheable (inner s) && all_tests ops (subject (inner s)))
        × (subject (chain_of ops inner s) ≡ subject (inner s))
  chain_of-all_tests [] inner s = ground arith
  chain_of-all_tests (op ∷ ops) inner s =
      ground (arith, add-lem op inner s, chain_of-all_tests ops (add op inner) s)

module _ {Map Name Value Regex : Type 0} (h : Headers Map Name Value Regex) where
  -- The first header of a name is the first of all.
  abbrev pub first : {A : Type 0} → List A → Option A
  first [] = none
  first (x ∷ xs) = some x

  any-exists :
      {A : Type 0} (t : A → Bool) (xs : List A) → any t xs ≡ true → is_some (first xs) ≡ true
  any-exists t [] e = e
  any-exists t (x ∷ xs) e = refl

  -- The name that an operation reads.
  abbrev pub name_of : HeaderOperation Name Value Regex → Name
  name_of (HeaderOperation.eq name value) = name
  name_of (HeaderOperation.exist name) = name
  name_of (HeaderOperation.in_ name values) = name
  name_of (contains name substring) = name
  name_of (regex name expression) = name

  -- Whatever operation finds a header, the operation that asks whether the header is there finds it,
  -- where the map's first header of a name is the first of all its headers of that name.
  pub check_header-exist :
      (op : HeaderOperation Name Value Regex) (m : Map)
      → ((name : Name) → h.get m name ≡ first (h.get_all m name))
      → check_header h op m ≡ true
      → check_header h (HeaderOperation.exist (name_of op)) m ≡ true
  unfolding check_header
  check_header-exist (HeaderOperation.eq name value) m firsts e =
      ap is_some (firsts name) ∙ any-exists (λ v. h.same_header value v) (h.get_all m name) e
  check_header-exist (HeaderOperation.exist name) m firsts e = e
  check_header-exist (HeaderOperation.in_ name values) m firsts e =
      ap is_some (firsts name)
      ∙ any-exists (λ v. any (λ w. h.same_header w v) values) (h.get_all m name) e
  check_header-exist (contains name substring) m firsts e =
      ap is_some (firsts name)
      ∙ any-exists (λ v. or_false (λ s. h.has_text s substring) (h.to_str v)) (h.get_all m name) e
  check_header-exist (regex name expression) m firsts e =
      ap is_some (firsts name)
      ∙ any-exists (λ v. or_false (λ s. h.is_match expression s) (h.to_str v)) (h.get_all m name) e
