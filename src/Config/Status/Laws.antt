-- ===== src/Config/Status/Laws.antt =====
-- What a configured test of a status accepts,
-- hitbox-configuration/src/predicates/response/status.rs.
use hitbox.Prelude.{
  ℕ, ◌≤◌, Bool, ◌&&◌, Option, none, some, List, [], ◌∷◌, leb, ◌≡◌, refl, ap, ◌∙◌, arith,
}
use hitbox.Core.Predicate.{Predicate}
use hitbox.Core.Response.{ok}
use hitbox.Http.Heads.{
  StatusOperation, StatusClasses, Headers, Head, any, same_status, class_matches, status_matches,
  status_predicate,
}
use hitbox.Config.Answer.{bind, answer}
use hitbox.Config.Error.{ConfigError, invalid_status_code, or_error}
use hitbox.Config.Gives.{Gives, bind-Gives, guard-tested}
use hitbox.Config.Status.{
  form_value, Range, read_range, Operation, range_of, class_of, eq_of, in_of, parse_status_code,
  parse_status_codes, into_operation, status_into_predicates,
}

-- The test, from the numbers of the configuration.
abbrev pub status_accepts : StatusClasses → Operation → ℕ → Bool
status_accepts classes (eq_of e) status = same_status status (form_value e)
status_accepts classes (in_of i) status = any (λ c. same_status c status) (form_value i)
status_accepts classes (range_of r) status = leb r.start status && leb status r.end_
status_accepts classes (class_of c) status = class_matches classes (form_value c) status

-- A range that was read is not empty.
read_range-ok : (start end_ : ℕ) (r : Range) → read_range start end_ ≡ ok r → r.start ≤ r.end_
unfolding read_range
read_range-ok start end_ r h = ground (arith, h)

module _ (from_u16 : ℕ → Option ℕ)
    (same : (code status : ℕ) → from_u16 code ≡ some status → status ≡ code) where
  or_error-Gives :
      (code : ℕ) (e : ConfigError) (o : Option ℕ)
      → from_u16 code ≡ o
      → Gives (λ n. n ≡ code) (or_error e o)
  or_error-Gives code e none h = tt
  or_error-Gives code e (some n) h = same code n h

  parse_status_code-Gives : (code : ℕ) → Gives (λ n. n ≡ code) (parse_status_code from_u16 code)
  unfolding parse_status_code
  parse_status_code-Gives code = or_error-Gives code (invalid_status_code code) (from_u16 code) refl

  parse_status_codes-Gives :
      (codes : List ℕ) → Gives (λ ns. ns ≡ codes) (parse_status_codes from_u16 codes)
  unfolding parse_status_codes
  parse_status_codes-Gives [] = refl
  parse_status_codes-Gives (c ∷ codes) =
      bind-Gives (λ n. n ≡ c) (λ ns. ns ≡ c ∷ codes) (parse_status_code from_u16 c)
        (λ n. bind (parse_status_codes from_u16 codes) (λ ns. ok (n ∷ ns)))
        (parse_status_code-Gives c)
        (λ n e.
          bind-Gives (λ ns. ns ≡ codes) (λ ns. ns ≡ c ∷ codes) (parse_status_codes from_u16 codes)
            (λ ns. ok (n ∷ ns)) (parse_status_codes-Gives codes) (λ ns e'. cc (e, e')))

  module _ (classes : StatusClasses) (status : ℕ) where
    Agrees : Operation → StatusOperation → Type 0
    unfolding status_matches
    Agrees op o = status_matches classes o status ≡ status_accepts classes op status

    into_operation-Gives : (op : Operation) → Gives (Agrees op) (into_operation from_u16 op)
    unfolding into_operation status_matches Agrees
    into_operation-Gives (eq_of e) =
        bind-Gives (λ n. n ≡ form_value e) (Agrees (eq_of e))
          (parse_status_code from_u16 (form_value e)) (λ n. ok (StatusOperation.eq n))
          (parse_status_code-Gives (form_value e)) (λ n h. ap (same_status status) h)
    into_operation-Gives (in_of i) =
        bind-Gives (λ ns. ns ≡ form_value i) (Agrees (in_of i))
          (parse_status_codes from_u16 (form_value i)) (λ ns. ok (StatusOperation.in_ ns))
          (parse_status_codes-Gives (form_value i)) (λ ns h. ap (any (λ c. same_status c status)) h)
    into_operation-Gives (range_of r) =
        bind-Gives (λ n. n ≡ r.start) (Agrees (range_of r)) (parse_status_code from_u16 r.start)
          (λ n. bind (parse_status_code from_u16 r.end_) (λ m. ok (StatusOperation.range n m)))
          (parse_status_code-Gives r.start)
          (λ n h.
            bind-Gives (λ m. m ≡ r.end_) (Agrees (range_of r)) (parse_status_code from_u16 r.end_)
              (λ m. ok (StatusOperation.range n m)) (parse_status_code-Gives r.end_)
              (λ m h'.
                ap (λ x. leb x status && leb status m) h
                ∙ ap (λ x. leb r.start status && leb status x) h'))
    into_operation-Gives (class_of c) = refl

  module _ {S Method Resource Version Map Name Value Regex : Type 0}
      (head : Head S Method Resource Version Map) (h : Headers Map Name Value Regex)
      (classes : StatusClasses) (s : S) where
    unfoldable pub status_holds : Operation → Bool → Bool
    status_holds op b = b && status_accepts classes op (head.status s)

    -- A configured test of a status that can be converted accepts what its numbers say: the predicate
    -- asks its inner one, and then compares the status of the subject with the configuration's.
    pub status_into_predicates-Gives :
        (op : Operation) (b : Bool) (inner : Predicate S)
        → inner s ≡ answer s b
        → Gives
            (λ q. q s ≡ answer s (status_holds op b))
            (status_into_predicates from_u16 head h classes op inner)
    unfolding status_into_predicates status_holds status_predicate Agrees
    status_into_predicates-Gives op b inner e =
        bind-Gives (Agrees classes (head.status s) op) (λ q. q s ≡ answer s (status_holds op b))
          (into_operation from_u16 op) (λ o. ok (status_predicate head h classes o inner))
          (into_operation-Gives classes (head.status s) op)
          (λ o agrees.
            guard-tested (λ x. status_matches classes o (head.status x)) s inner b
              (status_accepts classes op (head.status s)) e agrees)
