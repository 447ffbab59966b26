-- ===== src/Http/Operation/Transparency.antt =====
-- What the predicates on bodies hand on, hitbox-http/src/predicates/body/{operation,predicate}.rs.
use hitbox.Prelude.{Bool, true, false, ◌&&◌, Option, none, some, [], ◌++◌, ◌≡◌, refl, sym, ap, ◌∙◌}
use mathlib.Core.Path.{subst}
use mathlib.Core.List.{append_assoc, append-nil}
use hitbox.Core.Response.{Result, ok, err}
use hitbox.Core.Predicate.{PredicateResult, cacheable, non_cacheable, Predicate}
use hitbox.Http.Body.{Bytes, Stream, HttpBody, BufferedBody, complete}
use hitbox.Http.Body.Content.{stream_content, content}
use hitbox.Http.Body.Collect.{collect}
use hitbox.Http.Body.Whole.{outcome, KeepsContent, collect-KeepsContent}
use hitbox.Http.Plain.{
  same, ends_with, streaming_search, PlainOperation, eq, contains_, starts, ends, reg_exp, answer,
  on_bytes, check_starts, check_plain,
}
use hitbox.Http.Plain.Streams.{Searched, streaming_search-Searched}
use hitbox.Http.Plain.Laws.{is_cacheable, subject, check_starts-StartsWith}
use hitbox.Http.Operation.Laws.{check_limit-content}
use hitbox.Http.Operation.{
  Jaq, JqOperation, Operation, limit, plain, jq, jq_matches, apply, jq_json, jq_bytes, after_inner,
  rebuild, check_limit, check, body_predicate,
}

module _ {E : Type 0} where
  -- `b` has the first bytes of `c`, or all.
  abbrev pub Shortens : Bytes × Option E → BufferedBody E → Type 0
  Shortens c b = (lost : Bytes) × (c.0 ≡ (content b).0 ++ lost)

  pub same-Shortens : (c : Bytes × Option E) (b : BufferedBody E) → content b ≡ c → Shortens c b
  same-Shortens c b h = ([], sym (ap (λ x. x.0) h) ∙ sym (append-nil (content b).0))

  answer-Shortens :
      (c : Bytes × Option E) (m : Bool) (b : BufferedBody E)
      → Shortens c b
      → Shortens c (subject (answer m b))
  answer-Shortens c true b h = h
  answer-Shortens c false b h = h

  on_bytes-Shortens :
      (test : Bytes → Bool) (c : Bytes × Option E) (r : Result (BufferedBody E) Bytes)
      → KeepsContent c r
      → Shortens c (subject (on_bytes test r))
  unfolding on_bytes
  on_bytes-Shortens test c (ok bytes) h =
      answer-Shortens c (test bytes) (complete (some bytes))
        (same-Shortens c (complete (some bytes)) (sym h))
  on_bytes-Shortens test c (err b) h = h.1

  search-Shortens :
      (p : Bytes) (c : Bytes × Option E) (r : Bool × BufferedBody E)
      → Searched p c r
      → Shortens c (subject (answer r.0 r.1))
  search-Shortens p c (true, b) h = h.1
  search-Shortens p c (false, b) h = same-Shortens c b h.1

  module _ {Json Filter : Type 0} (jaq : Jaq Json Filter) (op : JqOperation Json) (filter : Filter)
      (c : Bytes × Option E) where
    jq_json-Shortens :
        (bytes : Bytes) (json : Option Json)
        → Shortens c (complete (some bytes))
        → Shortens c (subject (jq_json jaq op filter bytes json))
    unfolding jq_json
    jq_json-Shortens bytes none h = h
    jq_json-Shortens bytes (some json) h =
        answer-Shortens c (jq_matches jaq op (apply jaq filter json)) (complete (some bytes)) h

    jq_bytes-Shortens :
        (r : Result (BufferedBody E) Bytes)
        → KeepsContent c r
        → Shortens c (subject (jq_bytes jaq op filter r))
    unfolding jq_bytes
    jq_bytes-Shortens (ok bytes) h =
        jq_json-Shortens bytes (jaq.from_slice bytes)
          (same-Shortens c (complete (some bytes)) (sym h))
    jq_bytes-Shortens (err b) h = h.1

module _ {E : Type 0} where
  pub Shortens-trans :
      (c : Bytes × Option E) (b b' : BufferedBody E)
      → Shortens c b
      → Shortens (content b) b'
      → Shortens c b'
  Shortens-trans c b b' (lost, e) (lost', e') =
      (lost' ++ lost, e ∙ ap (λ x. x ++ lost) e' ∙ append_assoc (content b').0 lost' lost)

  rebuild-both :
      {Parts : Type 0} (was : Bool) (parts : Parts) (r : PredicateResult (BufferedBody E))
      → (is_cacheable (rebuild was parts r) ≡ was && is_cacheable r)
        × (subject (rebuild was parts r) ≡ (parts, subject r))
  rebuild-both true parts (cacheable b) = (refl, refl)
  rebuild-both false parts (cacheable b) = (refl, refl)
  rebuild-both true parts (non_cacheable b) = (refl, refl)
  rebuild-both false parts (non_cacheable b) = (refl, refl)

-- An answer whose subject has the parts of `s`, and a body of the first bytes of that of `s`, or all.
abbrev pub Forwards :
    {E Parts : Type 0} → Parts × BufferedBody E → PredicateResult (Parts × BufferedBody E) → Type 0
Forwards s r = ((subject r).0 ≡ s.0) × Shortens (content s.1) (subject r).1

module _ {E Json Filter Regex : Type 0} (http : HttpBody E) (jaq : Jaq Json Filter)
    (is_match : Regex → Bytes → Bool)
    (collects : (s : Stream E) → http.collect s ≡ outcome (stream_content s)) where
  plain-Shortens :
      (op : PlainOperation Regex) (b : BufferedBody E)
      → Shortens (content b) (subject (check_plain http is_match op b))
  unfolding check_plain
  plain-Shortens (eq expected) b =
      on_bytes-Shortens (λ bytes. same bytes expected) (content b) (collect http b)
        (collect-KeepsContent http collects b)
  plain-Shortens (contains_ sequence) b =
      search-Shortens sequence (content b) (streaming_search b sequence)
        (streaming_search-Searched b sequence)
  plain-Shortens (starts prefix) b =
      same-Shortens (content b) (subject (check_starts prefix b))
        (check_starts-StartsWith prefix b).1
  plain-Shortens (ends suffix) b =
      on_bytes-Shortens (ends_with suffix) (content b) (collect http b)
        (collect-KeepsContent http collects b)
  plain-Shortens (reg_exp regex) b =
      on_bytes-Shortens (is_match regex) (content b) (collect http b)
        (collect-KeepsContent http collects b)

  check-Shortens :
      (op : Operation Json Filter Regex) (b : BufferedBody E)
      → Shortens (content b) (subject (check http jaq is_match op b))
  unfolding check
  check-Shortens (limit bytes) b =
      same-Shortens (content b) (subject (check_limit http bytes b))
        (check_limit-content http bytes b)
  check-Shortens (plain op) b = plain-Shortens op b
  check-Shortens (jq filter op) b =
      jq_bytes-Shortens jaq op filter (content b) (collect http b)
        (collect-KeepsContent http collects b)

  module _ {Parts : Type 0} where
    -- The answer of `Body` to what its inner predicate gave.
    after_inner-both :
        (op : Operation Json Filter Regex) (r : PredicateResult (Parts × BufferedBody E))
        → (is_cacheable (after_inner http jaq is_match op r)
            ≡ is_cacheable r && is_cacheable (check http jaq is_match op (subject r).1))
          × (subject (after_inner http jaq is_match op r)
              ≡ ((subject r).0, subject (check http jaq is_match op (subject r).1)))
    unfolding after_inner
    after_inner-both op (cacheable (parts, b)) =
        rebuild-both true parts (check http jaq is_match op b)
    after_inner-both op (non_cacheable (parts, b)) =
        rebuild-both false parts (check http jaq is_match op b)

    -- A body operation behind a predicate is cacheable just if the predicate is and the operation is
    -- on the body that the predicate hands on. The operation runs in both cases.
    pub body_predicate-and :
        (op : Operation Json Filter Regex) (inner : Predicate (Parts × BufferedBody E))
        (s : Parts × BufferedBody E)
        → is_cacheable (body_predicate http jaq is_match op inner s)
          ≡ is_cacheable (inner s)
            && is_cacheable (check http jaq is_match op (subject (inner s)).1)
    unfolding body_predicate
    body_predicate-and op inner s = (after_inner-both op (inner s)).0

    -- A body operation behind a predicate adds no byte, moves none and keeps the parts of its
    -- subject, cacheable or not, where the inner predicate does so on this subject: what is forwarded
    -- has the first bytes of what came in, or all. Filters, expressions and operations may be any;
    -- the library's collecting is taken to give a stream's bytes or its first error.
    pub body_predicate-Forwards :
        (op : Operation Json Filter Regex) (inner : Predicate (Parts × BufferedBody E))
        (s : Parts × BufferedBody E)
        → Forwards s (inner s)
        → Forwards s (body_predicate http jaq is_match op inner s)
    unfolding body_predicate
    body_predicate-Forwards op inner s clear =
        subst (λ out. (out.0 ≡ s.0) × Shortens (content s.1) out.1)
          (sym (after_inner-both op (inner s)).1)
          (
            clear.0,
            Shortens-trans (content s.1) (subject (inner s)).1
                (subject (check http jaq is_match op (subject (inner s)).1)) clear.1
                (check-Shortens op (subject (inner s)).1),
          )
