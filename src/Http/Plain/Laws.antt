-- ===== src/Http/Plain/Laws.antt =====
-- The operations of hitbox-http/src/predicates/body/plain.rs against what they match.
use hitbox.Prelude.{
  ℕ, zero, suc, ◌-◌, ◌≤◌, ◌<◌, Bool, true, false, Option, none, some, [], ◌∷◌, ◌++◌, length, take,
  drop, length-append, ◌≡◌, refl, sym, ap, ◌∙◌, ◌↔◌, arith,
}
use mathlib.Core.Path.{subst}
use mathlib.Core.List.{append-nil}
use hitbox.Core.Response.{Result, ok}
use hitbox.Core.Predicate.{PredicateResult, cacheable, non_cacheable}
use hitbox.Http.Body.{Bytes, Stream, HttpBody, BufferedBody, complete}
use hitbox.Http.Body.Content.{stream_content, remaining_content, content}
use hitbox.Http.Body.Collect.{
  CollectExactResult, at_least, incomplete, into_buffered_body, collect_exact, collect,
}
use hitbox.Http.Body.Laws.{Sized, collect_exact-content, collect_exact-Sized}
use hitbox.Http.Body.Whole.{outcome, KeepsContent, collect-KeepsContent}
use hitbox.Http.Plain.{
  same, starts_with, ends_with, streaming_search, PlainOperation, eq, contains_, starts, ends,
  reg_exp, answer, on_bytes, starts_result, check_starts, check_plain,
}
use hitbox.Http.Plain.Search.{Infix, same-eq, same_refl, take-append, take-drop}
use hitbox.Http.Plain.Streams.{Searched, streaming_search-Searched}

abbrev pub is_cacheable : {S : Type 0} → PredicateResult S → Bool
is_cacheable (cacheable s) = true
is_cacheable (non_cacheable s) = false

abbrev pub subject : {S : Type 0} → PredicateResult S → S
subject (cacheable s) = s
subject (non_cacheable s) = s

abbrev pub StartsWith : Bytes → Bytes → Type 0
StartsWith prefix bytes = (rest : Bytes) × (bytes ≡ prefix ++ rest)

abbrev pub EndsWith : Bytes → Bytes → Type 0
EndsWith suffix bytes = (front : Bytes) × (bytes ≡ front ++ suffix)

starts_with_iff : (p bs : Bytes) → starts_with p bs ≡ true ↔ StartsWith p bs
starts_with_iff p bs = (
  λ h. (
    drop (length p) bs,
    sym (take-drop (length p) bs)
        ∙ ap (λ f. f ++ drop (length p) bs) (same-eq (take (length p) bs) p (ground (arith, h))),
  ),
  λ (rest, e).
      ap (starts_with p) e ∙ ground (arith, length-append p rest, take-append p rest, same_refl p),
)

drop-append : (f s : Bytes) → drop (length f) (f ++ s) ≡ s
drop-append [] s = refl
drop-append (x ∷ f) s = drop-append f s

ends_with-append : (f s : Bytes) → ends_with s (f ++ s) ≡ true
ends_with-append f s =
    let n : length (f ++ s) - length s ≡ length f = omega (arith, length-append f s) in
    ground (arith, length-append f s, drop-append f s, same_refl s, n)

ends_with_iff : (s bs : Bytes) → ends_with s bs ≡ true ↔ EndsWith s bs
ends_with_iff s bs =
    let n = length bs - length s in
    (
      λ h. (
        take n bs,
        sym (take-drop n bs) ∙ ap (λ f. take n bs ++ f) (same-eq (drop n bs) s (ground (arith, h))),
      ),
      λ (front, e). ap (ends_with s) e ∙ ends_with-append front s,
    )

take-longer : (n : ℕ) (a r : Bytes) → n ≤ length a → take n (a ++ r) ≡ take n a
take-longer zero a r h = refl
take-longer (suc n) [] r h = absurd (omega (arith, h))
take-longer (suc n) (x ∷ a) r h = ap (λ zs. x ∷ zs) (take-longer n a r (omega (arith, h)))

starts_with-longer :
    (p a r : Bytes) → length p ≤ length a → starts_with p (a ++ r) ≡ starts_with p a
starts_with-longer p a r h = ground (arith, h, take-longer (length p) a r h, length-append a r)

starts_with-short : (p a : Bytes) → length a < length p → starts_with p a ≡ false
starts_with-short p a h = ground (arith, h)

module _ {E : Type 0} where
  starts_result-content :
      (p : Bytes) (r : CollectExactResult E)
      → Sized (length p) r
      → starts_result p r ≡ starts_with p (content (into_buffered_body r)).0
  unfolding into_buffered_body
  starts_result-content p (at_least buffered none) sized = refl
  starts_result-content p (at_least buffered (some rem)) sized =
      sym (starts_with-longer p buffered (remaining_content rem).0 sized)
  starts_result-content p (incomplete none none) sized = sym (starts_with-short p [] sized)
  starts_result-content p (incomplete (some b) none) sized = sym (starts_with-short p b sized)
  starts_result-content p (incomplete none (some e)) sized = sym (starts_with-short p [] sized)
  starts_result-content p (incomplete (some b) (some e)) sized =
      sym (ap (starts_with p) (append-nil b) ∙ starts_with-short p b sized)

  answer-cacheable : (m : Bool) (b : BufferedBody E) → is_cacheable (answer m b) ≡ m
  answer-cacheable true b = refl
  answer-cacheable false b = refl

  pub answer-subject : (m : Bool) (b : BufferedBody E) → subject (answer m b) ≡ b
  answer-subject true b = refl
  answer-subject false b = refl

  check_starts-test :
      (p : Bytes) (b : BufferedBody E)
      → is_cacheable (check_starts p b) ≡ starts_with p (content b).0
  unfolding check_starts
  check_starts-test [] b = ground arith
  check_starts-test (x ∷ p) b =
      let r = collect_exact b (length (x ∷ p)) in
      answer-cacheable (starts_result (x ∷ p) r) (into_buffered_body r)
      ∙ starts_result-content (x ∷ p) r (collect_exact-Sized b (length (x ∷ p)) (omega arith))
      ∙ ap (λ c. starts_with (x ∷ p) c.0) (collect_exact-content b (length (x ∷ p)))

  check_starts-content :
      (p : Bytes) (b : BufferedBody E) → content (subject (check_starts p b)) ≡ content b
  unfolding check_starts
  check_starts-content [] b = refl
  check_starts-content (x ∷ p) b =
      let r = collect_exact b (length (x ∷ p)) in
      ap content (answer-subject (starts_result (x ∷ p) r) (into_buffered_body r))
      ∙ collect_exact-content b (length (x ∷ p))

  -- The test for a prefix, which reads no more than it needs, is cacheable just if the bytes of the
  -- body start with the prefix, also where an error comes later; and it hands on a body of the same
  -- content.
  pub check_starts-StartsWith :
      (p : Bytes) (b : BufferedBody E)
      → (is_cacheable (check_starts p b) ≡ true ↔ StartsWith p (content b).0)
        × (content (subject (check_starts p b)) ≡ content b)
  check_starts-StartsWith p b = (
    subst (λ found. found ≡ true ↔ StartsWith p (content b).0) (sym (check_starts-test p b))
        (starts_with_iff p (content b).0),
    check_starts-content p b,
  )

  Searched-Infix :
      (p : Bytes) (c : Bytes × Option E) (r : Bool × BufferedBody E)
      → Searched p c r
      → is_cacheable (answer r.0 r.1) ≡ true ↔ Infix p c.0
  Searched-Infix p c (true, b) h = (λ u. h.0, λ u. refl)
  Searched-Infix p c (false, b) h = (λ e. absurd (ground (arith, e)), λ i. absurd (h.0 i))

module _ {Regex : Type 0} (is_match : Regex → Bytes → Bool) where
  -- What each operation asks of the bytes of a body.
  abbrev pub Matches : PlainOperation Regex → Bytes → Type 0
  Matches (eq expected) bytes = bytes ≡ expected
  Matches (contains_ sequence) bytes = Infix sequence bytes
  Matches (starts prefix) bytes = StartsWith prefix bytes
  Matches (ends suffix) bytes = EndsWith suffix bytes
  Matches (reg_exp regex) bytes = is_match regex bytes ≡ true

module _ {E Regex : Type 0} (http : HttpBody E) (is_match : Regex → Bytes → Bool)
    (collects : (s : Stream E) → http.collect s ≡ outcome (stream_content s)) where
  on_bytes_iff :
      (test : Bytes → Bool) (P : Type 0) (bytes : Bytes) (r : Result (BufferedBody E) Bytes)
      → r ≡ ok bytes
      → (test bytes ≡ true ↔ P)
      → is_cacheable (on_bytes test r) ≡ true ↔ P
  unfolding on_bytes
  on_bytes_iff test P bytes r read h =
      subst (λ x. is_cacheable (on_bytes test x) ≡ true ↔ P) (sym read)
        (subst (λ x. x ≡ true ↔ P) (sym (answer-cacheable (test bytes) (complete (some bytes)))) h)

  read-bytes :
      (b : BufferedBody E) (bytes : Bytes) → collect http b ≡ ok bytes → (content b).0 ≡ bytes
  read-bytes b bytes read =
      ap (λ c. c.0) (subst (KeepsContent (content b)) read (collect-KeepsContent http collects b))

  -- Of a body whose collecting gives its bytes, each operation of the plain predicates is cacheable
  -- just if the bytes match: they are the expected ones, have the sequence somewhere, start with the
  -- prefix, end with the suffix, or are matched by the regular expression.
  pub check_plain-Matches :
      (op : PlainOperation Regex) (b : BufferedBody E) (bytes : Bytes)
      → collect http b ≡ ok bytes
      → is_cacheable (check_plain http is_match op b) ≡ true ↔ Matches is_match op bytes
  unfolding check_plain
  check_plain-Matches (eq expected) b bytes read =
      on_bytes_iff (λ x. same x expected) (bytes ≡ expected) bytes (collect http b) read
        (same-eq bytes expected, λ e. ap (λ x. same x expected) e ∙ same_refl expected)
  check_plain-Matches (contains_ sequence) b bytes read =
      subst
        (λ c.
          is_cacheable (check_plain http is_match (contains_ sequence) b) ≡ true ↔ Infix sequence c)
        (read-bytes b bytes read)
        (Searched-Infix sequence (content b) (streaming_search b sequence)
          (streaming_search-Searched b sequence))
  check_plain-Matches (starts prefix) b bytes read =
      subst (λ c. is_cacheable (check_starts prefix b) ≡ true ↔ StartsWith prefix c)
        (read-bytes b bytes read) (check_starts-StartsWith prefix b).0
  check_plain-Matches (ends suffix) b bytes read =
      on_bytes_iff (ends_with suffix) (EndsWith suffix bytes) bytes (collect http b) read
        (ends_with_iff suffix bytes)
  check_plain-Matches (reg_exp regex) b bytes read =
      on_bytes_iff (is_match regex) (is_match regex bytes ≡ true) bytes (collect http b) read
        (λ h. h, λ h. h)
