-- ===== src/Http/Operation/Laws.antt =====
-- The operations on a body, hitbox-http/src/predicates/body/{operation,jq,predicate}.rs.
use hitbox.Prelude.{
  ℕ, ◌+◌, ◌≤◌, ◌<◌, ◌%◌, ◌^◌, true, false, Bool-cases, Option, none, some, length, length-append,
  ◌≡◌, refl, sym, ◌↔◌, inl, inr, arith,
}
use mathlib.Core.Path.{subst}
use hitbox.Http.Body.{Bytes, HttpBody, BufferedBody, size_hint, u64_max}
use hitbox.Http.Body.Content.{remaining_content, content}
use hitbox.Http.Body.Collect.{
  CollectExactResult, at_least, incomplete, into_buffered_body, collect_exact,
}
use hitbox.Http.Body.Laws.{Sized, collect_exact-content, collect_exact-Sized}
use hitbox.Http.Plain.Laws.{is_cacheable, subject}
use hitbox.Http.Operation.{over, limit_result, check_limit}

module _ {E : Type 0} where
  -- A body that ends without an error and has at most so many bytes.
  abbrev pub Within : ℕ → Bytes × Option E → Type 0
  Within bytes c = (c.1 ≡ none) × (length c.0 ≤ bytes)

  limit_result-content :
      (r : CollectExactResult E) → subject (limit_result r) ≡ into_buffered_body r
  unfolding limit_result
  limit_result-content (at_least buffered remaining) = refl
  limit_result-content (incomplete buffered none) = refl
  limit_result-content (incomplete buffered (some e)) = refl

  limit_result-Within :
      (bytes : ℕ) (r : CollectExactResult E)
      → Sized (bytes + 1) r
      → is_cacheable (limit_result r) ≡ true ↔ Within bytes (content (into_buffered_body r))
  unfolding limit_result into_buffered_body
  limit_result-Within bytes (at_least buffered none) h =
      (λ e. absurd (ground (arith, e)), λ w. absurd (ground (arith, h, w.1)))
  limit_result-Within bytes (at_least buffered (some rem)) h = (
    λ e. absurd (ground (arith, e)),
    λ w. absurd (omega (arith, h, w.1, length-append buffered (remaining_content rem).0)),
  )
  limit_result-Within bytes (incomplete none none) h = (λ e. (refl, omega arith), λ w. refl)
  limit_result-Within bytes (incomplete (some d) none) h =
      (λ e. (refl, omega (arith, h)), λ w. refl)
  limit_result-Within bytes (incomplete buffered (some e)) h =
      (λ e. absurd (ground (arith, e)), λ w. absurd (ground (arith, w.0)))

  collected-Within :
      (bytes : ℕ) (b : BufferedBody E)
      → bytes < u64_max
      → is_cacheable (limit_result (collect_exact b ((bytes + 1) % 2 ^ 64))) ≡ true
        ↔ Within bytes (content b)
  collected-Within bytes b small =
      let n : (bytes + 1) % 2 ^ 64 ≡ bytes + 1 = omega (arith, small) in
      subst (λ m. is_cacheable (limit_result (collect_exact b m)) ≡ true ↔ Within bytes (content b))
        (sym n)
        (subst
          (λ c. is_cacheable (limit_result (collect_exact b (bytes + 1))) ≡ true ↔ Within bytes c)
          (collect_exact-content b (bytes + 1))
          (limit_result-Within bytes (collect_exact b (bytes + 1))
            (collect_exact-Sized b (bytes + 1) (omega arith))))

module _ {E : Type 0} (http : HttpBody E) (bytes : ℕ) (b : BufferedBody E) where
  -- The limit on a body's size, below the largest usize: whatever the size hints say, a body that it
  -- finds cacheable ends without an error and has no more bytes than the limit.
  pub check_limit-Within :
      bytes < u64_max → is_cacheable (check_limit http bytes b) ≡ true → Within bytes (content b)
  unfolding check_limit
  check_limit-Within small h = elim (Bool-cases (over bytes (size_hint http b).upper)) [
    | inl e ↦ absurd (ground (arith, h, e))
    | inr e ↦ (collected-Within bytes b small).0 (ground (arith, h, e))
  ]

  -- Where the body's size hint has no upper bound above the limit, the limit finds every body
  -- cacheable that ends without an error and has no more bytes than it.
  pub check_limit-accepts :
      bytes < u64_max
      → over bytes (size_hint http b).upper ≡ false
      → Within bytes (content b)
      → is_cacheable (check_limit http bytes b) ≡ true
  unfolding check_limit
  check_limit-accepts small e w = ground (arith, e, (collected-Within bytes b small).1 w)

  -- The limit hands on a body of the same content, on each of its branches.
  pub check_limit-content : content (subject (check_limit http bytes b)) ≡ content b
  unfolding check_limit
  check_limit-content = ground (
    arith,
    limit_result-content (collect_exact b ((bytes + 1) % 2 ^ 64)),
    collect_exact-content b ((bytes + 1) % 2 ^ 64),
  )
