-- ===== src/Http/Body/Whole.antt =====
-- The size hints of hitbox-http/src/body.rs, and `collect`, which reads a body whole.
use hitbox.Prelude.{
  ℕ, ◌+◌, ◌≤◌, Bool, true, false, Option, none, some, [], ◌++◌, length, length-append, ◌≡◌, refl,
  sym, ap, ◌∙◌, arith,
}
use mathlib.Core.Path.{subst}
use mathlib.Core.List.{append-nil}
use hitbox.Core.Response.{Result, ok, err}
use hitbox.Http.Body.{
  Bytes, Stream, SizeHint, HttpBody, Remaining, body, error, BufferedBody, complete, partial,
  passthrough, prefix_len, hint_remaining, hint_partial, raise_upper, size_hint, u64_max,
  saturating_add,
}
use hitbox.Http.Body.Content.{prefix_bytes, stream_content, remaining_content, content}
use hitbox.Http.Body.Collect.{collect, collect_remaining, collected}

-- A hint that bounds `n` bytes.
abbrev pub Under : ℕ → Option ℕ → Type 0
Under n none = Unit
Under n (some u) = n ≤ u

abbrev pub Bounds : SizeHint → ℕ → Type 0
Bounds hint n = (hint.lower ≤ n) × Under n hint.upper

raise-Under :
    (upper : Option ℕ) (len lower n total : ℕ)
    → Under n upper
    → lower ≤ total
    → total ≡ len + n
    → total ≤ u64_max
    → Under total (raise_upper len lower upper)
raise-Under none len lower n total h low e small = ground arith
raise-Under (some u) len lower n total h low e small = ground (arith, h, low, e, small)

saturating_add_le :
    (lower len n total : ℕ)
    → lower ≤ n
    → total ≡ len + n
    → total ≤ u64_max
    → saturating_add lower len ≤ total
saturating_add_le lower len n total h e small = ground (arith, h, e, small)

prefix_append-len :
    (prefix : Option Bytes) (rest : Bytes)
    → length (prefix_bytes prefix ++ rest) ≡ prefix_len prefix + length rest
prefix_append-len none rest = omega arith
prefix_append-len (some d) rest = length-append d rest

module _ {E : Type 0} (http : HttpBody E)
    (bounded : (s : Stream E) → Bounds (http.size_hint s) (length (stream_content s).0)) where
  hint_remaining-Bounds :
      (prefix : Option Bytes) (remaining : Remaining E)
      → length (prefix_bytes prefix ++ (remaining_content remaining).0) ≤ u64_max
      → Bounds
          (hint_remaining http (prefix_len prefix) remaining)
          (length (prefix_bytes prefix ++ (remaining_content remaining).0))
  unfolding hint_remaining
  hint_remaining-Bounds prefix (body s) small =
      let n = length (stream_content s).0 in
      let total = length (prefix_bytes prefix ++ (stream_content s).0) in
      let e = prefix_append-len prefix (stream_content s).0 in
      let low =
        saturating_add_le (http.size_hint s).lower (prefix_len prefix) n total (bounded s).0 e
          small in
      (
        low,
        raise-Under (http.size_hint s).upper (prefix_len prefix)
            (saturating_add (http.size_hint s).lower (prefix_len prefix)) n total (bounded s).1 low
            e small,
      )
  hint_remaining-Bounds prefix (error e) small =
      let h = prefix_append-len prefix [] in (omega (arith, h), omega (arith, h))

  -- The size hint of a body bounds the bytes it has left from below and above, where the hints of
  -- the streams under it do and the bytes are no more than a u64 counts.
  pub size_hint-Bounds :
      (b : BufferedBody E)
      → length (content b).0 ≤ u64_max
      → Bounds (size_hint http b) (length (content b).0)
  unfolding size_hint hint_partial
  size_hint-Bounds (complete none) small = ground arith
  size_hint-Bounds (complete (some d)) small = ground arith
  size_hint-Bounds (partial p) small = hint_remaining-Bounds p.prefix p.remaining small
  size_hint-Bounds (passthrough s) small = bounded s

module _ {E : Type 0} where
  abbrev pub outcome : Bytes × Option E → Result E Bytes
  outcome (bytes, none) = ok bytes
  outcome (bytes, some e) = err e

  -- What `collect` may give for a body of some content: all of its bytes, or a body that has the
  -- same error left and a part of the bytes in front of it.
  abbrev pub KeepsContent : Bytes × Option E → Result (BufferedBody E) Bytes → Type 0
  KeepsContent c (ok bytes) = c ≡ (bytes, none)
  KeepsContent c (err b) = ((content b).1 ≡ c.1) × ((lost : Bytes) × (c.0 ≡ (content b).0 ++ lost))

  -- What a body was read of before.
  abbrev pub prefix_of : BufferedBody E → Option Bytes
  prefix_of (complete d) = d
  prefix_of (partial p) = p.prefix
  prefix_of (passthrough s) = none

  -- The error that ended the body has been handed out: `Remaining::Error(None)`.
  abbrev pub taken_error : Remaining E → Bool
  taken_error (error none) = true
  taken_error _ = false

  abbrev pub is_taken : BufferedBody E → Bool
  is_taken (partial p) = taken_error p.remaining
  is_taken _ = false

  -- A body of some content, without an error or with one that is left or taken, read whole.
  abbrev pub gathered : Option Bytes → Bool → Bytes × Option E → Result (BufferedBody E) Bytes
  gathered prefix false (bytes, none) = ok bytes
  gathered prefix taken (bytes, left) =
      err (partial (record { prefix = prefix; remaining = error left }))

module _ {E : Type 0} (http : HttpBody E)
    (collects : (s : Stream E) → http.collect s ≡ outcome (stream_content s)) where
  collected-KeepsContent :
      (prefix : Option Bytes) (c : Bytes × Option E)
      → KeepsContent (prefix_bytes prefix ++ c.0, c.1) (collected http prefix (outcome c))
  unfolding collected
  collected-KeepsContent none (bytes, none) = refl
  collected-KeepsContent (some d) (bytes, none) = refl
  collected-KeepsContent none (bytes, some e) = (refl, (bytes, refl))
  collected-KeepsContent (some d) (bytes, some e) =
      (refl, (bytes, ap (λ front. front ++ bytes) (sym (append-nil d))))

  collect_remaining-KeepsContent :
      (prefix : Option Bytes) (remaining : Remaining E)
      → KeepsContent
          (prefix_bytes prefix ++ (remaining_content remaining).0, (remaining_content remaining).1)
          (collect_remaining http prefix remaining)
  unfolding collect_remaining
  collect_remaining-KeepsContent prefix (body s) =
      subst
        (λ r.
          KeepsContent (content (partial (record { prefix = prefix; remaining = body s })))
            (collected http prefix r))
        (sym (collects s)) (collected-KeepsContent prefix (stream_content s))
  collect_remaining-KeepsContent prefix (error e) =
      (refl, ([], sym (append-nil (prefix_bytes prefix ++ []))))

  -- What `collect` gives keeps the content: all of the bytes, or a body with the same error left and
  -- a part of the bytes in front of it.
  pub collect-KeepsContent : (b : BufferedBody E) → KeepsContent (content b) (collect http b)
  unfolding collect
  collect-KeepsContent (complete none) = refl
  collect-KeepsContent (complete (some d)) = refl
  collect-KeepsContent (partial p) = collect_remaining-KeepsContent p.prefix p.remaining
  collect-KeepsContent (passthrough s) =
      subst (λ r. KeepsContent (stream_content s) (collected http none r)) (sym (collects s))
        (collected-KeepsContent none (stream_content s))

  collected-gathered :
      (prefix : Option Bytes) (c : Bytes × Option E)
      → collected http prefix (outcome c) ≡ gathered prefix false (prefix_bytes prefix ++ c.0, c.1)
  unfolding collected
  collected-gathered none (bytes, none) = refl
  collected-gathered (some d) (bytes, none) = refl
  collected-gathered none (bytes, some e) = refl
  collected-gathered (some d) (bytes, some e) = refl

  collect_remaining-gathered :
      (prefix : Option Bytes) (remaining : Remaining E)
      → collect_remaining http prefix remaining
        ≡ gathered prefix (taken_error remaining) (
          prefix_bytes prefix ++ (remaining_content remaining).0,
          (remaining_content remaining).1,
        )
  unfolding collect_remaining
  collect_remaining-gathered prefix (body s) =
      ap (collected http prefix) (collects s) ∙ collected-gathered prefix (stream_content s)
  collect_remaining-gathered prefix (error none) = refl
  collect_remaining-gathered prefix (error (some e)) = refl

  -- `collect` of a body gives all of its bytes, in order, just if the body has no error left and no
  -- error was taken from it before; else it gives the body back with the bytes that were buffered
  -- before, the others being lost, and with the error that is left, or none if it was taken. That
  -- holds where the library's collecting gives a stream's bytes or its first error.
  pub collect-gathered :
      (b : BufferedBody E) → collect http b ≡ gathered (prefix_of b) (is_taken b) (content b)
  unfolding collect
  collect-gathered (complete none) = refl
  collect-gathered (complete (some d)) = refl
  collect-gathered (partial p) = collect_remaining-gathered p.prefix p.remaining
  collect-gathered (passthrough s) =
      ap (collected http none) (collects s) ∙ collected-gathered none (stream_content s)
