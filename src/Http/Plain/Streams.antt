-- ===== src/Http/Plain/Streams.antt =====
-- The search through a body's stream, hitbox-http/src/predicates/body/plain.rs.
use hitbox.Prelude.{
  ℕ, ◌-◌, Bool, true, false, Bool-cases, Option, none, some, [], ◌∷◌, ◌++◌, if◌then◌else◌, length,
  drop, ◌≡◌, refl, sym, ap, ◌∙◌, inl, inr, arith,
}
use mathlib.Core.Path.{subst}
use mathlib.Core.List.{append_assoc, append-nil}
use hitbox.Http.Body.{
  Bytes, data_, trailers, Stream, ended, frame, failed, Remaining, body, error, BufferedBody,
  complete, partial, passthrough, new_partial,
}
use hitbox.Http.Body.Content.{prefix_bytes, stream_content, content}
use hitbox.Http.Body.Collect.{freeze}
use hitbox.Http.Body.Laws.{freeze-bytes}
use hitbox.Http.Plain.{
  contains, contained, search_loop, search_remaining, streaming_search_body, streaming_search,
}
use hitbox.Http.Plain.Search.{
  Infix, Infix-append, Infix-drop, contained-freeze, contains-Infix, Infix-contains,
}

not_contained : (x : ℕ) (p bs : Bytes) → contains (x ∷ p) bs ≡ false → Infix (x ∷ p) bs → ⊥
not_contained x p bs n h = absurd (ground (arith, n, Infix-contains x p bs h))

module _ {E : Type 0} where
  -- What a search of a body of the content `c` gives, for a pattern: the pattern stands in the
  -- content just if it is found; where it is not found the content is kept; and where it is, the
  -- body that is given back has the first bytes of the content, or all.
  abbrev pub Searched : Bytes → Bytes × Option E → Bool × BufferedBody E → Type 0
  Searched pattern c (true, b) =
      Infix pattern c.0 × ((lost : Bytes) × (c.0 ≡ (content b).0 ++ lost))
  Searched pattern c (false, b) = (Infix pattern c.0 → ⊥) × (content b ≡ c)

module _ {E : Type 0} (x : ℕ) (p : Bytes) where
  -- A search of bytes that are all there.
  whole-Searched :
      (bs : Bytes) (e : Option E) (b : BufferedBody E)
      → content b ≡ (bs, e)
      → Searched (x ∷ p) (bs, e) (contains (x ∷ p) bs, b)
  whole-Searched bs e b h = elim (Bool-cases (contains (x ∷ p) bs)) [
    | inl y ↦
        subst (λ found. Searched (x ∷ p) (bs, e) (found, b)) (sym y)
          (contains-Infix (x ∷ p) bs y, ([], ground (arith, h, append-nil bs)))
    | inr n ↦
        subst (λ found. Searched (x ∷ p) (bs, e) (found, b)) (sym n) (not_contained x p bs n, h)
  ]

  frozen-Searched :
      (buffer : Bytes) (e : Option E) (b : BufferedBody E)
      → content b ≡ (buffer ++ [], e)
      → Searched (x ∷ p) (buffer ++ [], e) (contained (x ∷ p) (freeze buffer), b)
  frozen-Searched buffer e b h =
      subst (λ found. Searched (x ∷ p) (buffer ++ [], e) (found, b))
        (ap (contains (x ∷ p)) (append-nil buffer) ∙ sym (contained-freeze x p buffer))
        (whole-Searched (buffer ++ []) e b h)

  -- A chunk, where `found` is the test of the region that ends with it.
  chunk-Searched :
      (found : Bool) (buffer d rest : Bytes) (e : Option E) (more : Bool × BufferedBody E)
      → (found ≡ true → Infix (x ∷ p) (buffer ++ d))
      → Searched (x ∷ p) ((buffer ++ d) ++ rest, e) more
      → Searched
          (x ∷ p)
          (buffer ++ (d ++ rest), e)
          (if found then (true, complete (some (buffer ++ d))) else more)
  chunk-Searched true buffer d rest e more stands later =
      subst (λ bytes. Searched (x ∷ p) (bytes, e) (true, complete (some (buffer ++ d))))
        (append_assoc buffer d rest)
        (Infix-append (x ∷ p) (buffer ++ d) rest (stands refl), (rest, refl))
  chunk-Searched false buffer d rest e more stands later =
      subst (λ bytes. Searched (x ∷ p) (bytes, e) more) (append_assoc buffer d rest) later

  search_loop-Searched :
      (s : Stream E) (buffer : Bytes)
      → Searched
          (x ∷ p)
          (buffer ++ (stream_content s).0, (stream_content s).1)
          (search_loop s buffer (x ∷ p))
  unfolding search_loop
  search_loop-Searched ended buffer =
      frozen-Searched buffer none (complete (freeze buffer))
        (ground (arith, freeze-bytes buffer, append-nil buffer))
  search_loop-Searched (frame (data_ d) rest) buffer =
      let start = length buffer - (length (x ∷ p) - 1) in
      chunk-Searched (contains (x ∷ p) (drop start (buffer ++ d))) buffer d (stream_content rest).0
        (stream_content rest).1 (search_loop rest (buffer ++ d) (x ∷ p))
        (λ h.
          Infix-drop start (x ∷ p) (buffer ++ d)
            (contains-Infix (x ∷ p) (drop start (buffer ++ d)) h))
        (search_loop-Searched rest (buffer ++ d))
  search_loop-Searched (frame (trailers t) rest) buffer = search_loop-Searched rest buffer
  search_loop-Searched (failed e rest) buffer =
      frozen-Searched buffer (some e) (partial (new_partial (freeze buffer) (error (some e))))
        (ground (arith, freeze-bytes buffer))

  prefix-Searched :
      (prefix : Option Bytes) (e : Option E)
      → Searched
          (x ∷ p)
          (prefix_bytes prefix ++ [], e)
          (contained (x ∷ p) prefix, partial (new_partial prefix (error e)))
  prefix-Searched none e = whole-Searched [] e (partial (new_partial none (error e))) refl
  prefix-Searched (some bs) e =
      subst
        (λ found. Searched (x ∷ p) (bs ++ [], e) (found, partial (new_partial (some bs) (error e))))
        (ap (contains (x ∷ p)) (append-nil bs))
        (whole-Searched (bs ++ []) e (partial (new_partial (some bs) (error e))) refl)

  search_remaining-Searched :
      (prefix : Option Bytes) (remaining : Remaining E)
      → Searched
          (x ∷ p)
          (content (partial (new_partial prefix remaining)))
          (search_remaining prefix remaining (x ∷ p))
  unfolding search_remaining streaming_search_body
  search_remaining-Searched none (body s) = search_loop-Searched s []
  search_remaining-Searched (some bs) (body s) = search_loop-Searched s bs
  search_remaining-Searched prefix (error e) = prefix-Searched prefix e

module _ {E : Type 0} where
  -- The search through a body, chunk by chunk, finds a pattern just if it stands in the body's bytes
  -- up to its end or first error, also across chunks. Where it does not, the body that is handed on
  -- has the same content; where it does, that body has a part of the bytes, the first ones.
  pub streaming_search-Searched :
      (b : BufferedBody E) (pattern : Bytes)
      → Searched pattern (content b) (streaming_search b pattern)
  unfolding streaming_search streaming_search_body
  streaming_search-Searched b [] =
      (([], ((content b).0, refl)), ([], sym (append-nil (content b).0)))
  streaming_search-Searched (complete none) (x ∷ p) =
      whole-Searched x p [] none (complete none) refl
  streaming_search-Searched (complete (some bs)) (x ∷ p) =
      whole-Searched x p bs none (complete (some bs)) refl
  streaming_search-Searched (partial b) (x ∷ p) = search_remaining-Searched x p b.prefix b.remaining
  streaming_search-Searched (passthrough s) (x ∷ p) = search_loop-Searched x p s []
