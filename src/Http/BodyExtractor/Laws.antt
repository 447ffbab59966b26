-- ===== src/Http/BodyExtractor/Laws.antt =====
-- What the extractor of bodies promises, hitbox-http/src/extractors/body.rs.
use hitbox.Prelude.{Option, none, some, [], ◌≡◌, sym, ap, ◌∙◌}
use mathlib.Core.Path.{subst}
use mathlib.Core.List.{append-nil}
use hitbox.Core.Response.{Result, ok, err}
use hitbox.Http.Body.{Bytes, Stream, HttpBody, BufferedBody, complete}
use hitbox.Http.Body.Content.{content, stream_content}
use hitbox.Http.Body.Collect.{collect}
use hitbox.Http.Body.Whole.{outcome, KeepsContent, collect-KeepsContent}
use hitbox.Http.Operation.Transparency.{Shortens}
use hitbox.Http.Extractors.{Texts, Extractor}
use hitbox.Http.BodyExtractor.{BodyText, BodyExtraction, on_collected, body_extractor}

module _ {E Parts Json Filter Regex Captures : Type 0} (http : HttpBody E) (t : Texts Regex)
    (lib : BodyText Json Filter Regex Captures)
    (collects : (s : Stream E) → http.collect s ≡ outcome (stream_content s))
    (extraction : BodyExtraction Filter Regex) (inner : Extractor (Parts × BufferedBody E)) where
  read-content :
      (b : BufferedBody E) (bytes : Bytes) → collect http b ≡ ok bytes → content b ≡ (bytes, none)
  read-content b bytes read =
      subst (KeepsContent (content b)) read (collect-KeepsContent http collects b)

  -- The key does not depend on how the body was buffered before: two requests of the same head, whose
  -- bodies have the same content and can be collected, give the same parts and are handed on as the
  -- same request, under any extraction and any inner extractor.
  pub body_extractor-content :
      (parts : Parts) (b b' : BufferedBody E) (bytes bytes' : Bytes)
      → collect http b ≡ ok bytes
      → collect http b' ≡ ok bytes'
      → content b ≡ content b'
      → body_extractor t lib http extraction inner (parts, b)
        ≡ body_extractor t lib http extraction inner (parts, b')
  unfolding body_extractor
  body_extractor-content parts b b' bytes bytes' read read' same =
      let e : bytes ≡ bytes' =
        ap (λ c. c.0) (sym (read-content b bytes read) ∙ same ∙ read-content b' bytes' read') in
      ap (on_collected t lib http extraction inner parts) (read ∙ ap ok e ∙ sym read')

  on_collected-subject :
      (parts : Parts) (c : Bytes × Option E) (r : Result (BufferedBody E) Bytes)
      → ((s : Parts × BufferedBody E) → (inner s).subject ≡ s)
      → KeepsContent c r
      → ((on_collected t lib http extraction inner parts r).subject.0 ≡ parts)
        × Shortens c (on_collected t lib http extraction inner parts r).subject.1
  unfolding on_collected
  on_collected-subject parts c (ok bytes) kept h =
      let e = kept (parts, complete (some bytes)) in
      (
        ap (λ s. s.0) e,
        subst (λ s. Shortens c s.1) (sym e) ([], ap (λ x. x.0) h ∙ sym (append-nil bytes)),
      )
  on_collected-subject parts c (err b) kept h =
      let e = kept (parts, b) in (ap (λ s. s.0) e, subst (λ s. Shortens c s.1) (sym e) h.1)

  -- The extractor of bodies hands on a request of the same head, whose body has the first bytes of
  -- the one that came in, or all, where the inner extractor hands on what it is given: no byte is
  -- added or moved, also where the body fails.
  pub body_extractor-Shortens :
      (parts : Parts) (b : BufferedBody E)
      → ((s : Parts × BufferedBody E) → (inner s).subject ≡ s)
      → ((body_extractor t lib http extraction inner (parts, b)).subject.0 ≡ parts)
        × Shortens (content b) (body_extractor t lib http extraction inner (parts, b)).subject.1
  unfolding body_extractor
  body_extractor-Shortens parts b kept =
      on_collected-subject parts (content b) (collect http b) kept
        (collect-KeepsContent http collects b)
