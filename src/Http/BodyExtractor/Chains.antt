-- ===== src/Http/BodyExtractor/Chains.antt =====
-- Chains of extractors of any kind, those of bodies among them: hitbox-http/src/extractors.
use hitbox.Prelude.{
  Bool, true, false, ◌||◌, Option, none, some, List, [], ◌∷◌, ◌++◌, ◌≡◌, refl, sym, ap, ◌∙◌, arith,
}
use mathlib.Core.List.{append_assoc, append-nil}
use hitbox.Core.Response.{Result, ok, err}
use hitbox.Key.{KeyPart, new_part}
use hitbox.Http.Body.{
  Bytes, HttpBody, BufferedBody, complete, partial, passthrough, Remaining, body, error,
}
use hitbox.Http.Body.Collect.{collect, collect_remaining, collected}
use hitbox.Http.Extractors.{Texts, Request, Extractor}
use hitbox.Http.Extractors.Laws.{Part, of_head, add-lem}
use hitbox.Http.Extractors.Laws as Extractors
use hitbox.Http.BodyExtractor.{
  BodyText, BodyExtraction, extracted_parts, on_collected, body_extractor,
}

-- One step of a chain of extractors.
pub data Step (Resource Regex Filter BytesRegex : Type 0) : Type 0 where
  from_head : Part Resource Regex → Step Resource Regex Filter BytesRegex
  whole_body : BodyExtraction Filter BytesRegex → Step Resource Regex Filter BytesRegex

module _ {E : Type 0} (http : HttpBody E) where
  -- The body after it was read whole.
  abbrev pub after_collect : Result (BufferedBody E) Bytes → BufferedBody E
  after_collect (ok bytes) = complete (some bytes)
  after_collect (err b) = b

  collected-again :
      (prefix : Option Bytes) (r : Result E Bytes)
      → collect http (after_collect (collected http prefix r)) ≡ collected http prefix r
  unfolding collect collected collect_remaining
  collected-again none (ok bytes) = refl
  collected-again (some d) (ok bytes) = refl
  collected-again none (err e) = refl
  collected-again (some d) (err e) = refl

  remaining_again :
      (prefix : Option Bytes) (remaining : Remaining E)
      → collect http (after_collect (collect_remaining http prefix remaining))
        ≡ collect_remaining http prefix remaining
  unfolding collect collect_remaining
  remaining_again prefix (body s) = collected-again prefix (http.collect s)
  remaining_again prefix (error e) = refl

  -- Reading the body again gives what it gave.
  collect-again :
      (b : BufferedBody E) → collect http (after_collect (collect http b)) ≡ collect http b
  unfolding collect
  collect-again (complete none) = refl
  collect-again (complete (some d)) = refl
  collect-again (partial p) = remaining_again p.prefix p.remaining
  collect-again (passthrough s) = collected-again none (http.collect s)

  abbrev pub settled : Bool → BufferedBody E → BufferedBody E
  settled false b = b
  settled true b = after_collect (collect http b)

  settled-again :
      (read : Bool) (b : BufferedBody E)
      → settled read (after_collect (collect http b)) ≡ after_collect (collect http b)
  settled-again false b = refl
  settled-again true b = ap after_collect (collect-again b)

module _ {Resource Regex Filter BytesRegex : Type 0} where
  abbrev pub reads_body : List (Step Resource Regex Filter BytesRegex) → Bool
  reads_body [] = false
  reads_body (from_head p ∷ steps) = reads_body steps
  reads_body (whole_body extraction ∷ steps) = true

  reads_body-step :
      (step : Step Resource Regex Filter BytesRegex)
      (steps : List (Step Resource Regex Filter BytesRegex)) (read : Bool)
      → ((read || reads_body (step ∷ [])) || reads_body steps) ≡ (read || reads_body (step ∷ steps))
  reads_body-step (from_head p) steps read = ground arith
  reads_body-step (whole_body extraction) steps read = ground arith

or_false_lem : (b : Bool) → b ≡ (b || false)
or_false_lem b = ground arith

or_true_lem : (b : Bool) → true ≡ (b || true)
or_true_lem b = ground arith

module _ {E Parts Resource Regex Json Filter BytesRegex Captures : Type 0} (http : HttpBody E)
    (r : Request Parts Resource) (t : Texts Regex) (t' : Texts BytesRegex)
    (text : BodyText Json Filter BytesRegex Captures) where
  -- What a chain `extractor.method().body(...)` builds around an inner extractor.
  abbrev pub add_step :
      Step Resource Regex Filter BytesRegex
      → Extractor (Parts × BufferedBody E)
      → Extractor (Parts × BufferedBody E)
  add_step (from_head p) = Extractors.add (of_head r) t p
  add_step (whole_body extraction) = body_extractor t' text http extraction

  abbrev pub chain_of :
      List (Step Resource Regex Filter BytesRegex)
      → Extractor (Parts × BufferedBody E)
      → Extractor (Parts × BufferedBody E)
  chain_of [] inner = inner
  chain_of (step ∷ steps) inner = chain_of steps (add_step step inner)

  -- The parts of a body that was read, or could not be.
  abbrev pub body_parts :
      BodyExtraction Filter BytesRegex → Result (BufferedBody E) Bytes → List KeyPart
  body_parts extraction (ok bytes) = extracted_parts t' text extraction (text.from_utf8_lossy bytes)
  body_parts extraction (err b) = new_part "body" none ∷ []

  -- The parts of one step, of the head of a request and what reading its body gives.
  abbrev pub own_parts :
      Parts → Result (BufferedBody E) Bytes → Step Resource Regex Filter BytesRegex → List KeyPart
  own_parts parts read (from_head p) = Extractors.own_parts r t p parts
  own_parts parts read (whole_body extraction) = body_parts extraction read

  abbrev pub all_parts :
      Parts
      → Result (BufferedBody E) Bytes
      → List (Step Resource Regex Filter BytesRegex)
      → List KeyPart
  all_parts parts read [] = []
  all_parts parts read (step ∷ steps) = own_parts parts read step ++ all_parts parts read steps

  own_parts-head :
      (p : Part Resource Regex) (parts : Parts) (b : BufferedBody E)
      → Extractors.own_parts (of_head r) t p (parts, b) ≡ Extractors.own_parts r t p parts
  own_parts-head Part.method parts b = refl
  own_parts-head Part.version parts b = refl
  own_parts-head (Part.path resource) parts b = refl
  own_parts-head (Part.header selector extractor transforms) parts b = refl
  own_parts-head (Part.query selector extractor transforms) parts b = refl

  module _ (parts : Parts) where
    -- An extractor that reads the body or not, and gives these parts.
    abbrev pub Hands :
        Bool
        → (Result (BufferedBody E) Bytes → List KeyPart)
        → Extractor (Parts × BufferedBody E)
        → Type 0
    Hands read gives x =
        (b : BufferedBody E)
        → ((x (parts, b)).subject ≡ (parts, settled http read b))
          × ((x (parts, b)).parts ≡ gives (collect http b))

    on_collected-inner :
        (extraction : BodyExtraction Filter BytesRegex) (inner : Extractor (Parts × BufferedBody E))
        (res : Result (BufferedBody E) Bytes)
        → ((on_collected t' text http extraction inner parts res).subject
            ≡ (inner (parts, after_collect http res)).subject)
          × ((on_collected t' text http extraction inner parts res).parts
              ≡ (inner (parts, after_collect http res)).parts ++ body_parts extraction res)
    unfolding on_collected
    on_collected-inner extraction inner (ok bytes) = (refl, refl)
    on_collected-inner extraction inner (err b) = (refl, refl)

    add_step-Hands :
        (step : Step Resource Regex Filter BytesRegex) (read : Bool)
        (gives : Result (BufferedBody E) Bytes → List KeyPart)
        (inner : Extractor (Parts × BufferedBody E))
        → Hands read gives inner
        → Hands
            (read || reads_body (step ∷ []))
            (λ res. gives res ++ own_parts parts res step)
            (add_step step inner)
    unfolding body_extractor
    add_step-Hands (from_head p) read gives inner h b =
        let (subject, parts') = add-lem (of_head r) t p inner (parts, b) in
        (
          subject ∙ (h b).0 ∙ ap (λ x. (parts, settled http x b)) (or_false_lem read),
          parts'
              ∙ ap (λ l. l ++ Extractors.own_parts (of_head r) t p (parts, b)) (h b).1
              ∙ ap (λ l. gives (collect http b) ++ l) (own_parts-head p parts b),
        )
    add_step-Hands (whole_body extraction) read gives inner h b =
        let res = collect http b in
        let (subject, parts') = on_collected-inner extraction inner res in
        let again = h (after_collect http res) in
        (
          subject
              ∙ again.0
              ∙ ap (λ x. (parts, x)) (settled-again http read b)
              ∙ ap (λ x. (parts, settled http x b)) (or_true_lem read),
          parts'
              ∙ ap (λ l. l ++ body_parts extraction res)
                  (again.1 ∙ ap gives (collect-again http b)),
        )

    pub chain_of-Hands :
        (steps : List (Step Resource Regex Filter BytesRegex)) (read : Bool)
        (gives : Result (BufferedBody E) Bytes → List KeyPart)
        (inner : Extractor (Parts × BufferedBody E))
        → Hands read gives inner
        → Hands
            (read || reads_body steps)
            (λ res. gives res ++ all_parts parts res steps)
            (chain_of steps inner)
    chain_of-Hands [] read gives inner h b = (
      (h b).0 ∙ ap (λ x. (parts, settled http x b)) (or_false_lem read),
      (h b).1 ∙ sym (append-nil (gives (collect http b))),
    )
    chain_of-Hands (step ∷ steps) read gives inner h b =
        let (subject, parts') =
          chain_of-Hands steps (read || reads_body (step ∷ []))
            (λ res. gives res ++ own_parts parts res step) (add_step step inner)
            (add_step-Hands step read gives inner h) b in
        let res = collect http b in
        (
          subject ∙ ap (λ x. (parts, settled http x b)) (reads_body-step step steps read),
          parts' ∙ append_assoc (gives res) (own_parts parts res step) (all_parts parts res steps),
        )
