-- ===== src/Http/Extractors/Laws.antt =====
-- The chain of extractors of hitbox-http/src/extractors, and the key that is made of its parts.
use hitbox.Prelude.{ℕ, String, some, List, [], ◌∷◌, ◌++◌, ◌≡◌, refl, sym, ap, ◌∙◌}
use mathlib.Core.List.{append_assoc, append-nil}
use hitbox.Key.{KeyPart, new_part, into_cache_key}
use hitbox.Http.Heads.{parsed}
use hitbox.Http.Extractors.{
  Texts, NameSelector, ValueExtractor, Transform, header_parts, query_parts, or_empty_map, Request,
  Extractor, captured_parts, method_extractor, version_extractor, path_extractor, header_extractor,
  query_extractor, neutral_extractor,
}

-- What the extractors read of a request is its head.
abbrev pub of_head :
    {Parts Resource B : Type 0} → Request Parts Resource → Request (Parts × B) Resource
of_head r = record {
  method = λ s. r.method s.0;
  version = λ s. r.version s.0;
  query = λ s. r.query s.0;
  parse_query = r.parse_query;
  headers = λ s. r.headers s.0;
  get_header = λ s. r.get_header s.0;
  captured = λ resource s. r.captured resource s.0;
}

-- One step of the description of a key, of what the head of a request has.
pub data Part (Resource Regex : Type 0) : Type 0 where
  method : Part Resource Regex
  version : Part Resource Regex
  path : Resource → Part Resource Regex
  header : NameSelector → ValueExtractor Regex → List Transform → Part Resource Regex
  query : NameSelector → ValueExtractor Regex → List Transform → Part Resource Regex

module _ {S Resource Regex : Type 0} (req : Request S Resource) (t : Texts Regex) where
  -- What a chain `extractor.method().path(...)` builds around an inner extractor.
  abbrev pub add : Part Resource Regex → Extractor S → Extractor S
  add method = method_extractor req t
  add version = version_extractor req t
  add (path resource) = path_extractor req t resource
  add (header selector extractor transforms) = header_extractor req t selector extractor transforms
  add (query selector extractor transforms) = query_extractor req t selector extractor transforms

  abbrev pub chain_of : List (Part Resource Regex) → Extractor S → Extractor S
  chain_of [] inner = inner
  chain_of (p ∷ ps) inner = chain_of ps (add p inner)

  -- The parts of one step, of the request alone.
  abbrev pub own_parts : Part Resource Regex → S → List KeyPart
  own_parts method s = new_part "method" (some (req.method s)) ∷ []
  own_parts version s = new_part "version" (some (req.version s)) ∷ []
  own_parts (path resource) s = captured_parts (req.captured resource s)
  own_parts (header selector extractor transforms) s =
      header_parts t extractor transforms selector (req.get_header s) (req.headers s)
  own_parts (query selector extractor transforms) s =
      query_parts t extractor transforms selector
        (or_empty_map (parsed req.parse_query (req.query s)))

  abbrev pub all_parts : List (Part Resource Regex) → S → List KeyPart
  all_parts [] s = []
  all_parts (p ∷ ps) s = own_parts p s ++ all_parts ps s

  pub add-lem :
      (p : Part Resource Regex) (inner : Extractor S) (s : S)
      → ((add p inner s).subject ≡ (inner s).subject)
        × ((add p inner s).parts ≡ (inner s).parts ++ own_parts p s)
  unfolding method_extractor version_extractor path_extractor header_extractor query_extractor
  add-lem method inner s = (refl, refl)
  add-lem version inner s = (refl, refl)
  add-lem (path resource) inner s = (refl, refl)
  add-lem (header selector extractor transforms) inner s = (refl, refl)
  add-lem (query selector extractor transforms) inner s = (refl, refl)

  pub chain_of-lem :
      (ps : List (Part Resource Regex)) (inner : Extractor S) (s : S)
      → ((chain_of ps inner s).subject ≡ (inner s).subject)
        × ((chain_of ps inner s).parts ≡ (inner s).parts ++ all_parts ps s)
  chain_of-lem [] inner s = (refl, sym (append-nil (inner s).parts))
  chain_of-lem (p ∷ ps) inner s =
      let (subject, parts) = add-lem p inner s in
      let (subject', parts') = chain_of-lem ps (add p inner) s in
      (
        subject' ∙ subject,
        parts'
            ∙ ap (λ front. front ++ all_parts ps s) parts
            ∙ append_assoc (inner s).parts (own_parts p s) (all_parts ps s),
      )

  -- A chain of extractors hands the request on as it was, and its cache key has the parts of every
  -- step in the order of the chain, each read of the request as it came in.
  pub chain_of-all_parts :
      (len : String → ℕ) (ps : List (Part Resource Regex)) (s : S)
      → ((into_cache_key len (chain_of ps (neutral_extractor req t) s)).0 ≡ s)
        × ((into_cache_key len (chain_of ps (neutral_extractor req t) s)).1.parts ≡ all_parts ps s)
  unfolding into_cache_key neutral_extractor
  chain_of-all_parts len ps s = chain_of-lem ps (neutral_extractor req t) s
