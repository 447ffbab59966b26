-- ===== src/Config/Extractors/Laws.antt =====
-- The parts that configured extractors give, hitbox-configuration/src/extractors and config.rs.
use hitbox.Prelude.{some, List, [], ◌∷◌, ◌++◌, ◌≡◌, refl, sym, ap}
use mathlib.Core.Path.{subst}
use hitbox.Core.Response.{Result, ok, err}
use hitbox.Key.{KeyPart, KeyParts, new_part, append}
use hitbox.Http.Body.{Bytes, HttpBody, BufferedBody, complete}
use hitbox.Http.Body.Collect.{collect}
use hitbox.Http.Heads.{parsed}
use hitbox.Http.Extractors.{
  Texts, Request, Extractor, captured_parts, header_parts, query_parts, or_empty_map,
  method_extractor, version_extractor, path_extractor, header_extractor, query_extractor,
  neutral_extractor,
}
use hitbox.Http.Extractors.Laws.{of_head}
use hitbox.Http.Extractors as Http
use hitbox.Http.BodyExtractor.{
  BodyText, BodyExtraction, extracted_parts, on_collected, body_extractor,
}
use hitbox.Config.Error.{ConfigError}
use hitbox.Config.Answer.{bind}
use hitbox.Config.Gives.{Gives, bind-Gives}
use hitbox.Config.Extractors.{
  Step, path, method, query, body, header, version, HeaderOperation, QueryOperation, Compilers,
  header_value, query_value, body_extraction, into_extractor_selector, into_http_transforms,
  into_extractors, fold_extractors,
}

-- The parts of what was parsed; none of what was not.
abbrev pub from_ok : {E A : Type 0} → (A → List KeyPart) → Result E A → List KeyPart
from_ok parts (ok a) = parts a
from_ok parts (err e) = []

module _ {E Parts Resource Json Filter Regex Captures : Type 0}
    (c : Compilers Resource Regex Filter) (r : Request Parts Resource) (t : Texts Regex)
    (text : BodyText Json Filter Regex Captures) (http : HttpBody E) (head : Parts)
    (bytes : Bytes) where
  -- The parts of one extractor, of the head and the bytes of a request.
  unfoldable pub own_parts : Step → List KeyPart
  own_parts method = new_part "method" (some (r.method head)) ∷ []
  own_parts version = new_part "version" (some (r.version head)) ∷ []
  own_parts (path p) = captured_parts (r.captured (c.resource p) head)
  own_parts (header (HeaderOperation.simple name)) =
      header_parts t Http.full [] (Http.exact name) (r.get_header head) (r.headers head)
  own_parts (header (HeaderOperation.extended config)) =
      from_ok
        (λ v.
          header_parts t v (into_http_transforms config.transforms)
            (into_extractor_selector config.name) (r.get_header head) (r.headers head))
        (header_value c config.value)
  own_parts (query (QueryOperation.simple name)) =
      query_parts t Http.full [] (Http.exact name)
        (or_empty_map (parsed r.parse_query (r.query head)))
  own_parts (query (QueryOperation.extended config)) =
      from_ok
        (λ v.
          query_parts t v (into_http_transforms config.transforms)
            (into_extractor_selector config.name)
            (or_empty_map (parsed r.parse_query (r.query head))))
        (query_value c config.value)
  own_parts (body op) =
      from_ok (λ extraction. extracted_parts t text extraction (text.from_utf8_lossy bytes))
        (body_extraction c op)

  -- The parts of the last extractor come first.
  unfoldable pub parts_of : List Step → List KeyPart
  unfolding own_parts
  parts_of [] = []
  parts_of (step ∷ steps) = parts_of steps ++ own_parts step

  -- The parts and the body of a request of this head that can be collected to these bytes.
  abbrev pub Reads : List KeyPart → KeyParts (Parts × BufferedBody E) → Type 0
  Reads ps k = (k.subject.0 ≡ head) × (collect http k.subject.1 ≡ ok bytes) × (k.parts ≡ ps)

  abbrev pub ReadsAll : List KeyPart → Extractor (Parts × BufferedBody E) → Type 0
  ReadsAll ps x = (b : BufferedBody E) → collect http b ≡ ok bytes → Reads ps (x (head, b))

  more_parts :
      (ps own : List KeyPart) (k : KeyParts (Parts × BufferedBody E))
      → Reads ps k
      → Reads (ps ++ own) (append k own)
  more_parts ps own k h = (h.0, h.1, ap (λ l. l ++ own) h.2)

  parsed_own :
      {A : Type 0} (ps : List KeyPart) (own : A → List KeyPart)
      (make : A → Extractor (Parts × BufferedBody E)) (parse : Result ConfigError A)
      → ((a : A) → ReadsAll (ps ++ own a) (make a))
      → Gives (ReadsAll (ps ++ from_ok own parse)) (bind parse (λ a. ok (make a)))
  parsed_own ps own make (ok a) h = h a
  parsed_own ps own make (err e) h = tt

  body_extractor-ReadsAll :
      (ps : List KeyPart) (extraction : BodyExtraction Filter Regex)
      (inner : Extractor (Parts × BufferedBody E))
      → ReadsAll ps inner
      → ReadsAll
          (ps ++ extracted_parts t text extraction (text.from_utf8_lossy bytes))
          (body_extractor t text http extraction inner)
  unfolding body_extractor on_collected collect
  body_extractor-ReadsAll ps extraction inner h b e =
      subst
        (λ x.
          Reads (ps ++ extracted_parts t text extraction (text.from_utf8_lossy bytes))
            (on_collected t text http extraction inner head x))
        (sym e)
        (more_parts ps (extracted_parts t text extraction (text.from_utf8_lossy bytes))
          (inner (head, complete (some bytes))) (h (complete (some bytes)) refl))

  into_extractors-ReadsAll :
      (step : Step) (ps : List KeyPart) (inner : Extractor (Parts × BufferedBody E))
      → ReadsAll ps inner
      → Gives
          (ReadsAll (ps ++ own_parts step))
          (into_extractors c (of_head r) t text http step inner)
  unfolding into_extractors own_parts method_extractor version_extractor path_extractor
      header_extractor query_extractor
  into_extractors-ReadsAll method ps inner h =
      λ b e. more_parts ps (own_parts method) (inner (head, b)) (h b e)
  into_extractors-ReadsAll version ps inner h =
      λ b e. more_parts ps (own_parts version) (inner (head, b)) (h b e)
  into_extractors-ReadsAll (path p) ps inner h =
      λ b e. more_parts ps (own_parts (path p)) (inner (head, b)) (h b e)
  into_extractors-ReadsAll (header (HeaderOperation.simple name)) ps inner h = λ b e.
      more_parts ps (own_parts (header (HeaderOperation.simple name))) (inner (head, b)) (h b e)
  into_extractors-ReadsAll (query (QueryOperation.simple name)) ps inner h = λ b e.
      more_parts ps (own_parts (query (QueryOperation.simple name))) (inner (head, b)) (h b e)
  into_extractors-ReadsAll (header (HeaderOperation.extended config)) ps inner h =
      let own = λ (v : Http.ValueExtractor Regex).
        header_parts t v (into_http_transforms config.transforms)
          (into_extractor_selector config.name) (r.get_header head) (r.headers head) in
      parsed_own ps own
        (λ v.
          header_extractor (of_head r) t (into_extractor_selector config.name) v
            (into_http_transforms config.transforms) inner)
        (header_value c config.value) (λ v b e. more_parts ps (own v) (inner (head, b)) (h b e))
  into_extractors-ReadsAll (query (QueryOperation.extended config)) ps inner h =
      let own = λ (v : Http.ValueExtractor Regex).
        query_parts t v (into_http_transforms config.transforms)
          (into_extractor_selector config.name)
          (or_empty_map (parsed r.parse_query (r.query head))) in
      parsed_own ps own
        (λ v.
          query_extractor (of_head r) t (into_extractor_selector config.name) v
            (into_http_transforms config.transforms) inner)
        (query_value c config.value) (λ v b e. more_parts ps (own v) (inner (head, b)) (h b e))
  into_extractors-ReadsAll (body op) ps inner h =
      parsed_own ps (λ extraction. extracted_parts t text extraction (text.from_utf8_lossy bytes))
        (λ extraction. body_extractor t text http extraction inner) (body_extraction c op)
        (λ extraction. body_extractor-ReadsAll ps extraction inner h)

  fold_extractors-ReadsAll :
      (steps : List Step)
      → Gives (ReadsAll (parts_of steps)) (fold_extractors c (of_head r) t text http steps)
  unfolding fold_extractors parts_of neutral_extractor
  fold_extractors-ReadsAll [] = λ b e. (refl, e, refl)
  fold_extractors-ReadsAll (step ∷ steps) =
      bind-Gives (ReadsAll (parts_of steps)) (ReadsAll (parts_of steps ++ own_parts step))
        (fold_extractors c (of_head r) t text http steps)
        (into_extractors c (of_head r) t text http step) (fold_extractors-ReadsAll steps)
        (λ x h. into_extractors-ReadsAll step (parts_of steps) x h)

  -- The parts of a cache key under configured extractors, in any number and of any kind: those of
  -- every extractor, of the head and the bytes of the request, the last extractor's first. The
  -- request keeps its head, and its body can be collected to the same bytes, also behind extractors
  -- that read it. That holds of a body that can be collected, if the extractors can be converted.
  pub fold_extractors-parts_of :
      (steps : List Step) (x : Extractor (Parts × BufferedBody E)) (b : BufferedBody E)
      → fold_extractors c (of_head r) t text http steps ≡ ok x
      → collect http b ≡ ok bytes
      → ((x (head, b)).subject.0 ≡ head)
        × (collect http (x (head, b)).subject.1 ≡ ok bytes)
        × ((x (head, b)).parts ≡ parts_of steps)
  fold_extractors-parts_of steps x b e collected =
      subst (Gives (ReadsAll (parts_of steps))) e (fold_extractors-ReadsAll steps) b collected
