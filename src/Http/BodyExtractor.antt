-- ===== src/Http/BodyExtractor.antt =====
-- hitbox-http/src/extractors/body.rs: the parts of a cache key that are read from a request's body.
-- JSON values, the runs of jq filters, regular expressions and the reading of bytes as text are
-- libraries': parameters. The function `hash` that the filters can call is left out.
pub mod Laws
pub mod Chains
use text.Mathlib.Text.{◌==◌}
use hitbox.Prelude.{
  ℕ, String, Bool, true, false, Option, none, some, List, [], ◌∷◌, ◌++◌, if◌then◌else◌,
}
use hitbox.Core.Response.{Result, ok, err}
use hitbox.Key.{KeyPart, KeyParts, new_part, push, append}
use hitbox.Http.Body.{Bytes, HttpBody, BufferedBody, complete}
use hitbox.Http.Body.Collect.{collect}
use hitbox.Http.Extractors.{Texts, Transform, apply_transform_chain, Extractor}

-- `serde_json::Value`, looked at from above.
pub data JsonView (Json : Type 0) : Type 0 where
  null : JsonView Json
  bool_ : String → JsonView Json
  number : String → JsonView Json
  string : String → JsonView Json
  array : List Json → JsonView Json
  object : List (String × Json) → JsonView Json

-- What is called of the libraries: `view` gives the printed form of a number and of a Boolean;
-- `run` gives the results of a filter that are no errors.
pub record BodyText (Json Filter Regex Captures : Type 0) : Type 0 where
  pub from_utf8_lossy : Bytes → String
  pub view : Json → JsonView Json
  pub to_string : Json → String
  pub from_str : String → Option Json
  pub json_null : Json
  pub run : Filter → Json → List Json
  pub capture_names : Regex → List (Option String)
  pub captures : Regex → String → Option Captures
  pub captures_iter : Regex → String → List Captures
  pub name : Captures → String → Option String
  pub get : Captures → ℕ → Option String

pub data Transforms : Type 0 where
  none_ : Transforms
  full_body : List Transform → Transforms
  per_key : List (String × List Transform) → Transforms

pub record RegexExtraction (Regex : Type 0) : Type 0 where
  pub regex : Regex
  pub key : Option String
  pub global : Bool
  pub transforms : Transforms

pub data BodyExtraction (Filter Regex : Type 0) : Type 0 where
  hash : BodyExtraction Filter Regex
  jq : Filter → BodyExtraction Filter Regex
  regex_ : RegexExtraction Regex → BodyExtraction Filter Regex

abbrev pub flatten : List (Option String) → List String
flatten [] = []
flatten (none ∷ names) = flatten names
flatten (some n ∷ names) = n ∷ flatten names

abbrev pub or_else : Option String → Option String → Option String
or_else (some s) other = some s
or_else none other = other

abbrev pub or_body : Option String → String
or_body none = "body"
or_body (some key) = key

abbrev pub first_of : {A : Type 0} → Option A → List A
first_of none = []
first_of (some a) = a ∷ []

-- `map.get(key_name)` of the transforms.
abbrev pub chain_for : String → List (String × List Transform) → List Transform
chain_for key [] = []
chain_for key ((k, chain) ∷ map_) = if k == key then chain else chain_for key map_

module _ {Json Filter Regex Captures : Type 0} (t : Texts Regex)
    (lib : BodyText Json Filter Regex Captures) where
  value_text : Json → JsonView Json → Option String
  value_text json null = none
  value_text json (string s) = some s
  value_text json (number n) = some n
  value_text json (bool_ b) = some b
  value_text json (array items) = some (lib.to_string json)
  value_text json (object map_) = some (lib.to_string json)

  unfoldable pub value_to_string : Json → Option String
  unfolding value_text
  value_to_string json = value_text json (lib.view json)

  unfoldable pub object_parts : List (String × Json) → List KeyPart
  unfolding value_to_string
  object_parts [] = []
  object_parts ((key, v) ∷ map_) = new_part key (value_to_string v) ∷ object_parts map_

  item_part : Json → JsonView Json → List KeyPart
  unfolding object_parts value_to_string
  item_part json (object map_) = object_parts map_
  item_part json other = new_part "body" (value_to_string json) ∷ []

  items_parts : List Json → List KeyPart
  unfolding item_part
  items_parts [] = []
  items_parts (item ∷ items) = item_part item (lib.view item) ++ items_parts items

  result_parts : Json → JsonView Json → List KeyPart
  unfolding object_parts items_parts value_to_string
  result_parts json (object map_) = object_parts map_
  result_parts json (array items) = items_parts items
  result_parts json other = new_part "body" (value_to_string json) ∷ []

  unfoldable pub extract_jq_parts : List Json → List KeyPart
  unfolding result_parts
  extract_jq_parts [] = []
  extract_jq_parts (v ∷ vs) = result_parts v (lib.view v) ++ extract_jq_parts vs

  -- The closure `apply_transforms`; a key without transforms has an empty chain.
  unfoldable pub apply_transforms : Transforms → String → String → String
  apply_transforms none_ key value = value
  apply_transforms (full_body chain) key value = apply_transform_chain t value chain
  apply_transforms (per_key map_) key value = apply_transform_chain t value (chain_for key map_)

  captured_part : Transforms → String → Option String → List KeyPart → List KeyPart
  unfolding apply_transforms
  captured_part transforms key none rest = rest
  captured_part transforms key (some m) rest =
      new_part key (some (apply_transforms transforms key m)) ∷ rest

  named_parts : Transforms → Captures → List String → List KeyPart
  unfolding captured_part
  named_parts transforms caps [] = []
  named_parts transforms caps (n ∷ names) =
      captured_part transforms n (lib.name caps n) (named_parts transforms caps names)

  -- The parts of one match, by the names of the groups.
  match_parts : RegexExtraction Regex → Captures → List String → List KeyPart
  unfolding named_parts captured_part
  match_parts r caps [] =
      captured_part r.transforms (or_body r.key) (or_else (lib.get caps 1) (lib.get caps 0)) []
  match_parts r caps (n ∷ names) = named_parts r.transforms caps (n ∷ names)

  matches_parts : RegexExtraction Regex → List Captures → List KeyPart
  unfolding match_parts
  matches_parts r [] = []
  matches_parts r (caps ∷ more) =
      match_parts r caps (flatten (lib.capture_names r.regex)) ++ matches_parts r more

  unfoldable pub extract_regex_parts : String → RegexExtraction Regex → List KeyPart
  unfolding matches_parts
  extract_regex_parts text r =
      if r.global
      then matches_parts r (lib.captures_iter r.regex text)
      else matches_parts r (first_of (lib.captures r.regex text))

  abbrev or_null : Option Json → Json
  or_null none = lib.json_null
  or_null (some json) = json

  unfoldable pub extracted_parts : BodyExtraction Filter Regex → String → List KeyPart
  unfolding extract_jq_parts extract_regex_parts
  extracted_parts hash text = new_part "body" (some (t.apply_hash text)) ∷ []
  extracted_parts (jq filter) text = extract_jq_parts (lib.run filter (or_null (lib.from_str text)))
  extracted_parts (regex_ r) text = extract_regex_parts text r

  module _ {E Parts : Type 0} (http : HttpBody E) where
    -- The match of `get` on what `collect` gives.
    unfoldable pub on_collected :
        BodyExtraction Filter Regex
        → Extractor (Parts × BufferedBody E)
        → Parts
        → Result (BufferedBody E) Bytes
        → KeyParts (Parts × BufferedBody E)
    unfolding extracted_parts
    on_collected extraction inner parts (ok payload) =
        append (inner (parts, complete (some payload)))
          (extracted_parts extraction (lib.from_utf8_lossy payload))
    on_collected extraction inner parts (err b) = push (inner (parts, b)) (new_part "body" none)

    unfoldable pub body_extractor :
        BodyExtraction Filter Regex
        → Extractor (Parts × BufferedBody E)
        → Extractor (Parts × BufferedBody E)
    unfolding on_collected
    body_extractor extraction inner (parts, b) =
        on_collected extraction inner parts (collect http b)
