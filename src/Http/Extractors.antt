-- ===== src/Http/Extractors.antt =====
-- hitbox-http/src/extractors: the parts of a cache key that are read from a request. The regular
-- expressions, the hash, the changes of case, the order of texts and the router are libraries':
-- parameters.
pub mod Laws
pub mod Order
use hitbox.Prelude.{
  ℕ, String, Bool, true, false, Option, none, some, List, [], ◌∷◌, ◌++◌, if◌then◌else◌,
}
use hitbox.Key.{KeyPart, KeyParts, new_part, new_parts, push, append}
use hitbox.Http.Heads.{QueryValue, inner_values, get_value, parsed}

-- `captures` gives the first group, if it took part, and the whole match; `starts_with prefix text`
-- and `le` are those of `str`.
pub record Texts (Regex : Type 0) : Type 0 where
  pub captures : Regex → String → Option (Option String × String)
  pub apply_hash : String → String
  pub to_lowercase : String → String
  pub to_uppercase : String → String
  pub starts_with : String → String → Bool
  pub le : String → String → Bool

pub data NameSelector : Type 0 where
  exact : String → NameSelector
  starts : String → NameSelector

pub data ValueExtractor (Regex : Type 0) : Type 0 where
  full : ValueExtractor Regex
  regex : Regex → ValueExtractor Regex

pub data Transform : Type 0 where
  hash lowercase uppercase : Transform

abbrev pub or_first : Option (Option String × String) → Option String
or_first none = none
or_first (some (some group, all)) = some group
or_first (some (none, all)) = some all

abbrev pub option_map : {A B : Type 0} → (A → B) → Option A → Option B
option_map f none = none
option_map f (some a) = some (f a)

module _ {Regex : Type 0} (t : Texts Regex) where
  unfoldable pub apply_single_transform : String → Transform → String
  apply_single_transform value hash = t.apply_hash value
  apply_single_transform value lowercase = t.to_lowercase value
  apply_single_transform value uppercase = t.to_uppercase value

  unfoldable pub apply_transform_chain : String → List Transform → String
  unfolding apply_single_transform
  apply_transform_chain value [] = value
  apply_transform_chain value (tr ∷ chain) =
      apply_transform_chain (apply_single_transform value tr) chain

  -- Of the text of a header or a query value.
  unfoldable pub extract_text : String → ValueExtractor Regex → Option String
  extract_text value full = some value
  extract_text value (regex r) = or_first (t.captures r value)

  -- `sort_by` on the keys of the parts, which is stable.
  abbrev pub insert : KeyPart → List KeyPart → List KeyPart
  insert p [] = p ∷ []
  insert p (q ∷ qs) = let rest = insert p qs in if t.le p.key q.key then p ∷ (q ∷ qs) else q ∷ rest

  abbrev pub sort_by_key : List KeyPart → List KeyPart
  sort_by_key [] = []
  sort_by_key (p ∷ ps) = insert p (sort_by_key ps)

  module _ (extractor : ValueExtractor Regex) (transforms : List Transform) where
    unfoldable pub changed : Option String → Option String
    unfolding apply_transform_chain
    changed value = option_map (λ v. apply_transform_chain v transforms) value

    extract_header : Option String → Option String
    unfolding extract_text
    extract_header none = none
    extract_header (some value) = extract_text value extractor

    -- The parts of the headers with a prefix, before they are sorted; a header's value is none if it
    -- is no text.
    unfoldable pub headers_with : String → List (String × Option String) → List KeyPart
    unfolding changed extract_header
    headers_with prefix [] = []
    headers_with prefix ((name, value) ∷ headers) =
        let rest = headers_with prefix headers in
        if t.starts_with prefix name
        then new_part name (changed (extract_header value)) ∷ rest
        else rest

    -- The first header of the name; the outer option is `headers.get(name)`.
    first_header : Option (Option String) → Option String
    unfolding extract_header
    first_header none = none
    first_header (some value) = extract_header value

    unfoldable pub header_parts :
        NameSelector
        → (String → Option (Option String))
        → List (String × Option String)
        → List KeyPart
    unfolding changed first_header headers_with
    header_parts (exact name) get headers = new_part name (changed (first_header (get name))) ∷ []
    header_parts (starts prefix) get headers = sort_by_key (headers_with prefix headers)

    part_of : String → Option String → List KeyPart → List KeyPart
    part_of name none rest = rest
    part_of name (some v) rest = new_part name (some v) ∷ rest

    -- The parts of the values of one name of the query.
    unfoldable pub values_parts : String → List String → List KeyPart
    unfolding changed extract_text part_of
    values_parts name [] = []
    values_parts name (v ∷ vs) =
        part_of name (changed (extract_text v extractor)) (values_parts name vs)

    unfoldable pub exact_parts : String → Option QueryValue → List KeyPart
    unfolding values_parts
    exact_parts name none = []
    exact_parts name (some v) = values_parts name (inner_values v)

    unfoldable pub queries_with : String → List (String × QueryValue) → List KeyPart
    unfolding values_parts
    queries_with prefix [] = []
    queries_with prefix ((name, value) ∷ map_) =
        let rest = queries_with prefix map_ in
        if t.starts_with prefix name then values_parts name (inner_values value) ++ rest else rest

    unfoldable pub query_parts : NameSelector → List (String × QueryValue) → List KeyPart
    unfolding exact_parts queries_with
    query_parts (exact name) map_ = exact_parts name (get_value name map_)
    query_parts (starts prefix) map_ = sort_by_key (queries_with prefix map_)

-- `unwrap_or_default` of the parsed query.
abbrev pub or_empty_map : Option (List (String × QueryValue)) → List (String × QueryValue)
or_empty_map none = []
or_empty_map (some m) = m

-- What the extractors read of a request: the method, the version, the query, the headers, the first
-- value of a header, and what a pattern of the router captures of the path.
pub record Request (S Resource : Type 0) : Type 0 where
  pub method : S → String
  pub version : S → String
  pub query : S → Option String
  pub parse_query : String → Option (List (String × QueryValue))
  pub headers : S → List (String × Option String)
  pub get_header : S → String → Option (Option String)
  pub captured : Resource → S → List (String × String)

-- `Extractor::get`
abbrev pub Extractor : Type 0 → Type 0
Extractor S = S → KeyParts S

abbrev pub captured_parts : List (String × String) → List KeyPart
captured_parts [] = []
captured_parts ((key, value) ∷ more) = new_part key (some value) ∷ captured_parts more

module _ {S Resource Regex : Type 0} (req : Request S Resource) (t : Texts Regex) where
  unfoldable pub method_extractor : Extractor S → Extractor S
  method_extractor inner s = push (inner s) (new_part "method" (some (req.method s)))

  unfoldable pub version_extractor : Extractor S → Extractor S
  version_extractor inner s = push (inner s) (new_part "version" (some (req.version s)))

  unfoldable pub path_extractor : Resource → Extractor S → Extractor S
  path_extractor resource inner s = append (inner s) (captured_parts (req.captured resource s))

  unfoldable pub header_extractor :
      NameSelector → ValueExtractor Regex → List Transform → Extractor S → Extractor S
  unfolding header_parts
  header_extractor selector extractor transforms inner s =
      let own = header_parts t extractor transforms selector (req.get_header s) (req.headers s) in
      append (inner s) own

  unfoldable pub query_extractor :
      NameSelector → ValueExtractor Regex → List Transform → Extractor S → Extractor S
  unfolding query_parts
  query_extractor selector extractor transforms inner s =
      let map_ = or_empty_map (parsed req.parse_query (req.query s)) in
      append (inner s) (query_parts t extractor transforms selector map_)

  -- `NeutralExtractor`
  unfoldable pub neutral_extractor : Extractor S
  neutral_extractor s = new_parts s
