-- ===== src/Key/Format.antt =====
-- hitbox-backend/src/key.rs: the formats of a key in a backend. The encodings of bitcode and of
-- serde_urlencoded are parameters, as are the decimal form of a version and its parser.
use text.Mathlib.Text.{◌==◌}
use hitbox.Prelude.{ℕ, String, Option, none, some, List, [], ◌∷◌, ◌++◌, if◌then◌else◌}
use hitbox.Core.Response.{Result, ok, err, chain}
use hitbox.Key.{KeyPart, CacheKey, new_part, new}

pub data CacheKeyFormat : Type 0 where
  bitcode url_encoded : CacheKeyFormat

-- The errors of the libraries, as `FormatError` boxes them.
pub record KeyCodec (Bytes Failure : Type 0) : Type 0 where
  pub encode : CacheKey → Bytes
  pub decode : Bytes → Result Failure CacheKey
  pub to_string : List (String × String) → Result Failure Bytes
  pub from_str : Bytes → Result Failure (List (String × String))
  pub show : ℕ → String
  pub parse : String → Result Failure ℕ

pub data FormatError (Failure : Type 0) : Type 0 where
  serialize_ : Failure → FormatError Failure
  deserialize_ : Failure → FormatError Failure

abbrev pub prefix_key : String
prefix_key = "_prefix"

abbrev pub version_key : String
version_key = "_version"

-- `p.value().unwrap_or_default().to_string()`
abbrev pub or_empty : Option String → String
or_empty none = ""
or_empty (some v) = v

abbrev pub part_pairs : List KeyPart → List (String × String)
part_pairs [] = []
part_pairs (p ∷ ps) = (p.key, or_empty p.value) ∷ part_pairs ps

-- What the loop of `deserialize` has read so far.
pub record Read : Type 0 where
  pub prefix : String
  pub version : ℕ
  pub parts : List KeyPart

module _ {Failure : Type 0} where
  abbrev pub map_err :
      {A : Type 0}
      → (Failure → FormatError Failure)
      → Result Failure A
      → Result (FormatError Failure) A
  map_err f (ok a) = ok a
  map_err f (err e) = err (f e)

module _ {Bytes Failure : Type 0} (codec : KeyCodec Bytes Failure) where
  unfoldable pub pairs : CacheKey → List (String × String)
  pairs key =
      (prefix_key, key.prefix) ∷ ((version_key, codec.show key.version) ∷ part_pairs key.parts)

  unfoldable pub serialize : CacheKeyFormat → CacheKey → Result (FormatError Failure) Bytes
  unfolding pairs
  serialize bitcode key = ok (codec.encode key)
  serialize url_encoded key = map_err serialize_ (codec.to_string (pairs key))

  -- One turn of the loop of `deserialize`.
  unfoldable pub read_version : Read → Result Failure ℕ → Result (FormatError Failure) Read
  read_version r (ok version) = ok (record r { version = version })
  read_version r (err e) = err (deserialize_ e)

  unfoldable pub read_pair : String × String → Read → Result (FormatError Failure) Read
  unfolding read_version
  read_pair (key, value) r =
      if key == prefix_key
      then ok (record r { prefix = value })
      else (if key == version_key
          then read_version r (codec.parse value)
          else ok (record r {
            parts = r.parts ++ (new_part key (if value == "" then none else some value) ∷ []);
          }))

  unfoldable pub read_pairs : List (String × String) → Read → Result (FormatError Failure) Read
  unfolding read_pair
  read_pairs [] r = ok r
  read_pairs (p ∷ ps) r = chain (read_pair p r) (read_pairs ps)

  module _ (len : String → ℕ) where
    unfoldable pub finish :
        Result (FormatError Failure) Read → Result (FormatError Failure) CacheKey
    finish (ok r) = ok (new len r.prefix r.version r.parts)
    finish (err e) = err e

    unfoldable pub read_input :
        Result Failure (List (String × String)) → Result (FormatError Failure) CacheKey
    unfolding read_pairs finish
    read_input (ok ps) = finish (read_pairs ps (record { prefix = ""; version = 0; parts = [] }))
    read_input (err e) = err (deserialize_ e)

    unfoldable pub deserialize : CacheKeyFormat → Bytes → Result (FormatError Failure) CacheKey
    unfolding read_input
    deserialize bitcode input = map_err deserialize_ (codec.decode input)
    deserialize url_encoded input = read_input (codec.from_str input)
