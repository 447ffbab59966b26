-- ===== src/Key.antt =====
-- hitbox-core/src/key.rs: cache keys, their parts and the parts that extractors gather. A text is
-- taken whole; `len` is the parameter that counts its bytes.
pub mod Columns
pub mod Format
pub mod Laws
mod Tests
use text.Mathlib.Text.{◌==◌}
use hitbox.Prelude.{
  ℕ, ◌+◌, ◌*◌, ◌-◌, String, Bool, true, false, ◌&&◌, Option, none, some, List, [], ◌∷◌, ◌++◌,
  length, leb,
}

pub record KeyPart : Type 0 where
  pub key : String
  pub value : Option String

-- `CacheKeyInner`; the shared pointer of `CacheKey` around it is left out.
pub record CacheKey : Type 0 where
  pub parts : List KeyPart
  pub version : ℕ
  pub prefix : String
  pub content_size : ℕ

abbrev pub new_part : String → Option String → KeyPart
new_part key value = record { key = key; value = value }

-- The derived equality.
abbrev pub same_number : ℕ → ℕ → Bool
same_number a b = leb a b && leb b a

abbrev pub same_value : Option String → Option String → Bool
same_value none none = true
same_value none (some w) = false
same_value (some v) none = false
same_value (some v) (some w) = v == w

abbrev pub same_part : KeyPart → KeyPart → Bool
same_part a b = (a.key == b.key) && same_value a.value b.value

abbrev pub same_parts : List KeyPart → List KeyPart → Bool
same_parts [] [] = true
same_parts [] (b ∷ bs) = false
same_parts (a ∷ as_) [] = false
same_parts (a ∷ as_) (b ∷ bs) = same_part a b && same_parts as_ bs

unfoldable pub same_key : CacheKey → CacheKey → Bool
same_key a b =
    same_parts a.parts b.parts
    && (same_number a.version b.version
        && ((a.prefix == b.prefix) && same_number a.content_size b.content_size))

-- What a small string keeps on the heap: nothing up to 23 bytes.
abbrev pub heap_size : ℕ → ℕ
heap_size n = n - 23

abbrev pub slice_parts : List (String × Option String) → List KeyPart
slice_parts [] = []
slice_parts ((key, value) ∷ parts) = new_part key value ∷ slice_parts parts

module _ (len : String → ℕ) where
  abbrev pub value_size : Option String → ℕ
  value_size none = 0
  value_size (some v) = heap_size (len v)

  abbrev pub parts_size : List KeyPart → ℕ
  parts_size [] = 0
  parts_size (p ∷ ps) = (heap_size (len p.key) + value_size p.value) + parts_size ps

  unfoldable pub calculate_content_size : String → List KeyPart → ℕ
  calculate_content_size prefix parts = heap_size (len prefix) + parts_size parts

  unfoldable pub new : String → ℕ → List KeyPart → CacheKey
  unfolding calculate_content_size
  new prefix version parts = record {
    parts = parts;
    version = version;
    prefix = prefix;
    content_size = calculate_content_size prefix parts;
  }

  unfoldable pub from_str : String → String → CacheKey
  unfolding calculate_content_size
  from_str key value =
      let parts = new_part key (some value) ∷ [] in
      record {
        parts = parts;
        version = 0;
        prefix = "";
        content_size = calculate_content_size "" parts;
      }

  unfoldable pub from_slice : List (String × Option String) → CacheKey
  unfolding calculate_content_size
  from_slice pairs =
      let parts = slice_parts pairs in
      record {
        parts = parts;
        version = 0;
        prefix = "";
        content_size = calculate_content_size "" parts;
      }

-- `memory_size`, by the sizes of a usize, of `CacheKeyInner` and of `KeyPart`.
unfoldable pub memory_size : ℕ → ℕ → ℕ → CacheKey → ℕ
memory_size usize inner part key =
    ((2 * usize + inner) + length key.parts * part) + key.content_size

-- What an extractor gives: the subject and the parts of its key so far.
pub record KeyParts (T : Type 0) : Type 0 where
  pub subject : T
  pub parts : List KeyPart

module _ {T : Type 0} where
  abbrev pub new_parts : T → KeyParts T
  new_parts subject = record { subject = subject; parts = [] }

  abbrev pub push : KeyParts T → KeyPart → KeyParts T
  push k part = record k { parts = k.parts ++ (part ∷ []) }

  abbrev pub append : KeyParts T → List KeyPart → KeyParts T
  append k more = record k { parts = k.parts ++ more }

  unfoldable pub into_cache_key : (String → ℕ) → KeyParts T → T × CacheKey
  unfolding calculate_content_size
  into_cache_key len k = (
    k.subject,
    record {
      parts = k.parts;
      version = 0;
      prefix = "";
      content_size = calculate_content_size len "" k.parts;
    },
  )
