-- ===== src/Key/Laws.antt =====
-- What hitbox-core/src/key.rs and hitbox-backend/src/key.rs promise of keys.
use text.Mathlib.Text.{◌==◌}
use text.Mathlib.TextEquality.{eq_iff}
use hitbox.Prelude.{
  ℕ, String, true, false, Bool-cases, Option, none, some, List, [], ◌∷◌, ◌++◌, if◌then◌else◌, All,
  ◌≡◌, ◌≢◌, refl, sym, ap, ◌∙◌, ◌↔◌, inl, inr, arith,
}
use mathlib.Core.List.{append_assoc, append-nil}
use hitbox.Core.Response.{Result, ok, err, chain}
use hitbox.Key.{KeyPart, CacheKey, new_part, same_value, same_part, same_parts, same_key, new}
use hitbox.Key.Format.{
  url_encoded, KeyCodec, FormatError, serialize_, prefix_key, version_key, or_empty, part_pairs,
  Read, map_err, pairs, serialize, read_version, read_pair, read_pairs, read_input, finish,
  deserialize,
}

same_value_iff : (v w : Option String) → same_value v w ≡ true ↔ v ≡ w
same_value_iff none none = ground arith
same_value_iff none (some w) = ground arith
same_value_iff (some v) none = ground arith
same_value_iff (some v) (some w) = ground (arith, eq_iff v w)

same_part_iff : (a b : KeyPart) → same_part a b ≡ true ↔ a ≡ b
same_part_iff a b = (
  λ h.
      let key = (eq_iff a.key b.key).0 (ground (arith, h)) in
      let value = (same_value_iff a.value b.value).0 (ground (arith, h)) in
      λ i. new_part (key i) (value i),
  λ e. ap (λ x. same_part x b) e ∙ same_part_refl b,
)
  where
    same_part_refl : (b : KeyPart) → same_part b b ≡ true
    same_part_refl b = ground (arith, eq_iff b.key b.key, same_value_iff b.value b.value)

same_parts-eq : (as_ bs : List KeyPart) → same_parts as_ bs ≡ true → as_ ≡ bs
same_parts-eq [] [] h = refl
same_parts-eq [] (b ∷ bs) h = absurd (ground (arith, h))
same_parts-eq (a ∷ as_) [] h = absurd (ground (arith, h))
same_parts-eq (a ∷ as_) (b ∷ bs) h =
    let head = (same_part_iff a b).0 (ground (arith, h)) in
    let rest = same_parts-eq as_ bs (ground (arith, h)) in λ i. head i ∷ rest i

same_parts_refl : (as_ : List KeyPart) → same_parts as_ as_ ≡ true
same_parts_refl [] = refl
same_parts_refl (a ∷ as_) = ground (arith, (same_part_iff a a).1 refl, same_parts_refl as_)

module _ (len : String → ℕ) where
  same_key_refl : (k : CacheKey) → same_key k k ≡ true
  unfolding same_key
  same_key_refl k = ground (arith, same_parts_refl k.parts, eq_iff k.prefix k.prefix)

  -- Two keys made of a prefix, a version and parts are equal just if they agree in these: the size
  -- that is stored with them, which the comparison reads too, never tells them apart.
  pub same_key_iff :
      (prefix prefix' : String) (version version' : ℕ) (parts parts' : List KeyPart)
      → same_key (new len prefix version parts) (new len prefix' version' parts') ≡ true
        ↔ (prefix ≡ prefix') × (version ≡ version') × (parts ≡ parts')
  unfolding new same_key
  same_key_iff prefix prefix' version version' parts parts' = (
    λ h. (
      (eq_iff prefix prefix').0 (ground (arith, h)),
      ground (arith, h),
      same_parts-eq parts parts' (ground (arith, h)),
    ),
    λ (e, f, g).
        ap (λ k. same_key k (new len prefix' version' parts')) (λ i. new len (e i) (f i) (g i))
        ∙ same_key_refl (new len prefix' version' parts'),
  )

read_value :
    (value : Option String)
    → value ≢ some ""
    → (if or_empty value == "" then none else some (or_empty value)) ≡ value
read_value none h = refl
read_value (some v) h = elim (Bool-cases (v == "")) [
  | inl e ↦ absurd (h (ap some ((eq_iff v "").0 e)))
  | inr e ↦ ap (λ b. if b then none else some v) e
]

map_err-ok :
    {A Failure : Type 0} (f : Failure → FormatError Failure) (r : Result Failure A) (a : A)
    → map_err f r ≡ ok a
    → r ≡ ok a
map_err-ok f (ok b) a h = ground (arith, h)
map_err-ok f (err e) a h = absurd (ground (arith, h))

module _ {Bytes Failure : Type 0} (codec : KeyCodec Bytes Failure) (len : String → ℕ) where
  -- A part that the text form can tell from the prefix and the version, without an empty value.
  abbrev pub IsPlain : KeyPart → Type 0
  IsPlain p =
      ((p.key == prefix_key) ≡ false) × ((p.key == version_key) ≡ false) × (p.value ≢ some "")

  read_pair-part :
      (p : KeyPart) (r : Read)
      → IsPlain p
      → read_pair codec (p.key, or_empty p.value) r ≡ ok (record r { parts = r.parts ++ (p ∷ []) })
  unfolding read_pair
  read_pair-part p r h = ground (arith, h.0, h.1, read_value p.value h.2)

  read_pairs-parts :
      (ps : List KeyPart) (r : Read)
      → All IsPlain ps
      → read_pairs codec (part_pairs ps) r ≡ ok (record r { parts = r.parts ++ ps })
  unfolding read_pairs read_pair
  read_pairs-parts [] r h = ap (λ parts. ok (record r { parts = parts })) (sym (append-nil r.parts))
  read_pairs-parts (p ∷ ps) r h =
      ap (λ x. chain x (read_pairs codec (part_pairs ps))) (read_pair-part p r h.0)
      ∙ read_pairs-parts ps (record r { parts = r.parts ++ (p ∷ []) }) h.1
      ∙ ap (λ parts. ok (record r { parts = parts })) (append_assoc r.parts (p ∷ []) ps)

  -- A key that is written as text is read back as it was, where no part has the name of the prefix
  -- or of the version and none has an empty value: the library is taken to read back the pairs it
  -- wrote, and the version's number to be read back from its digits.
  pub deserialize-serialize_key :
      (prefix : String) (version : ℕ) (parts : List KeyPart) (text : Bytes)
      → All IsPlain parts
      → codec.parse (codec.show version) ≡ ok version
      → ((ps : List (String × String)) (out : Bytes)
          → codec.to_string ps ≡ ok out
          → codec.from_str out ≡ ok ps)
      → serialize codec url_encoded (new len prefix version parts) ≡ ok text
      → deserialize codec len url_encoded text ≡ ok (new len prefix version parts)
  unfolding serialize deserialize new
  deserialize-serialize_key prefix version parts text plain digits reads written =
      let key = new len prefix version parts in
      let start : Read = record { prefix = prefix; version = version; parts = [] } in
      ap (read_input codec len) (
        reads (pairs codec key) text
          (map_err-ok serialize_ (codec.to_string (pairs codec key)) text written))
      ∙ ap
          (λ v. finish codec len (
            chain (read_version codec (record start { version = 0 }) v)
              (read_pairs codec (part_pairs parts))))
          digits
      ∙ ap (finish codec len) (read_pairs-parts parts start plain)

  -- The text form does not tell a part without a value from a part with an empty one: the keys that
  -- differ in that alone are written as the same text, though the keys are not equal.
  pub serialize-empty :
      (prefix key : String) (version : ℕ) (parts : List KeyPart)
      → (serialize codec url_encoded (new len prefix version (new_part key none ∷ parts))
          ≡ serialize codec url_encoded (new len prefix version (new_part key (some "") ∷ parts)))
        × (same_key
              (new len prefix version (new_part key none ∷ parts))
              (new len prefix version (new_part key (some "") ∷ parts))
            ≡ false)
  unfolding serialize pairs new same_key
  serialize-empty prefix key version parts = (refl, ground (arith, eq_iff key key))
