-- ===== src/Key/Columns.antt =====
-- hitbox-core/src/key.rs: the encoding of the parts of a key by bitcode, which writes each field of
-- all the parts to a column of its own. The columns are the crate's: a parameter.
use hitbox.Prelude.{
  ℕ, zero, suc, length, String, Bool, true, false, Option, none, some, List, [], ◌∷◌, ◌++◌, ◌==◌,
  ◌≡◌, refl, sym, ap, ◌∙◌, arith,
}
use mathlib.Core.List.{append_assoc, append-nil}
use hitbox.Key.{KeyPart, new_part}

-- An encoder and a decoder of a column; `view` collects the one and populates the other.
pub record Column (A : Type 0) : Type 1 where
  pub Encoder : Type 0
  pub Decoder : Type 0
  pub default : Encoder
  pub encode : A → Encoder → Encoder
  pub view : Encoder → Decoder
  pub decode : Decoder → A × Decoder

-- The documented behaviour of a column: what is decoded are the values that were encoded, in order.
pub record IsColumn {A : Type 0} (c : Column A) : Type 0 where
  pub written : c.Encoder → List A
  pub left : c.Decoder → List A
  pub default-written : written c.default ≡ []
  pub encode-written : (a : A) (e : c.Encoder) → written (c.encode a e) ≡ written e ++ (a ∷ [])
  pub view-left : (e : c.Encoder) → left (c.view e) ≡ written e
  pub decode-value :
      (d : c.Decoder) (a : A) (rest : List A) → left d ≡ a ∷ rest → (c.decode d).0 ≡ a
  pub decode-left :
      (d : c.Decoder) (a : A) (rest : List A) → left d ≡ a ∷ rest → left (c.decode d).1 ≡ rest

module _ (text : Column String) (variant : Column ℕ) where
  pub record KeyPartEncoder : Type 0 where
    pub key : text.Encoder
    pub value_variant : variant.Encoder
    pub value_str : text.Encoder

  pub record KeyPartDecoder : Type 0 where
    pub key : text.Decoder
    pub value_variant : variant.Decoder
    pub value_str : text.Decoder

  encode_value : Option String → text.Encoder → text.Encoder
  encode_value none e = e
  encode_value (some v) e = text.encode v e

  is_some : Option String → ℕ
  is_some none = 0
  is_some (some v) = 1

  unfoldable pub encode_part : KeyPart → KeyPartEncoder → KeyPartEncoder
  unfolding encode_value is_some
  encode_part part e = record {
    key = text.encode part.key e.key;
    value_variant = variant.encode (is_some part.value) e.value_variant;
    value_str = encode_value part.value e.value_str;
  }

  unfoldable pub encode_parts : List KeyPart → KeyPartEncoder → KeyPartEncoder
  unfolding encode_part
  encode_parts [] e = e
  encode_parts (p ∷ ps) e = encode_parts ps (encode_part p e)

  -- `KeyPartEncoder::default()`
  abbrev pub new_encoder : KeyPartEncoder
  new_encoder = record {
    key = text.default;
    value_variant = variant.default;
    value_str = text.default;
  }

  -- `collect_into` and `populate`; the third column has a value for each part that has one.
  unfoldable pub populate : KeyPartEncoder → KeyPartDecoder
  populate e = record {
    key = text.view e.key;
    value_variant = variant.view e.value_variant;
    value_str = text.view e.value_str;
  }

  -- The value of a part, by the variant that was read.
  decode_value : Bool → text.Decoder → Option String × text.Decoder
  decode_value true d = (none, d)
  decode_value false d = let (v, d') = text.decode d in (some v, d')

  unfoldable pub decode_part : KeyPartDecoder → KeyPart × KeyPartDecoder
  unfolding decode_value
  decode_part d =
      let (key, d1) = text.decode d.key in
      let (tag, d2) = variant.decode d.value_variant in
      let (value, d3) = decode_value (tag == 0) d.value_str in
      (new_part key value, record { key = d1; value_variant = d2; value_str = d3 })

  unfoldable pub decode_parts : ℕ → KeyPartDecoder → List KeyPart
  unfolding decode_part
  decode_parts zero d = []
  decode_parts (suc n) d = let (p, d') = decode_part d in p ∷ decode_parts n d'

  -- The columns of some parts.
  abbrev keys : List KeyPart → List String
  keys [] = []
  keys (p ∷ ps) = p.key ∷ keys ps

  abbrev tags : List KeyPart → List ℕ
  tags [] = []
  tags (p ∷ ps) = is_some p.value ∷ tags ps

  abbrev with_value : Option String → List String → List String
  with_value none vs = vs
  with_value (some v) vs = v ∷ vs

  abbrev values : List KeyPart → List String
  values [] = []
  values (p ∷ ps) = with_value p.value (values ps)

  module _ (t : IsColumn text) (v : IsColumn variant) where
    -- What is left to decode of some parts.
    Holds : KeyPartDecoder → List KeyPart → Type 0
    Holds d ps =
        (t.left d.key ≡ keys ps)
        × (v.left d.value_variant ≡ tags ps)
        × (t.left d.value_str ≡ values ps)

    decode_value-lem :
        (value : Option String) (tag : ℕ) (d : text.Decoder) (rest : List String)
        → tag ≡ is_some value
        → t.left d ≡ with_value value rest
        → ((decode_value (tag == 0) d).0 ≡ value) × (t.left (decode_value (tag == 0) d).1 ≡ rest)
    unfolding decode_value is_some
    decode_value-lem none tag d rest e h = ground (arith, e, h)
    decode_value-lem (some v) tag d rest e h =
        ground (arith, e, t.decode-value d v rest h, t.decode-left d v rest h)

    decode_part-lem :
        (p : KeyPart) (ps : List KeyPart) (d : KeyPartDecoder)
        → Holds d (p ∷ ps)
        → ((decode_part d).0 ≡ p) × Holds (decode_part d).1 ps
    unfolding decode_part Holds
    decode_part-lem p ps d h =
        let key = t.decode-value d.key p.key (keys ps) h.0 in
        let tag = v.decode-value d.value_variant (is_some p.value) (tags ps) h.1 in
        let value =
          decode_value-lem p.value (variant.decode d.value_variant).0 d.value_str (values ps) tag
            h.2 in
        (
          λ i. new_part (key i) (value.0 i),
          (
            t.decode-left d.key p.key (keys ps) h.0,
            v.decode-left d.value_variant (is_some p.value) (tags ps) h.1,
            value.1,
          ),
        )

    decode_parts-lem :
        (ps : List KeyPart) (d : KeyPartDecoder) → Holds d ps → decode_parts (length ps) d ≡ ps
    unfolding decode_parts
    decode_parts-lem [] d h = refl
    decode_parts-lem (p ∷ ps) d h =
        let (same_part, rest) = decode_part-lem p ps d h in
        λ i. same_part i ∷ decode_parts-lem ps (decode_part d).1 rest i

    Written : KeyPartEncoder → List String → List ℕ → List String → Type 0
    Written e ks ts vs =
        (t.written e.key ≡ ks) × (v.written e.value_variant ≡ ts) × (t.written e.value_str ≡ vs)

    encode_value-lem :
        (value : Option String) (e : text.Encoder) (rest : List String)
        → t.written (encode_value value e) ++ rest ≡ t.written e ++ with_value value rest
    unfolding encode_value
    encode_value-lem none e rest = refl
    encode_value-lem (some x) e rest =
        ap (λ w. w ++ rest) (t.encode-written x e) ∙ append_assoc (t.written e) (x ∷ []) rest

    encode_parts-lem :
        (ps : List KeyPart) (e : KeyPartEncoder)
        → Written
            (encode_parts ps e)
            (t.written e.key ++ keys ps)
            (v.written e.value_variant ++ tags ps)
            (t.written e.value_str ++ values ps)
    unfolding encode_parts Written
    encode_parts-lem [] e = (
      sym (append-nil (t.written e.key)),
      sym (append-nil (v.written e.value_variant)),
      sym (append-nil (t.written e.value_str)),
    )
    encode_parts-lem (p ∷ ps) e =
        let rest = encode_parts-lem ps (encode_part p e) in
        (
          rest.0
              ∙ ap (λ w. w ++ keys ps) (t.encode-written p.key e.key)
              ∙ append_assoc (t.written e.key) (p.key ∷ []) (keys ps),
          rest.1
              ∙ ap (λ w. w ++ tags ps) (v.encode-written (is_some p.value) e.value_variant)
              ∙ append_assoc (v.written e.value_variant) (is_some p.value ∷ []) (tags ps),
          rest.2 ∙ encode_value-lem p.value e.value_str (values ps),
        )

    -- The parts of a key, encoded field by field to columns and decoded from them, are the same
    -- parts in the same order, those without a value among them, where each column gives back what
    -- was written to it.
    pub decode_parts-encode_parts :
        (ps : List KeyPart) → decode_parts (length ps) (populate (encode_parts ps new_encoder)) ≡ ps
    unfolding populate Holds Written
    decode_parts-encode_parts ps =
        let e = encode_parts ps new_encoder in
        let held = encode_parts-lem ps new_encoder in
        decode_parts-lem ps (populate e) (
          t.view-left e.key ∙ held.0 ∙ ap (λ w. w ++ keys ps) t.default-written,
          v.view-left e.value_variant ∙ held.1 ∙ ap (λ w. w ++ tags ps) v.default-written,
          t.view-left e.value_str ∙ held.2 ∙ ap (λ w. w ++ values ps) t.default-written,
        )
