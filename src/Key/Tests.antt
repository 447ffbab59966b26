-- ===== src/Key/Tests.antt =====
-- Keys of hitbox-core/src/key.rs through a library that keeps pairs as they are.
use text.Mathlib.Text.{◌==◌ as same_text}
use hitbox.Prelude.{
  ℕ, zero, suc, String, Bool, false, Option, none, some, List, [], ◌∷◌, if◌then◌else◌, All, ◌≡◌,
  ◌≢◌, refl, ap, arith,
}
use hitbox.Core.Response.{ok, err}
use hitbox.Key.{KeyPart, new_part, new}
use hitbox.Key.Format.{url_encoded, KeyCodec, pairs, serialize, deserialize}
use hitbox.Key.Laws.{IsPlain, deserialize-serialize_key}

abbrev digits : ℕ → String
digits zero = "0"
digits (suc n) = "1"

abbrev kept : KeyCodec (List (String × String)) String
kept = record {
  encode = λ key. [];
  decode = λ out. err "no key";
  to_string = ok;
  from_str = ok;
  show = digits;
  parse = λ s. if same_text s "0" then ok 0 else ok 1;
}

abbrev parts : List KeyPart
parts = new_part "method" (some "GET") ∷ (new_part "id" none ∷ [])

get_differs : ◌≢◌ {A = Option String} (some "GET") (some "")
get_differs e = absurd (ground (arith, ap is_get e))
  where
    is_get : Option String → Bool
    is_get none = false
    is_get (some s) = same_text s "GET"

none_differs : ◌≢◌ {A = Option String} none (some "")
none_differs e = absurd (ground (arith, e))

parts-IsPlain : All (IsPlain kept (λ s. 3)) parts
parts-IsPlain = ((refl, refl, get_differs), ((refl, refl, none_differs), tt))

deserialize-serialize_key_example :
    deserialize kept
      (λ s. 3)
      url_encoded
      (("_prefix", "api") ∷ (("_version", "1") ∷ (("method", "GET") ∷ (("id", "") ∷ []))))
    ≡ ok (new (λ s. 3) "api" 1 parts)
unfolding serialize pairs new
deserialize-serialize_key_example =
    deserialize-serialize_key kept (λ s. 3) "api" 1 parts
      (("_prefix", "api") ∷ (("_version", "1") ∷ (("method", "GET") ∷ (("id", "") ∷ []))))
      parts-IsPlain refl (λ ps out h. ap ok (ground (arith, h))) refl
