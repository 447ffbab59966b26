-- ===== src/Offload/Tasks.antt =====
-- hitbox/src/offload/manager.rs: the keys of the offloaded tasks, and the map from keys to handles.
use text.Mathlib.Text.{◌==◌}
use hitbox.Prelude.{
  ℕ, String, Bool, true, false, ◌&&◌, Option, none, some, List, [], ◌∷◌, if◌then◌else◌, leb,
}

pub data OffloadKey (K : Type 0) : Type 0 where
  cache : K → OffloadKey K
  generated : String → ℕ → OffloadKey K

module _ {K : Type 0} where
  abbrev pub is_cache : OffloadKey K → Bool
  is_cache (cache k) = true
  is_cache (generated kind id) = false

  unfoldable pub key_type : OffloadKey K → String
  key_type (cache k) = "cache"
  key_type (generated kind id) = kind

module _ {K : Type 0} (same : K → K → Bool) where
  -- The derived equality.
  abbrev pub same_key : OffloadKey K → OffloadKey K → Bool
  same_key (cache k) (cache j) = same k j
  same_key (cache k) (generated kind id) = false
  same_key (generated kind id) (cache k) = false
  same_key (generated kind id) (generated kind' id') = (kind == kind') && (leb id id' && leb id' id)

  module _ {H : Type 0} where
    -- `get`, `insert` and `remove` of the concurrent map.
    abbrev pub find : OffloadKey K → List (OffloadKey K × H) → Option H
    find key [] = none
    find key ((key', handle) ∷ ts) = if same_key key' key then some handle else find key ts

    abbrev pub remove : OffloadKey K → List (OffloadKey K × H) → List (OffloadKey K × H)
    remove key [] = []
    remove key ((key', handle) ∷ ts) =
        let rest = remove key ts in if same_key key' key then rest else (key', handle) ∷ rest

    abbrev pub insert : OffloadKey K → H → List (OffloadKey K × H) → List (OffloadKey K × H)
    insert key handle ts = (key, handle) ∷ remove key ts

abbrev pub is_some : {A : Type 0} → Option A → Bool
is_some none = false
is_some (some a) = true
