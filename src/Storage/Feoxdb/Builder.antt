-- ===== src/Storage/Feoxdb/Builder.antt =====
-- hitbox-feoxdb/src/backend.rs: the builder of a FeOxDB backend. The builder of stores and the paths of
-- the file system are parameters, and so is the serializer that a builder starts with.
use hitbox.Prelude.{ℕ, String, Bool, true, Option, none, some, ◌≡◌, refl, if◌then◌else◌}
use hitbox.Core.Context.{BackendLabel}
use hitbox.Core.Response.{Result, ok, err}
use hitbox.Composition.Backend.Packed.{passthrough}
use hitbox.Key.Format.{CacheKeyFormat, bitcode}
use hitbox.Backend.{Format, Compressor}

-- `FeoxStore::builder()` and what it sets, and `PathBuf`; an error is its message.
pub record StoreBuilder (P B S : Type 0) : Type 0 where
  pub new : B
  pub enable_ttl : Bool → B → B
  pub device_path : String → B → B
  pub file_size : ℕ → B → B
  pub max_memory : ℕ → B → B
  pub build : B → Result String S
  pub is_dir : P → Bool
  pub push : P → String → P
  pub to_string_lossy : P → String

pub record FeOxDbBackend (S C : Type 0) : Type 0 where
  pub store : S
  pub key_format : CacheKeyFormat
  pub serializer : Format C
  pub compressor : Compressor
  pub label : BackendLabel

pub record FeOxDbBackendBuilder (P C : Type 0) : Type 0 where
  pub path : Option P
  pub max_file_size : Option ℕ
  pub max_memory : Option ℕ
  pub key_format : CacheKeyFormat
  pub serializer : Format C
  pub compressor : Compressor
  pub label : BackendLabel

module _ {P C : Type 0} where
  unfoldable pub default_builder : Format C → FeOxDbBackendBuilder P C
  default_builder json = record {
    path = none;
    max_file_size = none;
    max_memory = none;
    key_format = bitcode;
    serializer = json;
    compressor = passthrough;
    label = record { name = "feoxdb" };
  }

  unfoldable pub with_path : P → FeOxDbBackendBuilder P C → FeOxDbBackendBuilder P C
  with_path path b = record b { path = some path }

  unfoldable pub with_max_file_size : ℕ → FeOxDbBackendBuilder P C → FeOxDbBackendBuilder P C
  with_max_file_size bytes b = record b { max_file_size = some bytes }

  unfoldable pub with_max_memory : ℕ → FeOxDbBackendBuilder P C → FeOxDbBackendBuilder P C
  with_max_memory bytes b = record b { max_memory = some bytes }

  unfoldable pub with_key_format :
      CacheKeyFormat → FeOxDbBackendBuilder P C → FeOxDbBackendBuilder P C
  with_key_format format b = record b { key_format = format }

  unfoldable pub with_label : BackendLabel → FeOxDbBackendBuilder P C → FeOxDbBackendBuilder P C
  with_label label b = record b { label = label }

  unfoldable pub with_value_format :
      {C' : Type 0} → Format C' → FeOxDbBackendBuilder P C → FeOxDbBackendBuilder P C'
  with_value_format serializer b = record {
    path = b.path;
    max_file_size = b.max_file_size;
    max_memory = b.max_memory;
    key_format = b.key_format;
    serializer = serializer;
    compressor = b.compressor;
    label = b.label;
  }

  unfoldable pub with_compressor : Compressor → FeOxDbBackendBuilder P C → FeOxDbBackendBuilder P C
  with_compressor compressor b = record b { compressor = compressor }

-- `if let Some(n) = option { builder = builder.set(n) }`
abbrev set_if : {B : Type 0} → Option ℕ → (ℕ → B → B) → B → B
set_if none set builder = builder
set_if (some n) set builder = set n builder

abbrev map_ok : {A B : Type 0} → (A → B) → Result String A → Result String B
map_ok f (ok a) = ok (f a)
map_ok f (err e) = err e

module _ {P B S : Type 0} (f : StoreBuilder P B S) where
  -- A directory stands for the file `cache.db` in it.
  abbrev device : P → String
  device path = f.to_string_lossy (if f.is_dir path then f.push path "cache.db" else path)

  abbrev at_path : Option P → B → B
  at_path none builder = builder
  at_path (some path) builder = f.device_path (device path) builder

  module _ {C : Type 0} where
    abbrev backend_of : FeOxDbBackendBuilder P C → S → FeOxDbBackend S C
    backend_of b store = record {
      store = store;
      key_format = b.key_format;
      serializer = b.serializer;
      compressor = b.compressor;
      label = b.label;
    }

    unfoldable pub build : FeOxDbBackendBuilder P C → Result String (FeOxDbBackend S C)
    build b = map_ok (backend_of b) (
        f.build (
          set_if b.max_memory f.max_memory
            (set_if b.max_file_size f.file_size (at_path b.path (f.enable_ttl true f.new)))))

    unfoldable pub in_memory : Format C → Result String (FeOxDbBackend S C)
    in_memory json =
        map_ok
          (λ store. record {
            store = store;
            key_format = bitcode;
            serializer = json;
            compressor = passthrough;
            label = record { name = "feoxdb" };
          })
          (f.build (f.enable_ttl true f.new))

    -- A builder that nothing was set on builds what `in_memory` does.
    pub build-in_memory : (json : Format C) → build (default_builder json) ≡ in_memory json
    unfolding build in_memory default_builder
    build-in_memory json = refl
