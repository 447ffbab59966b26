-- ===== src/Config/Error.antt =====
-- hitbox-configuration/src/error.rs: the errors of a configuration, without the errors of the
-- libraries inside them.
use hitbox.Prelude.{ℕ, String, Option, none, some}
use hitbox.Core.Response.{Result, ok, err}

pub data ConfigError : Type 0 where
  yaml : String → ConfigError
  invalid_header_name : String → ConfigError
  invalid_header_value : String → ConfigError
  invalid_method : String → ConfigError
  invalid_status_code : ℕ → ConfigError
  invalid_version : String → ConfigError
  invalid_regex : String → ConfigError
  invalid_predicate : String → ConfigError
  backend_not_available : String → ConfigError
  empty_path_list : ConfigError

-- `.map_err(...)` on what a library parsed.
abbrev pub or_error : {A : Type 0} → ConfigError → Option A → Result ConfigError A
or_error e none = err e
or_error e (some a) = ok a
