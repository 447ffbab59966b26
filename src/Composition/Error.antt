-- ===== src/Composition/Error.antt =====
-- hitbox-backend/src/error.rs and `CompositionError` of hitbox-backend/src/composition/mod.rs.
-- The boxed cause of an error is its message, but for `BothLayersFailed`, which keeps both errors.
use Prim.Native.String.{◌++◌}
use hitbox.Prelude.{String}

pub data BackendError : Type 0 where
  internal_error : String → BackendError
  connection_error : String → BackendError
  format_error : String → BackendError
  compression_error : String → BackendError
  both_layers_failed : BackendError → BackendError → BackendError

-- `Display`, which shows the cause.
abbrev pub message : BackendError → String
message (internal_error cause) = cause
message (connection_error cause) = cause
message (format_error cause) = cause
message (compression_error cause) = cause
message (both_layers_failed e1 e2) =
    "Both cache layers failed - L1: " ++ message e1 ++ ", L2: " ++ message e2
