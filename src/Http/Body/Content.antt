-- ===== src/Http/Body/Content.antt =====
-- The content of a body: its bytes in order and the error that ends it, which forgets where the
-- frames are cut, the trailers and what a failed stream would give after its error.
use hitbox.Prelude.{Option, none, some, [], ◌++◌}
use hitbox.Http.Body.{
  Bytes, data_, trailers, Stream, ended, frame, failed, Remaining, body, error, BufferedBody,
  complete, partial, passthrough,
}

abbrev pub prefix_bytes : Option Bytes → Bytes
prefix_bytes none = []
prefix_bytes (some b) = b

module _ {E : Type 0} where
  abbrev pub stream_content : Stream E → Bytes × Option E
  stream_content ended = ([], none)
  stream_content (frame (data_ d) rest) = (d ++ (stream_content rest).0, (stream_content rest).1)
  stream_content (frame (trailers t) rest) = stream_content rest
  stream_content (failed e rest) = ([], some e)

  abbrev pub remaining_content : Remaining E → Bytes × Option E
  remaining_content (body b) = stream_content b
  remaining_content (error e) = ([], e)

  abbrev pub content : BufferedBody E → Bytes × Option E
  content (complete d) = (prefix_bytes d, none)
  content (partial p) = (
    prefix_bytes p.prefix ++ (remaining_content p.remaining).0,
    (remaining_content p.remaining).1,
  )
  content (passthrough b) = stream_content b
