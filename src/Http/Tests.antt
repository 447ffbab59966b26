-- ===== src/Http/Tests.antt =====
-- The crate hitbox-http on small bodies, requests and keys: a stream of two chunks with trailers
-- between them, which ends or fails.
use hitbox.Prelude.{
  ℕ, String, Bool, true, false, Option, none, some, [], ◌∷◌, ◌==◌, length, ◌≡◌, refl, ◌↔◌, arith,
}
use hitbox.Http.Body.{
  Bytes, data_, trailers, Stream, ended, frame, failed, HttpBody, with_exact, body, BufferedBody,
  partial, passthrough, new_partial, poll_frame, size_hint,
}
use hitbox.Http.Body.Content.{stream_content, content}
use hitbox.Http.Body.Collect.{into_buffered_body, collect_exact, collect}
use hitbox.Http.Body.Laws.{collect_exact-content}
use hitbox.Http.Body.Replay.{Polls, poll_frame-Polls, polls, read_all, read_all-content}
use hitbox.Http.Body.Whole.{Bounds, size_hint-Bounds, outcome, gathered, collect-gathered}
use hitbox.Http.Plain.{ends, streaming_search, check_plain}
use hitbox.Http.Plain.Streams.{Searched, streaming_search-Searched}
use hitbox.Http.Plain.Laws.{is_cacheable, Matches, check_plain-Matches}
use hitbox.Http.Operation.{Jaq, check_limit, limit_result}
use hitbox.Http.Operation.Laws.{Within, check_limit-Within}
use hitbox.Key.{new_parts}
use hitbox.Http.Extractors.{Texts}
use hitbox.Http.BodyExtractor.{BodyText, null, BodyExtraction, body_extractor}
use hitbox.Http.BodyExtractor.Laws.{body_extractor-content}
use hitbox.Http.Response.{CacheableHttpResponse, http_2, into_cached}
use hitbox.Http.Response.Laws.{Kept, from_cached-into_cached}

-- `[1, 2]`, trailers and `[3]`; then an error or the end.
abbrev failing : Stream ℕ
failing = frame (data_ (1 ∷ 2 ∷ [])) (frame (trailers []) (frame (data_ (3 ∷ [])) (failed 7 ended)))

abbrev whole : Stream ℕ
whole = frame (data_ (1 ∷ 2 ∷ [])) (frame (trailers []) (frame (data_ (3 ∷ [])) ended))

abbrev replayed : BufferedBody ℕ
replayed = partial (new_partial (some (9 ∷ [])) (body failing))

-- A library that knows the length of its bodies.
abbrev exact_http : HttpBody ℕ
exact_http = record {
  size_hint = λ s. with_exact (length (stream_content s).0);
  is_end_stream = λ s. false;
  collect = λ s. outcome (stream_content s);
}

collect_exact-content_example :
    content (into_buffered_body (collect_exact replayed 3)) ≡ content replayed
collect_exact-content_example = collect_exact-content replayed 3

read_all-content_example : read_all (polls replayed) replayed ≡ some (content replayed)
read_all-content_example = read_all-content replayed

poll_frame-Polls_example :
    Polls
      (poll_frame (passthrough failing)).0
      (content (passthrough failing))
      (content (poll_frame (passthrough failing)).1)
poll_frame-Polls_example = poll_frame-Polls (passthrough failing)

exact-Bounds : (s : Stream ℕ) → Bounds (exact_http.size_hint s) (length (stream_content s).0)
exact-Bounds s = (omega arith, omega arith)

size_hint-Bounds_example : Bounds (size_hint exact_http replayed) (length (content replayed).0)
size_hint-Bounds_example = size_hint-Bounds exact_http exact-Bounds replayed (ground arith)

collect-gathered_example :
    collect exact_http replayed ≡ gathered (some (9 ∷ [])) false (9 ∷ 1 ∷ 2 ∷ 3 ∷ [], some 7)
collect-gathered_example = collect-gathered exact_http (λ s. refl) replayed

-- The pattern `[2, 3]` lies across the two chunks.
streaming_search-Searched_example :
    Searched
      (2 ∷ 3 ∷ [])
      (content (passthrough whole))
      (streaming_search (passthrough whole) (2 ∷ 3 ∷ []))
streaming_search-Searched_example = streaming_search-Searched (passthrough whole) (2 ∷ 3 ∷ [])

abbrev never : String → Bytes → Bool
never expression bytes = false

check_plain-Matches_example :
    is_cacheable (check_plain exact_http never (ends (3 ∷ [])) (passthrough whole)) ≡ true
    ↔ Matches never (ends (3 ∷ [])) (1 ∷ 2 ∷ 3 ∷ [])
unfolding collect
check_plain-Matches_example =
    check_plain-Matches exact_http never (λ s. refl) (ends (3 ∷ [])) (passthrough whole)
      (1 ∷ 2 ∷ 3 ∷ []) refl

check_limit-Within_example : Within 3 (content (passthrough whole))
unfolding check_limit size_hint limit_result collect_exact
check_limit-Within_example = check_limit-Within exact_http 3 (passthrough whole) (omega arith) refl

-- Numbers as JSON values, read of the first byte.
abbrev first_byte : Bytes → Option ℕ
first_byte [] = none
first_byte (b ∷ bs) = some b

abbrev numbers : Jaq ℕ String
numbers = record {
  from_slice = first_byte;
  run = λ filter v. some (v ∷ []);
  is_null = λ v. v == 0;
  array = length;
  same_json = ◌==◌;
}

abbrev found_response : CacheableHttpResponse ℕ String ℕ
found_response = record {
  parts = record { status = 200; version = http_2; headers = "etag: 1"; extensions = 5 };
  body = passthrough whole;
}

from_cached-into_cached_example :
    Kept exact_http (λ s. refl) 0 found_response (into_cached exact_http found_response)
from_cached-into_cached_example = from_cached-into_cached exact_http (λ s. refl) 0 found_response

-- A filter is a text, a match is the whole text.
abbrev plain_texts : Texts String
plain_texts = record {
  captures = λ r s. some (none, s);
  apply_hash = λ s. s;
  to_lowercase = λ s. s;
  to_uppercase = λ s. s;
  starts_with = λ prefix s. true;
  le = λ a b. true;
}

abbrev body_text : BodyText ℕ String String String
body_text = record {
  from_utf8_lossy = λ bytes. "text";
  view = λ n. null;
  to_string = λ n. "n";
  from_str = λ s. none;
  json_null = 0;
  run = λ filter n. n ∷ [];
  capture_names = λ r. [];
  captures = λ r s. some s;
  captures_iter = λ r s. s ∷ [];
  name = λ caps s. none;
  get = λ caps n. some caps;
}

-- The stream of two chunks, and the same bytes with the first chunk read before.
abbrev at_once : String × BufferedBody ℕ
at_once = ("POST", passthrough whole)

abbrev read_before : String × BufferedBody ℕ
read_before =
    ("POST", partial (new_partial (some (1 ∷ 2 ∷ [])) (body (frame (data_ (3 ∷ [])) ended))))

body_extractor-content_example :
    body_extractor plain_texts body_text exact_http BodyExtraction.hash new_parts at_once
    ≡ body_extractor plain_texts body_text exact_http BodyExtraction.hash new_parts read_before
unfolding collect
body_extractor-content_example =
    body_extractor-content exact_http plain_texts body_text (λ s. refl) BodyExtraction.hash
      new_parts "POST" at_once.1 read_before.1 (1 ∷ 2 ∷ 3 ∷ []) (1 ∷ 2 ∷ 3 ∷ []) refl refl refl
