-- ===== src/Http/Samples.antt =====
-- Requests and responses of hitbox-http on small values: texts in the order of their characters.
use Prim.Native.Char.{code}
use Prim.Native.String.{String}
use Prim.Native.Nat.{compare, Ordering}
use text.Mathlib.TextEquality.{codes_equal}
use text.Mathlib.Text.{◌==◌ as same_text}
use hitbox.Prelude.{
  ℕ, ◌+◌, length, Bool, true, false, ◌&&◌, none, some, List, [], ◌∷◌, ltb, leb, if◌then◌else◌, ◌≡◌,
  ◌≢◌, refl, ap, arith,
}
use hitbox.Core.Policy.{cacheable}
use hitbox.Core.Predicate.{neutral}
use hitbox.Key.{new, new_part}
use hitbox.Http.Heads.{Headers, StatusClasses, Head, OneOf, QueryValue, scalar, array}
use hitbox.Http.Heads.Laws.{HeadOperation}
use hitbox.Http.Heads.Laws as Heads
use hitbox.Http.Extractors.{Texts, starts, full, lowercase, query_parts, Request, neutral_extractor}
use hitbox.Http.Extractors.Order.{IsOrder, swapped, query_parts-Reordered}
use hitbox.Http.Extractors.Laws.{Part, of_head}
use hitbox.Http.Body.{
  HttpBody, with_exact, BufferedBody, complete, passthrough, frame, data_, ended,
}
use hitbox.Http.Body.Content.{stream_content}
use hitbox.Http.Body.Collect.{collect}
use hitbox.Http.Body.Whole.{outcome}
use hitbox.Http.BodyExtractor.{BodyText, null, BodyExtraction, extracted_parts}
use hitbox.Http.BodyExtractor.Chains.{Step, from_head, whole_body, chain_of}
use hitbox.Http.Response.{request_cache_policy}
use hitbox.Http.Response.Chains.{on_head, request_cache_policy-chains}

-- The order of texts by the numbers of their characters.
abbrev by_codes : String → String → Bool
by_codes String.[] t = true
by_codes (String.◌∷◌ c s) String.[] = false
by_codes (String.◌∷◌ c s) (String.◌∷◌ d t) =
    let rest = by_codes s t in
    if ltb (code c) (code d) then true else (if ltb (code d) (code c) then false else rest)

total : (a b : String) → by_codes a b ≡ false → by_codes b a ≡ true
total String.[] b h = absurd (ground (arith, h))
total (String.◌∷◌ c s) String.[] h = refl
total (String.◌∷◌ c s) (String.◌∷◌ d t) h = ground (arith, h, total s t)

trans : (a b c : String) → by_codes a b ≡ true → by_codes b c ≡ true → by_codes a c ≡ true
trans String.[] b c h k = refl
trans (String.◌∷◌ x s) String.[] c h k = absurd (ground (arith, h))
trans (String.◌∷◌ x s) (String.◌∷◌ y t) String.[] h k = absurd (ground (arith, k))
trans (String.◌∷◌ x s) (String.◌∷◌ y t) (String.◌∷◌ z u) h k = ground (arith, h, k, trans s t u)

no_larger : (m n : ℕ) → ltb m n ≡ false → ltb n m ≡ false → compare m n ≡ Ordering.eq
no_larger m n h k = ground (arith, h, k)

antisym : (a b : String) → by_codes a b ≡ true → by_codes b a ≡ true → a ≡ b
antisym String.[] String.[] h k = refl
antisym String.[] (String.◌∷◌ d t) h k = absurd (ground (arith, k))
antisym (String.◌∷◌ c s) String.[] h k = absurd (ground (arith, h))
antisym (String.◌∷◌ c s) (String.◌∷◌ d t) h k =
    let up : ltb (code c) (code d) ≡ false = ground (arith, h, k) in
    let down : ltb (code d) (code c) ≡ false = ground (arith, h, k) in
    let head = codes_equal c d (no_larger (code c) (code d) up down) in
    let rest = antisym s t (ground (arith, h, up, down)) (ground (arith, k, up, down)) in
    λ i. String.◌∷◌ (head i) (rest i)

order : IsOrder by_codes
order = record { total = total; antisym = antisym; trans = trans }

abbrev texts : Texts String
texts = record {
  captures = λ r s. none;
  apply_hash = λ s. s;
  to_lowercase = λ s. s;
  to_uppercase = λ s. s;
  starts_with = λ prefix s. same_text prefix "";
  le = by_codes;
}

-- `?a=1&b[]=2&b[]=3` in the two orders of a map.
abbrev a_b : List (String × QueryValue)
a_b = ("a", scalar "1") ∷ (("b", array ("2" ∷ "3" ∷ [])) ∷ [])

abbrev b_a : List (String × QueryValue)
b_a = ("b", array ("2" ∷ "3" ∷ [])) ∷ (("a", scalar "1") ∷ [])

a_differs : ◌≢◌ {A = String} "a" "b"
a_differs e = absurd (ground (arith, ap (λ s. same_text s "b") e))

query_parts-Reordered_example :
    query_parts texts full (lowercase ∷ []) (starts "") a_b
    ≡ query_parts texts full (lowercase ∷ []) (starts "") b_a
query_parts-Reordered_example =
    query_parts-Reordered texts order full (lowercase ∷ []) "" a_b b_a (swapped a_differs)

-- A request is a method and a path.
abbrev head : Head (String × String) String String String ℕ
head = record {
  method = λ s. s.0;
  same_method = same_text;
  path = λ s. s.1;
  is_match_path = same_text;
  query = λ s. none;
  parse_query = λ q. none;
  headers = λ s. 0;
  version = λ s. "HTTP/1.1";
  same_version = same_text;
  status = λ s. 0;
}

abbrev no_headers : Headers ℕ String String String
no_headers = record {
  get = λ m name. none;
  get_all = λ m name. [];
  same_header = same_text;
  to_str = some;
  has_text = same_text;
  is_match = same_text;
}

abbrev hundreds : ℕ → ℕ → Bool
hundreds from code = leb from code && ltb code (from + 100)

abbrev classes : StatusClasses
classes = record {
  is_informational = hundreds 100;
  is_success = hundreds 200;
  is_redirection = hundreds 300;
  is_client_error = hundreds 400;
  is_server_error = hundreds 500;
}

abbrev request : Request (String × String) String
request = record {
  method = λ s. s.0;
  version = λ s. "HTTP/1.1";
  query = λ s. none;
  parse_query = λ q. none;
  headers = λ s. [];
  get_header = λ s name. none;
  captured = λ resource s. ("path", s.1) ∷ [];
}

abbrev ops : List (HeadOperation String String String String String String)
ops = HeadOperation.method (OneOf.eq "GET") ∷ (HeadOperation.path "/books" ∷ [])

abbrev no_json : BodyText ℕ String String String
no_json = record {
  from_utf8_lossy = λ bytes. "text";
  view = λ n. null;
  to_string = λ n. "n";
  from_str = λ s. none;
  json_null = 0;
  run = λ filter n. n ∷ [];
  capture_names = λ r. [];
  captures = λ r s. some s;
  captures_iter = λ r s. s ∷ [];
  name = λ caps s. none;
  get = λ caps n. some caps;
}

abbrev whole_streams : HttpBody ℕ
whole_streams = record {
  size_hint = λ s. with_exact (length (stream_content s).0);
  is_end_stream = λ s. false;
  collect = λ s. outcome (stream_content s);
}

-- The method, a hash of the body, and the path.
abbrev steps : List (Step String String String String)
steps =
    from_head Part.method ∷ (whole_body BodyExtraction.hash ∷ (from_head (Part.path "/books") ∷ []))

abbrev posted : BufferedBody ℕ
posted = passthrough (frame (data_ (1 ∷ [])) (frame (data_ (2 ∷ [])) ended))

request_cache_policy-chains_example :
    request_cache_policy
      (λ s. 5)
      (Heads.chain_of (on_head head) no_headers classes ops neutral)
      (chain_of whole_streams request texts texts no_json steps
        (neutral_extractor (of_head request) texts))
      (("GET", "/books"), posted)
    ≡ cacheable (
      new
          (λ s. 5)
          ""
          0
          (new_part "method" (some "GET")
            ∷ (new_part "body" (some "text") ∷ (new_part "path" (some "/books") ∷ []))),
      (("GET", "/books"), complete (some (1 ∷ 2 ∷ []))),
    )
unfolding collect extracted_parts
request_cache_policy-chains_example =
    request_cache_policy-chains whole_streams head no_headers classes request texts texts no_json
      (λ s. 5) ops steps ("GET", "/books") posted
