-- ===== src/Config/Samples.antt =====
-- Libraries for configured predicates and extractors, and a subject of which the method and the
-- status are known.
use text.Mathlib.Text.{◌==◌ as same_text}
use hitbox.Prelude.{ℕ, String, true, false, none, some, [], ◌∷◌, leb, ◌&&◌, length}
use hitbox.Core.Response.{ok}
use hitbox.Http.Body.{with_exact, BufferedBody, complete}
use hitbox.Http.Body.Content.{stream_content}
use hitbox.Http.Body.Whole.{outcome}
use hitbox.Http.Response.{http_11}
use hitbox.Http.Extractors.{Texts, Request}
use hitbox.Http.BodyExtractor.{BodyText, null}
use hitbox.Config.Leaves.{Libraries}
use hitbox.Config.Extractors.{Compilers}

-- The parts of a subject are its method and its status.
abbrev pub Parts : Type 0
Parts = String × ℕ

abbrev pub lib : Libraries ℕ Parts String String ℕ String String String ℕ ℕ ℕ
lib = record {
  heads = record {
    parse_method = λ m. some m;
    parse_name = λ n. some n;
    parse_value = λ v. some v;
    new_regex = λ r. none;
    resource = λ p. p;
    to_uppercase = λ t. t;
  };
  head = record {
    method = λ s. s.0.0;
    same_method = same_text;
    path = λ s. "/books";
    is_match_path = same_text;
    query = λ s. none;
    parse_query = λ q. none;
    headers = λ s. 0;
    version = λ s. http_11;
    same_version = λ a b. true;
    status = λ s. s.0.1;
  };
  map_ = record {
    get = λ m name. none;
    get_all = λ m name. [];
    same_header = λ a b. false;
    to_str = λ v. none;
    has_text = λ a b. false;
    is_match = λ r s. false;
  };
  classes = record {
    is_informational = λ code. false;
    is_success = λ code. leb 200 code && leb code 299;
    is_redirection = λ code. false;
    is_client_error = λ code. false;
    is_server_error = λ code. false;
  };
  from_u16 = λ code. some code;
  bodies = record { bytes_of = λ s. []; new_regex = λ s. none; compile = λ s. ok 0; json_true = 1 };
  http = record {
    size_hint = λ s. with_exact (length (stream_content s).0);
    is_end_stream = λ s. false;
    collect = λ s. outcome (stream_content s);
  };
  jaq = record {
    from_slice = λ bytes. none;
    run = λ filter json. none;
    is_null = λ json. false;
    array = λ jsons. 0;
    same_json = λ a b. false;
  };
  is_match = λ r bytes. false;
}

abbrev pub subject : Parts × BufferedBody ℕ
subject = (("GET", 200), complete (some (1 ∷ 2 ∷ [])))

abbrev pub texts : Texts String
texts = record {
  captures = λ r s. some (none, s);
  apply_hash = λ s. s;
  to_lowercase = λ s. s;
  to_uppercase = λ s. s;
  starts_with = λ prefix s. true;
  le = λ a b. true;
}

abbrev pub body_text : BodyText ℕ ℕ String String
body_text = record {
  from_utf8_lossy = λ bytes. "text";
  view = λ n. null;
  to_string = λ n. "n";
  from_str = λ s. none;
  json_null = 0;
  run = λ filter n. n ∷ [];
  capture_names = λ r. [];
  captures = λ r s. some s;
  captures_iter = λ r s. s ∷ [];
  name = λ caps s. none;
  get = λ caps n. some caps;
}

abbrev pub compilers : Compilers String String ℕ
compilers = record { new_regex = λ r. some r; compile = λ s. ok 0; resource = λ p. p }

abbrev pub request : Request Parts String
request = record {
  method = λ s. s.0;
  version = λ s. "HTTP/1.1";
  query = λ s. none;
  parse_query = λ q. none;
  headers = λ s. [];
  get_header = λ s name. some (some "a");
  captured = λ resource s. ("path", "/books") ∷ [];
}
