-- ===== src/Tools/Network.antt =====
-- crates/sa-tools/src/tools/http_request.rs, web_search.rs and web_extract.rs. The guard of requests
-- (Egress) is a parameter here, as is the URL parser's encoder for a query.
use Prim.Native.Char.{Char, code}
use secretagent_rust_agent.Base.{
  String, Bool, ◌||◌, List, [], ◌∷◌, Option, none, some, Outcome, ok, err, format, unwrap_or,
  nat_eq, ◌==◌, if◌then◌else◌,
}
use secretagent_rust_agent.Types.{Tainted, detaint}
use secretagent_rust_agent.Json.{Json, get_str}
use secretagent_rust_agent.Policy.{Policy}
use secretagent_rust_agent.Egress.{EgressRequest}
use secretagent_rust_agent.Tools.Html.{strip_html}

-- The character of the second text at the place where the first one has `c`.
abbrev at_place : Char → String → String → Char
at_place c String.[] to = c
at_place c (String.◌∷◌ d from) String.[] = c
at_place c (String.◌∷◌ d from) (String.◌∷◌ e to) =
    let later = at_place c from to in if nat_eq (code c) (code d) then e else later

unfoldable pub to_ascii_uppercase : String → String
to_ascii_uppercase String.[] = ""
to_ascii_uppercase (String.◌∷◌ c s) =
    String.◌∷◌ (at_place c "abcdefghijklmnopqrstuvwxyz" "ABCDEFGHIJKLMNOPQRSTUVWXYZ")
      (to_ascii_uppercase s)

abbrev is_method : String → Bool
is_method m =
    m == "GET" || m == "POST" || m == "PUT" || m == "PATCH" || m == "DELETE" || m == "HEAD"

abbrev checked_method : String → Outcome String
checked_method m =
    if is_method m then ok m else err (format ("http_request: unsupported method '" ∷ m ∷ "'" ∷ []))

unfoldable pub parse_method : String → Outcome String
unfolding to_ascii_uppercase
parse_method m = checked_method (to_ascii_uppercase m)

pub record WebSearch : Type 0 where
  pub endpoint : String
  pub api_key : Option String

-- `guard` is egress_request for a policy; `append_query` parses an endpoint and adds `q=`.
module _ (j : Json) {World : Type 0}
    (guard : Policy → EgressRequest → World → Outcome (Tainted String) × World)
    (append_query : String → String → Outcome String) where
  open j use {Value}

  abbrev pub Asked : Type 0
  Asked = Outcome String × World

  abbrev pub body_of : Outcome (Tainted String) × World → Outcome String × World
  unfolding detaint
  body_of (err e, w) = (err e, w)
  body_of (ok t, w) = (ok (detaint t "core re-taints tool output at the registry boundary"), w)

  abbrev pub with_method :
      String → Option String → Policy → World → Outcome String → Outcome String × World
  unfolding body_of
  with_method url body policy w (err e) = (err e, w)
  with_method url body policy w (ok method) =
      body_of (guard policy (record { method = method; url = url; headers = []; body = body }) w)

  abbrev pub http_to : Value → Policy → World → Option String → Outcome String × World
  unfolding with_method parse_method
  http_to args policy w none = (err "http_request: missing 'url'", w)
  http_to args policy w (some url) =
      with_method url (get_str j args "body") policy w
        (parse_method (unwrap_or (get_str j args "method") "GET"))

  unfoldable pub run_http_request : Value → Policy → World → Outcome String × World
  unfolding http_to
  run_http_request args policy w = http_to args policy w (get_str j args "url")

  abbrev pub key_headers : Option String → List (String × String)
  key_headers none = []
  key_headers (some k) = ("Authorization", format ("Bearer " ∷ k ∷ [])) ∷ []

  unfoldable pub build_url : WebSearch → String → Outcome String
  build_url t query = prefixed (append_query t.endpoint query)
    where
      prefixed : Outcome String → Outcome String
      prefixed (err e) = err (format ("web_search: bad search_url: " ∷ e ∷ []))
      prefixed (ok u) = ok u

  abbrev pub search_at : WebSearch → Policy → World → Outcome String → Outcome String × World
  unfolding body_of
  search_at t policy w (err e) = (err e, w)
  search_at t policy w (ok url) = body_of (
      guard policy
        (record { method = "GET"; url = url; headers = key_headers t.api_key; body = none }) w)

  abbrev pub search_for : WebSearch → Policy → World → Option String → Outcome String × World
  unfolding search_at build_url
  search_for t policy w none = (err "web_search: missing 'query'", w)
  search_for t policy w (some query) = search_at t policy w (build_url t query)

  unfoldable pub run_web_search : WebSearch → Value → Policy → World → Outcome String × World
  unfolding search_for
  run_web_search t args policy w = search_for t policy w (get_str j args "query")

  abbrev pub stripped : Outcome String × World → Outcome String × World
  unfolding strip_html
  stripped (err e, w) = (err e, w)
  stripped (ok html, w) = (ok (strip_html html), w)

  abbrev pub extract_from : Policy → World → Option String → Outcome String × World
  unfolding stripped body_of
  extract_from policy w none = (err "web_extract: missing 'url'", w)
  extract_from policy w (some url) =
      stripped
        (body_of (guard policy (record { method = "GET"; url = url; headers = []; body = none }) w))

  unfoldable pub run_web_extract : Value → Policy → World → Outcome String × World
  unfolding extract_from
  run_web_extract args policy w = extract_from policy w (get_str j args "url")
