-- ===== src/Egress.antt =====
-- crates/sa-tools/src/egress.rs: the guard that every request of a tool passes. The URL parser, name
-- resolution and the HTTP client are parameters.
pub mod Addresses
pub mod Vetted
mod Tests
use secretagent_rust_agent.Base.{
  ℕ, zero, suc, ◌+◌, String, Bool, true, false, ◌&&◌, ◌||◌, not, List, [], ◌∷◌, ◌++◌, Option, none,
  some, Outcome, ok, err, ◌==◌, find, ltb, length, if◌then◌else◌, format,
}
use secretagent_rust_agent.Types.{Tainted, taint}
use secretagent_rust_agent.Text.Words.{is_empty, decimal}
use secretagent_rust_agent.Policy.{Policy, egress_allowed}
use secretagent_rust_agent.Egress.Addresses.{IpAddr, is_blocked_ip, ip_explicitly_allowed}

abbrev pub max_redirects : ℕ
max_redirects = 5

abbrev pub max_body : ℕ
max_body = 8388608

-- A parsed URL; the port is the one given or the one known for the scheme.
pub record Url : Type 0 where
  pub scheme : String
  pub username : String
  pub password : Option String
  pub host : Option String
  pub port : Option ℕ
  pub rest : String

pub record EgressRequest : Type 0 where
  pub method : String
  pub url : String
  pub headers : List (String × String)
  pub body : Option String

-- `error_for_status` is an error or none; the chunks of the body arrive in order, or fail.
pub record Response : Type 0 where
  pub is_redirection : Bool
  pub location : Option String
  pub status_error : Option String
  pub chunks : List (Outcome (List ℕ))

pub record Net (World : Type 0) : Type 0 where
  pub parse_url : String → Outcome Url
  pub join_url : Url → String → Outcome Url
  pub parse_ip : String → Option IpAddr
  pub lookup_host : String → ℕ → World → Outcome (List IpAddr) × World
  pub send : EgressRequest → Url → IpAddr → World → Outcome Response × World
  pub from_utf8_lossy : List ℕ → String

-- A request that was sent: its URL, the host and the address it was pinned to.
pub record Sent : Type 0 where
  pub url : Url
  pub host : String
  pub address : IpAddr

-- The requests that were sent, the last one first, and the outside.
pub record Wire (World : Type 0) : Type 0 where
  pub sent : List Sent
  pub world : World

abbrev pub is_some {ℓ} : {A : Type ℓ} → Option A → Bool
is_some none = false
is_some (some a) = true

abbrev pub vet_host : Policy → Option String → Outcome String
vet_host policy none = err "egress denied: URL has no host"
vet_host policy (some host) =
    if egress_allowed policy host then ok host else err (format ("egress denied: " ∷ host ∷ []))

-- The checks of a URL, which return its host.
unfoldable pub vet : Policy → Url → Outcome String
vet policy url =
    if not (url.scheme == "http") && not (url.scheme == "https")
    then err (format ("egress denied: non-http(s) scheme '" ∷ url.scheme ∷ "'" ∷ []))
    else if not (is_empty url.username) || is_some url.password
    then err "egress denied: URL userinfo is not allowed"
    else vet_host policy url.host

abbrev pub found : String → Option IpAddr → Outcome IpAddr
found host none = err (
    format (
      "egress denied: " ∷ host ∷ " resolves only to blocked (private/loopback/link-local) addresses"
      ∷ []))
found host (some ip) = ok ip

-- `read_capped`: the body so far has `size` bytes.
unfoldable pub read_capped : ℕ → List ℕ → List (Outcome (List ℕ)) → Outcome (List ℕ)
read_capped cap buf [] = ok buf
read_capped cap buf (err e ∷ chunks) = err e
read_capped cap buf (ok chunk ∷ chunks) =
    let rest = read_capped cap (buf ++ chunk) chunks in
    if ltb cap (length buf + length chunk)
    then err (format ("egress denied: response body exceeds " ∷ decimal cap ∷ " bytes" ∷ []))
    else rest

module _ {World : Type 0} (net : Net World) (policy : Policy) where
  -- The first address that is not blocked, or that the operator listed as such.
  abbrev pub permitted : IpAddr → Bool
  permitted ip = not (is_blocked_ip ip) || ip_explicitly_allowed net.parse_ip policy ip

  unfoldable pub pick_allowed_addr : String → List IpAddr → Outcome IpAddr
  pick_allowed_addr host [] = err (format ("egress denied: " ∷ host ∷ " did not resolve" ∷ []))
  pick_allowed_addr host (ip ∷ ips) = found host (find permitted (ip ∷ ips))

  abbrev pub Next : Type 0
  Next = Url → Wire World → Outcome (Tainted String) × Wire World

  abbrev pub as_tainted : String → Outcome (List ℕ) → Outcome (Tainted String)
  as_tainted host (err e) = err e
  as_tainted host (ok bytes) =
      ok (taint (net.from_utf8_lossy bytes) (format ("egress:" ∷ host ∷ [])))

  -- The end of the chain of redirects.
  abbrev pub finish : String → Response → Outcome (Tainted String)
  finish host resp = elim resp.status_error [
    | some e ↦ err e
    | none ↦ as_tainted host (read_capped max_body [] resp.chunks)
  ]

  abbrev pub go_on : Next → Outcome Url → Next
  go_on next (err e) url w = (err (format ("egress: bad redirect target: " ∷ e ∷ [])), w)
  go_on next (ok target) url w = next target w

  abbrev pub redirect : Next → Option String → Next
  redirect next none url w = (err "egress: redirect without a Location header", w)
  redirect next (some loc) url w = go_on next (net.join_url url loc) url w

  abbrev pub answered :
      Next → Url → String → Outcome Response → Wire World → Outcome (Tainted String) × Wire World
  answered next url host (err e) w = (err e, w)
  answered next url host (ok resp) w = elim resp.is_redirection [
    | true ↦ redirect next resp.location url w
    | false ↦ (finish host resp, w)
  ]

  -- The request is pinned to the address that was vetted.
  abbrev pub send_to :
      EgressRequest
      → Next
      → Url
      → String
      → Outcome IpAddr
      → Wire World
      → Outcome (Tainted String) × Wire World
  send_to req next url host (err e) w = (err e, w)
  send_to req next url host (ok ip) w =
      let r = net.send req url ip w.world in
      answered next url host r.0
        (record { sent = record { url = url; host = host; address = ip } ∷ w.sent; world = r.1 })

  abbrev pub looked_up :
      EgressRequest
      → Next
      → Url
      → String
      → Outcome (List IpAddr)
      → Wire World
      → Outcome (Tainted String) × Wire World
  looked_up req next url host (err e) w =
      (err (format ("egress: DNS resolve failed for " ∷ host ∷ ": " ∷ e ∷ [])), w)
  looked_up req next url host (ok ips) w = send_to req next url host (pick_allowed_addr host ips) w

  abbrev pub at_port :
      EgressRequest
      → Next
      → Url
      → String
      → Option ℕ
      → Wire World
      → Outcome (Tainted String) × Wire World
  at_port req next url host none w = (err (format ("egress: no port for " ∷ host ∷ [])), w)
  at_port req next url host (some port) w =
      let r = net.lookup_host host port w.world in
      looked_up req next url host r.0 (record w { world = r.1 })

  abbrev pub vetted :
      EgressRequest
      → Next
      → Url
      → Outcome String
      → Wire World
      → Outcome (Tainted String) × Wire World
  vetted req next url (err e) w = (err e, w)
  vetted req next url (ok host) w = at_port req next url host url.port w

  -- One pass of the loop.
  unfoldable pub hop : EgressRequest → Next → Next
  hop req next url w = vetted req next url (vet policy url) w

  abbrev pub too_many : Next
  too_many url w = (err "egress denied: too many redirects (>5)", w)

  -- The loop, with the redirects that are left.
  unfoldable pub hops : EgressRequest → ℕ → Next
  hops req zero = hop req too_many
  hops req (suc left) = hop req (hops req left)

  abbrev pub request_url :
      EgressRequest → Outcome Url → Wire World → Outcome (Tainted String) × Wire World
  request_url req (err e) w = (err (format ("egress: bad url: " ∷ e ∷ [])), w)
  request_url req (ok url) w = hops req max_redirects url w

  unfoldable pub egress_request : EgressRequest → Wire World → Outcome (Tainted String) × Wire World
  egress_request req w = request_url req (net.parse_url req.url) w

  unfoldable pub egress_get : String → Wire World → Outcome (Tainted String) × Wire World
  egress_get url w =
      egress_request (record { method = "GET"; url = url; headers = []; body = none }) w
