-- ===== src/Egress/Tests.antt =====
-- crates/sa-tools/src/egress.rs: sample addresses, and a host that redirects to itself for ever.
use secretagent_rust_agent.Base.{
  ℕ, ◌≤◌, ◌≡◌, refl, true, false, [], ◌∷◌, none, some, ok, length, All,
}
use secretagent_rust_agent.Policy.{Policy}
use secretagent_rust_agent.Egress.Addresses.{
  v4, v6, is_blocked_ip, is_blocked_v4, is_blocked_v6, is_mapped,
}
use secretagent_rust_agent.Egress.{Url, EgressRequest, Response, Net, egress_request}
use secretagent_rust_agent.Egress.Vetted.{IsVetted, egress_request-IsVetted}

-- tests: the metadata service, also behind a mapped address, and the edges of two ranges
metadata_is_blocked : is_blocked_ip (v4 169 254 169 254) ≡ true
unfolding is_blocked_ip is_blocked_v4
metadata_is_blocked = refl

mapped_is_blocked : is_blocked_ip (v6 0 0 0 0 0 65535 43518 43518) ≡ true
unfolding is_blocked_ip is_blocked_v4 is_mapped
mapped_is_blocked = refl

public_is_not_blocked : is_blocked_ip (v4 172 32 0 1) ≡ false
unfolding is_blocked_ip is_blocked_v4
public_is_not_blocked = refl

unique_local_is_blocked : is_blocked_ip (v6 64768 0 0 0 0 0 0 1) ≡ true
unfolding is_blocked_ip is_blocked_v6 is_mapped
unique_local_is_blocked = refl

abbrev page : Url
page = record {
  scheme = "https";
  username = "";
  password = none;
  host = some "example.org";
  port = some 443;
  rest = "/";
}

abbrev moved : Response
moved = record { is_redirection = true; location = some "/"; status_error = none; chunks = [] }

abbrev sample : Net (Unit {0})
sample = record {
  parse_url = λ s. ok page;
  join_url = λ url loc. ok page;
  parse_ip = λ s. none;
  lookup_host = λ host port w. (ok (v4 93 184 216 34 ∷ []), w);
  send = λ req url ip w. (ok moved, w);
  from_utf8_lossy = λ bytes. "";
}

abbrev listed : Policy
listed = record { egress_allow = "example.org" ∷ []; read_roots = []; write_roots = [] }

abbrev get_page : EgressRequest
get_page = record { method = "GET"; url = "https://example.org/"; headers = []; body = none }

egress_request-IsVetted_example :
    All
      (IsVetted sample listed)
      (egress_request sample listed get_page (record { sent = []; world = tt })).1.sent
    × (length (egress_request sample listed get_page (record { sent = []; world = tt })).1.sent ≤ 6)
egress_request-IsVetted_example = egress_request-IsVetted sample listed get_page tt

-- The requests to the host that always redirects.
abbrev request_count : ℕ
request_count =
    length (egress_request sample listed get_page (record { sent = []; world = tt })).1.sent
