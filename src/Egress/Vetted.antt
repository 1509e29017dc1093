-- ===== src/Egress/Vetted.antt =====
-- crates/sa-tools/src/egress.rs: which requests are ever sent.
use mathlib.Core.Path.{subst}
use mathlib.Core.Option.{some-injective}
use secretagent_rust_agent.Base.{
  ℕ, zero, suc, ◌+◌, ◌≤◌, String, ◌≡◌, refl, true, false, ◌&&◌, ◌||◌, not, List, [], ◌∷◌, Option,
  none, some, Outcome, ok, err, ◌==◌, find, length, ◌⊎◌, inl, inr, All, arith, Bool-cases, eq_iff,
}
use secretagent_rust_agent.Types.{Tainted}
use secretagent_rust_agent.Text.Words.{is_empty}
use secretagent_rust_agent.Policy.{Policy, egress_allowed}
use secretagent_rust_agent.Egress.Addresses.{IpAddr, is_blocked_ip, ip_explicitly_allowed}
use secretagent_rust_agent.Egress.{
  max_redirects, Url, EgressRequest, Response, Net, Sent, Wire, is_some, vet_host, vet, found,
  permitted, pick_allowed_addr, Next, go_on, redirect, answered, send_to, looked_up, at_port,
  vetted, hop, too_many, hops, request_url, egress_request,
}

-- A URL that the guard lets through, with its host.
abbrev pub IsVettedUrl : Policy → Url → String → Type 0
IsVettedUrl policy url host =
    ((url.scheme ≡ "http") ⊎ (url.scheme ≡ "https"))
    × (is_empty url.username ≡ true)
    × (is_some url.password ≡ false)
    × (url.host ≡ some host)
    × (egress_allowed policy host ≡ true)

vet_host-cases :
    (Q : Outcome String → Type 0) (policy : Policy) (o : Option String)
    → ((e : String) → Q (err e))
    → ((host : String) → o ≡ some host → egress_allowed policy host ≡ true → Q (ok host))
    → Q (vet_host policy o)
vet_host-cases Q policy none f k = f _
vet_host-cases Q policy (some host) f k = elim (Bool-cases (egress_allowed policy host)) [
  | inl e ↦ rw e (k host refl e)
  | inr e ↦ rw e (f _)
]

vet-cases :
    (Q : Outcome String → Type 0) (policy : Policy) (url : Url)
    → ((e : String) → Q (err e))
    → ((host : String) → IsVettedUrl policy url host → Q (ok host))
    → Q (vet policy url)
unfolding vet
vet-cases Q policy url f k =
    elim (Bool-cases (not (url.scheme == "http") && not (url.scheme == "https"))) [
      | inl e ↦ rw e (f _)
      | inr e ↦ elim (Bool-cases (not (is_empty url.username) || is_some url.password)) [
        | inl u ↦ rw (e, u) (f _)
        | inr u ↦
            rw (e, u)
              (vet_host-cases Q policy url.host f (λ host at allowed. k host (
                ground (arith, e, eq_iff url.scheme "http", eq_iff url.scheme "https"),
                ground (arith, u),
                ground (arith, u),
                at,
                allowed,
              )))
      ]
    ]

module _ {World : Type 0} (net : Net World) (policy : Policy) where
  -- A request to a URL that passed the guard, pinned to an address that is not blocked or that the
  -- operator listed as such.
  abbrev pub IsVetted : Sent → Type 0
  IsVetted s =
      IsVettedUrl policy s.url s.host
      × ((is_blocked_ip s.address ≡ false)
          ⊎ (ip_explicitly_allowed net.parse_ip policy s.address ≡ true))

  -- All requests so far are vetted, and at most `n` came behind those of `w`.
  abbrev Sound : ℕ → Wire World → Outcome (Tainted String) × Wire World → Type 0
  Sound n w r = All IsVetted r.1.sent × (length r.1.sent ≤ length w.sent + n)

  abbrev SoundNext : ℕ → Next net policy → Type 0
  SoundNext n next = (url : Url) (w : Wire World) → All IsVetted w.sent → Sound n w (next url w)

  stays : (n : ℕ) (w : Wire World) → length w.sent ≤ length w.sent + n
  stays n w = omega arith

  go_on-Sound :
      (n : ℕ) (next : Next net policy) (r : Outcome Url)
      → SoundNext n next
      → SoundNext n (go_on net policy next r)
  go_on-Sound n next (err e) k url w a = (a, stays n w)
  go_on-Sound n next (ok target) k url w a = k target w a

  redirect-Sound :
      (n : ℕ) (next : Next net policy) (loc : Option String)
      → SoundNext n next
      → SoundNext n (redirect net policy next loc)
  redirect-Sound n next none k url w a = (a, stays n w)
  redirect-Sound n next (some loc) k url w a = go_on-Sound n next (net.join_url url loc) k url w a

  answered-Sound :
      (n : ℕ) (next : Next net policy) (url : Url) (host : String) (r : Outcome Response)
      (w : Wire World)
      → SoundNext n next
      → All IsVetted w.sent
      → Sound n w (answered net policy next url host r w)
  answered-Sound n next url host (err e) w k a = (a, stays n w)
  answered-Sound n next url host (ok resp) w k a = elim (Bool-cases resp.is_redirection) [
    | inl e ↦ rw e (redirect-Sound n next resp.location k url w a)
    | inr e ↦ rw e (a, stays n w)
  ]

  find-permitted :
      (ips : List IpAddr) (ip : IpAddr)
      → find (permitted net policy) ips ≡ some ip
      → permitted net policy ip ≡ true
  find-permitted [] ip = λ h. cc
  find-permitted (i ∷ ips) ip = elim (Bool-cases (permitted net policy i)) [
    | inl e ↦ rw e (λ h. subst (λ j. permitted net policy j ≡ true) (some-injective _ _ h) e)
    | inr e ↦ rw e (find-permitted ips ip)
  ]

  found-ok : (host : String) (o : Option IpAddr) (ip : IpAddr) → found host o ≡ ok ip → o ≡ some ip
  found-ok host none ip h = cc
  found-ok host (some i) ip h = cc

  pick-permitted :
      (host : String) (ips : List IpAddr) (ip : IpAddr)
      → pick_allowed_addr net policy host ips ≡ ok ip
      → permitted net policy ip ≡ true
  unfolding pick_allowed_addr
  pick-permitted host [] ip h = cc
  pick-permitted host (i ∷ ips) ip h =
      find-permitted (i ∷ ips) ip (found-ok host (find (permitted net policy) (i ∷ ips)) ip h)

  send_to-Sound :
      (n : ℕ) (req : EgressRequest) (next : Next net policy) (url : Url) (host : String)
      (r : Outcome IpAddr) (w : Wire World)
      → SoundNext n next
      → IsVettedUrl policy url host
      → ((ip : IpAddr) → r ≡ ok ip → permitted net policy ip ≡ true)
      → All IsVetted w.sent
      → Sound (suc n) w (send_to net policy req next url host r w)
  send_to-Sound n req next url host (err e) w k v p a = (a, stays (suc n) w)
  send_to-Sound n req next url host (ok ip) w k v p a =
      let (b, l) =
        answered-Sound n next url host (net.send req url ip w.world).0
          (record {
            sent = record { url = url; host = host; address = ip } ∷ w.sent;
            world = (net.send req url ip w.world).1;
          })
          k ((v, ground (arith, p ip refl)), a) in
      (b, omega (arith, l))

  looked_up-Sound :
      (n : ℕ) (req : EgressRequest) (next : Next net policy) (url : Url) (host : String)
      (r : Outcome (List IpAddr)) (w : Wire World)
      → SoundNext n next
      → IsVettedUrl policy url host
      → All IsVetted w.sent
      → Sound (suc n) w (looked_up net policy req next url host r w)
  looked_up-Sound n req next url host (err e) w k v a = (a, stays (suc n) w)
  looked_up-Sound n req next url host (ok ips) w k v a =
      send_to-Sound n req next url host (pick_allowed_addr net policy host ips) w k v
        (pick-permitted host ips) a

  at_port-Sound :
      (n : ℕ) (req : EgressRequest) (next : Next net policy) (url : Url) (host : String)
      (port : Option ℕ) (w : Wire World)
      → SoundNext n next
      → IsVettedUrl policy url host
      → All IsVetted w.sent
      → Sound (suc n) w (at_port net policy req next url host port w)
  at_port-Sound n req next url host none w k v a = (a, stays (suc n) w)
  at_port-Sound n req next url host (some port) w k v a =
      looked_up-Sound n req next url host (net.lookup_host host port w.world).0
        (record w { world = (net.lookup_host host port w.world).1 }) k v a

  hop-Sound :
      (n : ℕ) (req : EgressRequest) (next : Next net policy)
      → SoundNext n next
      → SoundNext (suc n) (hop net policy req next)
  unfolding hop
  hop-Sound n req next k url w a =
      vet-cases (λ r. Sound (suc n) w (vetted net policy req next url r w)) policy url
        (λ e. (a, stays (suc n) w)) (λ host v. at_port-Sound n req next url host url.port w k v a)

  hops-Sound : (left : ℕ) (req : EgressRequest) → SoundNext (suc left) (hops net policy req left)
  unfolding hops
  hops-Sound zero req = hop-Sound zero req (too_many net policy) (λ url w a. (a, stays 0 w))
  hops-Sound (suc left) req =
      hop-Sound (suc left) req (hops net policy req left) (hops-Sound left req)

  request-Sound :
      (req : EgressRequest) (r : Outcome Url) (w : Wire World)
      → All IsVetted w.sent
      → Sound 6 w (request_url net policy req r w)
  request-Sound req (err e) w a = (a, stays 6 w)
  request-Sound req (ok url) w a = hops-Sound max_redirects req url w a

  -- Whatever a name resolves to and wherever servers redirect, each request that is sent has the scheme
  -- http or https and no user information, goes to a host on the operator's list, and is pinned to an
  -- address outside the blocked ranges, or one that the list has as an address; and there are at most
  -- six of them.
  pub egress_request-IsVetted :
      (req : EgressRequest) (world : World)
      → All IsVetted (egress_request net policy req (record { sent = []; world = world })).1.sent
        × (length (egress_request net policy req (record { sent = []; world = world })).1.sent ≤ 6)
  unfolding egress_request
  egress_request-IsVetted req world =
      request-Sound req (net.parse_url req.url) (record { sent = []; world = world }) tt
