-- ===== src/Connectors/Slack/Steps.antt =====
-- crates/sa-connectors/src/slack.rs: a turn of the receive loop against what it should deliver.
use secretagent_rust_agent.Base.{
  suc, ◌≤◌, ◌<◌, String, ◌≡◌, refl, Bool, true, false, List, [], ◌∷◌, ◌++◌, length, contains,
  Bool-cases, inl, inr, ltb, arith, Option, none, some, Outcome, ok, err, length-append,
}
use secretagent_rust_agent.Json.{Json}
use secretagent_rust_agent.Connectors.{InboundMsg}
use secretagent_rust_agent.Connectors.Slack.{
  SlackConnector, seen_cap, trim_ring, note_envelope, Frame, text, no_text, Envelope, hello,
  disconnect, events_api, other, map_message, on_events_api, on_envelope, on_text, on_frame,
  parse_envelope, noted,
}
use secretagent_rust_agent.Connectors.Slack.Expected.{
  Turned, envelope_turn, value_turn, frame_turn, first_messages,
}

module _ (j : Json) where
  open j use {Value, from_str}

  -- What one frame does, from an empty buffer: its envelope, if any, is delivered unless it is known.
  pub record Steps (c d : SlackConnector) (t : Turned j) : Type 0 where
    pub delivers :
        (rest : List (String × Value))
        → d.buf ++ first_messages j d.id d.seen rest ≡ first_messages j c.id c.seen (t.1 ++ rest)
    pub ws_is : d.ws ≡ t.0
    pub seen_le : length d.seen ≤ suc (length c.seen)
    pub buf_le : length d.buf ≤ 1

  pub stays : (c : SlackConnector) (b : Bool) → c.buf ≡ [] → Steps c (record c { ws = b }) (b, [])
  unfolding first_messages
  stays c b h = record {
    delivers = λ rest. rw h refl;
    ws_is = refl;
    seen_le = omega arith;
    buf_le = rw h (omega arith);
  }

  pub push_message :
      (c : SlackConnector) (payload : Value) (id : String) (o : Option InboundMsg)
      → c.buf ≡ []
      → map_message j payload c.id ≡ o
      → contains c.seen id ≡ false
      → length c.seen < seen_cap
      → Steps
          (record c { ws = true })
          (noted j (record c { ws = true }) payload (true, c.seen ++ (id ∷ [])))
          (true, (id, payload) ∷ [])
  unfolding first_messages
  push_message c payload id none h m new room = record {
    delivers = λ rest. rw (new, m, h) refl;
    ws_is = refl;
    seen_le = omega (arith, length-append c.seen (id ∷ []));
    buf_le = rw (m, h) (omega arith);
  }
  push_message c payload id (some msg) h m new room = record {
    delivers = λ rest. rw (new, m, h) refl;
    ws_is = refl;
    seen_le = omega (arith, length-append c.seen (id ∷ []));
    buf_le = rw (m, h) (omega arith);
  }

  pub no_trim : (xs : List String) → length xs ≤ seen_cap → trim_ring seen_cap xs ≡ xs
  no_trim xs h = elim (Bool-cases (ltb seen_cap (length xs))) [
    | inl long ↦ absurd (ground (arith, long, h))
    | inr short ↦ rw short refl
  ]

  pub on_events_api-Steps :
      (c : SlackConnector) (id : String) (payload : Value)
      → c.buf ≡ []
      → length c.seen < seen_cap
      → Steps
          (record c { ws = true })
          (on_events_api j (record c { ws = true }) id payload true)
          (true, (id, payload) ∷ [])
  unfolding on_events_api note_envelope first_messages
  on_events_api-Steps c id payload h room = elim (Bool-cases (contains c.seen id)) [
    | inl old ↦ rw old (record {
      delivers = λ rest. rw (old, h) refl;
      ws_is = refl;
      seen_le = omega arith;
      buf_le = rw h (omega arith);
    })
    | inr new ↦
        rw
          (new, no_trim (c.seen ++ (id ∷ [])) (omega (arith, room, length-append c.seen (id ∷ []))))
          (push_message c payload id (map_message j payload c.id) h refl new room)
  ]

  pub on_envelope-Steps :
      (c : SlackConnector) (sent : Bool) (e : Envelope j)
      → c.buf ≡ []
      → length c.seen < seen_cap
      → Steps
          (record c { ws = true })
          (on_envelope j (record c { ws = true }) sent e)
          (envelope_turn j sent e)
  unfolding on_envelope on_events_api
  on_envelope-Steps c true (events_api id payload) h room = on_events_api-Steps c id payload h room
  on_envelope-Steps c false (events_api id payload) h room = stays (record c { ws = true }) false h
  on_envelope-Steps c true disconnect h room = stays (record c { ws = true }) false h
  on_envelope-Steps c false disconnect h room = stays (record c { ws = true }) false h
  on_envelope-Steps c true hello h room = stays (record c { ws = true }) true h
  on_envelope-Steps c false hello h room = stays (record c { ws = true }) true h
  on_envelope-Steps c true other h room = stays (record c { ws = true }) true h
  on_envelope-Steps c false other h room = stays (record c { ws = true }) true h

  pub on_text-Steps :
      (c : SlackConnector) (sent : Bool) (o : Outcome Value)
      → c.buf ≡ []
      → length c.seen < seen_cap
      → Steps
          (record c { ws = true })
          (on_text j (record c { ws = true }) sent o)
          (value_turn j sent o)
  unfolding on_text
  on_text-Steps c sent (err e) h room = stays (record c { ws = true }) true h
  on_text-Steps c sent (ok v) h room = on_envelope-Steps c sent (parse_envelope j v) h room

  pub on_frame-Steps :
      (c : SlackConnector) (sent : Bool) (f : Option (Option Frame))
      → c.buf ≡ []
      → length c.seen < seen_cap
      → Steps
          (record c { ws = true })
          (on_frame j (record c { ws = true }) sent f)
          (frame_turn j sent f)
  unfolding on_frame
  on_frame-Steps c sent none h room = stays (record c { ws = true }) false h
  on_frame-Steps c sent (some none) h room = stays (record c { ws = true }) false h
  on_frame-Steps c sent (some (some no_text)) h room = stays (record c { ws = true }) true h
  on_frame-Steps c sent (some (some (text t))) h room = on_text-Steps c sent (from_str t) h room
