-- ===== src/Connectors/Slack/Refines.antt =====
-- crates/sa-connectors/src/slack.rs: the receive loop against a description without ring and buffer.
use secretagent_rust_agent.Base.{
  ℕ, zero, suc, ◌+◌, ◌-◌, ◌*◌, ◌≤◌, ◌<◌, ◌≡◌, refl, sym, ap, ◌∙◌, true, List, [], ◌∷◌, ◌++◌, length,
  ◌⊎◌, inl, inr, if◌then◌else◌, arith, Outcome, ok, err,
}
use secretagent_rust_agent.Json.{Json}
use secretagent_rust_agent.Connectors.{InboundMsg}
use secretagent_rust_agent.Connectors.Received.{Received, waiting, messages_of}
use secretagent_rust_agent.Connectors.Slack.{
  SlackConnector, seen_cap, Input, connect_ws, with_ws, on_frame, turn, recv, pop_or,
}
use secretagent_rust_agent.Connectors.Slack.Expected.{
  Turned, frame_turn, acked, first_messages, due, recv_times, pending,
}
use secretagent_rust_agent.Connectors.Slack.Steps.{Steps, on_frame-Steps}

List-cases {ℓ} : {A : Type ℓ} (xs : List A) → (xs ≡ []) ⊎ ((x : A) × (ys : List A) × (xs ≡ x ∷ ys))
List-cases [] = inl refl
List-cases (x ∷ xs) = inr (x, xs, refl)

module _ (j : Json) where
  open j use {Value, from_str}

  -- One call of recv delivers what was due, keeps the rest due, and makes progress.
  record Delivers (c : SlackConnector) (inputs : List (Input j)) (r : Received) (d : SlackConnector)
      (rest : List (Input j)) : Type 0 where
    kept : messages_of r ++ due j d rest ≡ due j c inputs
    fits : length d.seen + length rest ≤ length c.seen + length inputs
    progress : pending j d rest ≤ pending j c inputs - 1

  Delivers-step :
      (c d e : SlackConnector) (i : Input j) (inputs rest : List (Input j)) (r : Received)
      (t : Turned j)
      → c.buf ≡ []
      → Steps j (record c { ws = true }) d t
      → due j c (i ∷ inputs) ≡ first_messages j c.id c.seen (t.1 ++ acked j t.0 inputs)
      → Delivers d inputs r e rest
      → Delivers c (i ∷ inputs) r e rest
  unfolding due
  Delivers-step c d e i inputs rest r t h s spec del = record {
    kept =
        del.kept
        ∙ ap (λ ws. d.buf ++ first_messages j d.id d.seen (acked j ws inputs)) s.ws_is
        ∙ s.delivers (acked j t.0 inputs)
        ∙ sym spec;
    fits = omega (arith, del.fits, s.seen_le);
    progress = omega (arith, del.progress, s.buf_le);
  }

  Delivers-pop_or :
      (c : SlackConnector) (inputs : List (Input j)) (buf : List InboundMsg)
      (r : Received × SlackConnector × List (Input j))
      → c.buf ≡ buf
      → (c.buf ≡ [] → Delivers c inputs r.0 r.1 r.2)
      → let (m, d, rest) = pop_or j c inputs buf r in Delivers c inputs m d rest
  unfolding due
  Delivers-pop_or c inputs [] r h next = next h
  Delivers-pop_or c inputs (m ∷ buf) r h next = record {
    kept = rw h refl;
    fits = omega arith;
    progress = rw h (omega arith);
  }

  Delivers-turn :
      (c : SlackConnector) (i : Input j) (inputs : List (Input j)) (o : Outcome (Unit {0}))
      → c.buf ≡ []
      → length c.seen < seen_cap
      → (if c.ws then ok tt else connect_ws j i) ≡ o
      → ((d : SlackConnector)
          → length d.seen ≤ suc (length c.seen)
          → let (r, e, rest) = recv j d inputs in Delivers d inputs r e rest)
      → let (r, e, rest) = turn j c i inputs o (λ d. recv j d inputs) in
        Delivers c (i ∷ inputs) r e rest
  unfolding turn due acked
  Delivers-turn c i inputs (err e) h room w next = record {
    kept = rw (w, h) refl;
    fits = omega arith;
    progress = rw h (omega arith);
  }
  Delivers-turn c i inputs (ok u) h room w next =
      let s = on_frame-Steps j c i.ack_is_sent i.frame h room in
      let d = on_frame j (record c { ws = true }) i.ack_is_sent i.frame in
      let (r, e, rest) = recv j d inputs in
      Delivers-step c d e i inputs rest r (frame_turn j i.ack_is_sent i.frame) h s (rw (w, h) refl)
        (next d s.seen_le)

  recv-Delivers :
      (c : SlackConnector) (inputs : List (Input j))
      → length c.seen + length inputs ≤ seen_cap
      → let (r, d, rest) = recv j c inputs in Delivers c inputs r d rest
  unfolding recv with_ws due acked
  recv-Delivers c [] room =
      Delivers-pop_or c [] c.buf (waiting, c, []) refl
        (λ h. record { kept = refl; fits = omega arith; progress = rw h (omega arith) })
  recv-Delivers c (i ∷ inputs) room =
      Delivers-pop_or c (i ∷ inputs) c.buf
        (turn j c i inputs (with_ws j c i) (λ d. recv j d inputs)) refl
        (λ h.
          Delivers-turn c i inputs (with_ws j c i) h (omega (arith, room)) refl
            (λ d le. recv-Delivers d inputs (omega (arith, room, le))))

  none_due :
      (c : SlackConnector) (inputs : List (Input j)) → pending j c inputs ≤ 0 → due j c inputs ≡ []
  unfolding due acked first_messages
  none_due c [] h = elim (List-cases c.buf) [
    | inl e ↦ rw e refl
    | inr (m, buf, e) ↦ absurd (omega (arith, h, ap length e))
  ]
  none_due c (i ∷ inputs) h = absurd (omega (arith, h))

  -- Calls of recv return, in order, a message of each envelope that is acknowledged and not known,
  -- if it has one, and none a second time: with room in the ring for all inputs, and as many calls
  -- as twice the inputs and the messages that are buffered.
  pub recv_times-first_messages :
      (n : ℕ) (c : SlackConnector) (inputs : List (Input j))
      → length c.seen + length inputs ≤ seen_cap
      → 2 * length inputs + length c.buf ≤ n
      → (recv_times j n c inputs).0 ≡ c.buf ++ first_messages j c.id c.seen (acked j c.ws inputs)
  unfolding recv_times due
  recv_times-first_messages zero c inputs room h = sym (none_due c inputs h)
  recv_times-first_messages (suc n) c inputs room h =
      let (r, d, rest) = recv j c inputs in
      let del = recv-Delivers c inputs room in
      ap (λ ms. messages_of r ++ ms)
        (recv_times-first_messages n d rest (omega (arith, room, del.fits))
          (omega (arith, h, del.progress)))
      ∙ del.kept
