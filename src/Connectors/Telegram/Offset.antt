-- ===== src/Connectors/Telegram/Offset.antt =====
-- crates/sa-connectors/src/telegram.rs: the offset behind the updates that were read.
use secretagent_rust_agent.Base.{
  ℤ, gtb, gtb_trans, gtb_irrefl, gtb_le_trans, String, ◌≡◌, refl, ap, false, List, [], ◌∷◌, ◌++◌,
  Option, none, some, Outcome, ok, err, unwrap_or, All, Bool-cases, inl, inr, pos,
}
use secretagent_rust_agent.Connectors.{InboundMsg}
use secretagent_rust_agent.Connectors.Received.{Received, waiting}
use secretagent_rust_agent.Json.{Json, get_array}
use secretagent_rust_agent.Connectors.Telegram.{
  TelegramConnector, raised, update_id, parse_all, parse_updates, polled, pop_or, turn, recv,
}

raised-le : (x a : ℤ) (o : Option ℤ) → gtb x a ≡ false → gtb x (raised a o) ≡ false
raised-le x a none h = h
raised-le x a (some v) h = elim (Bool-cases (gtb v a)) [
  | inl e ↦ rw e (gtb_trans x a v h e)
  | inr e ↦ rw e h
]

-- An update has no id, or one up to the number.
abbrev pub IdIsUpTo : ℤ → Option ℤ → Type 0
IdIsUpTo m none = Unit
IdIsUpTo m (some uid) = gtb uid m ≡ false

IdIsUpTo-raised : (a : ℤ) (o : Option ℤ) → IdIsUpTo (raised a o) o
IdIsUpTo-raised a none = tt
IdIsUpTo-raised a (some v) = elim (Bool-cases (gtb v a)) [
  | inl e ↦ rw e (gtb_irrefl v)
  | inr e ↦ rw e e
]

IdIsUpTo-le : (m n : ℤ) (o : Option ℤ) → gtb m n ≡ false → IdIsUpTo m o → IdIsUpTo n o
IdIsUpTo-le m n none h k = tt
IdIsUpTo-le m n (some v) h k = gtb_le_trans v m n k h

module _ (j : Json) where
  open j use {Value}

  abbrev pub IsUpTo : ℤ → Value → Type 0
  IsUpTo m u = IdIsUpTo m (update_id j u)

  parse_all-le :
      (connector : String) (x a : ℤ) (us : List Value)
      → gtb x a ≡ false
      → gtb x (parse_all j connector a us).1 ≡ false
  unfolding parse_all
  parse_all-le connector x a [] h = h
  parse_all-le connector x a (u ∷ us) h =
      parse_all-le connector x (raised a (update_id j u)) us (raised-le x a (update_id j u) h)

  parse_all-IsUpTo :
      (connector : String) (a : ℤ) (us : List Value)
      → All (IsUpTo (parse_all j connector a us).1) us
  unfolding parse_all
  parse_all-IsUpTo connector a [] = tt
  parse_all-IsUpTo connector a (u ∷ us) =
      let m = raised a (update_id j u) in
      (
        IdIsUpTo-le m (parse_all j connector m us).1 (update_id j u)
            (parse_all-le connector m m us (gtb_irrefl m)) (IdIsUpTo-raised a (update_id j u)),
        parse_all-IsUpTo connector m us,
      )

  All-IsUpTo-le :
      (m n : ℤ) (us : List Value) → gtb m n ≡ false → All (IsUpTo m) us → All (IsUpTo n) us
  All-IsUpTo-le m n [] h k = tt
  All-IsUpTo-le m n (u ∷ us) h (one, k) =
      (IdIsUpTo-le m n (update_id j u) h one, All-IsUpTo-le m n us h k)

  -- The updates of an answer, none of an error.
  abbrev pub updates : Outcome Value → List Value
  updates (err e) = []
  updates (ok json) = unwrap_or (get_array j json "result") []

  -- The answers that were taken, all of whose updates the offset covers.
  pub record Reads (c : TelegramConnector) (polls : List (Outcome Value)) (d : TelegramConnector)
      (rest : List (Outcome Value)) : Type 0 where
    pub taken : List (Outcome Value)
    pub split : polls ≡ taken ++ rest
    pub covered : All (λ p. All (IsUpTo d.offset) (updates p)) taken
    pub grows : gtb c.offset d.offset ≡ false

  polled-covers :
      (c : TelegramConnector) (json : Value)
      → let d = polled j c (parse_updates j json c.id) in
        All (IsUpTo d.offset) (updates (ok json)) × (gtb c.offset d.offset ≡ false)
  unfolding polled parse_updates
  polled-covers c json =
      let us = unwrap_or (get_array j json "result") [] in
      let m = (parse_all j c.id (pos 0) us).1 in
      elim (Bool-cases (gtb m c.offset)) [
        | inl e ↦ rw e (
          parse_all-IsUpTo c.id (pos 0) us,
          gtb_trans c.offset c.offset m (gtb_irrefl c.offset) e,
        )
        | inr e ↦
            rw e (
              All-IsUpTo-le m c.offset us e (parse_all-IsUpTo c.id (pos 0) us),
              gtb_irrefl c.offset,
            )
      ]

  Reads-pop_or :
      (c : TelegramConnector) (polls : List (Outcome Value)) (buf : List InboundMsg)
      (r : Received × TelegramConnector × List (Outcome Value))
      → Reads c polls r.1 r.2
      → let (m, d, rest) = pop_or j c polls buf r in Reads c polls d rest
  Reads-pop_or c polls [] r next = next
  Reads-pop_or c polls (m ∷ buf) r next = record {
    taken = [];
    split = refl;
    covered = tt;
    grows = gtb_irrefl c.offset;
  }

  Reads-turn :
      (c : TelegramConnector) (polls : List (Outcome Value)) (i : Outcome Value)
      → ((d : TelegramConnector) → let (m, e, rest) = recv j d polls in Reads d polls e rest)
      → let (m, d, rest) = turn j c polls i (λ d. recv j d polls) in Reads c (i ∷ polls) d rest
  unfolding turn
  Reads-turn c polls (err e) next = record {
    taken = err e ∷ [];
    split = refl;
    covered = (tt, tt);
    grows = gtb_irrefl c.offset;
  }
  Reads-turn c polls (ok json) next =
      let d = polled j c (parse_updates j json c.id) in
      let last = (recv j d polls).1 in
      let r = next d in
      let (us, more) = polled-covers c json in
      record {
        taken = ok json ∷ r.taken;
        split = ap (λ ps. ok json ∷ ps) r.split;
        covered = (All-IsUpTo-le d.offset last.offset (updates (ok json)) r.grows us, r.covered);
        grows = gtb_le_trans c.offset d.offset last.offset more r.grows;
      }

  -- A call of recv takes answers from the front, and its offset is then at least what it was and at
  -- least the id of every update of these answers, whatever message it returns.
  pub recv-Reads :
      (c : TelegramConnector) (polls : List (Outcome Value))
      → let (m, d, rest) = recv j c polls in Reads c polls d rest
  unfolding recv
  recv-Reads c [] =
      Reads-pop_or c [] c.buf (waiting, c, [])
        (record { taken = []; split = refl; covered = tt; grows = gtb_irrefl c.offset })
  recv-Reads c (i ∷ polls) =
      Reads-pop_or c (i ∷ polls) c.buf (turn j c polls i (λ d. recv j d polls))
        (Reads-turn c polls i (λ d. recv-Reads d polls))
