-- ===== src/Tools/Mcp/Answers.antt =====
-- crates/sa-tools/src/mcp.rs: the answer to a request among what a server writes.
use secretagent_rust_agent.Base.{
  ℕ, zero, suc, ◌+◌, ◌%◌, ◌^◌, ◌<◌, String, ◌≡◌, refl, ap, ◌∙◌, true, false, List, [], ◌∷◌, ◌++◌,
  length, some, ok, All, arith,
}
use secretagent_rust_agent.Json.{Json, then_u64}
use secretagent_rust_agent.Tools.Mcp.{
  Incoming, McpClient, read_one, is_id, result_of, await_answer, request, max_messages_per_request,
  write_message, req, asked, answered,
}

module _ (j : Json) where
  open j use {Value, get}

  -- A message without the id of the request: a notification, or the answer to another one.
  pub record IsUnrelated (method : String) (id : ℕ) (i : Incoming) : Type 0 where
    pub value : Value
    pub is_read : read_one j method i ≡ ok (some value)
    pub other_id : is_id j (then_u64 j (get value "id")) id ≡ false

  await_answer-skips :
      (method : String) (id left : ℕ) (skipped rest : List Incoming) (a : Incoming) (v : Value)
      → length skipped < left
      → All (IsUnrelated method id) skipped
      → read_one j method a ≡ ok (some v)
      → is_id j (then_u64 j (get v "id")) id ≡ true
      → await_answer j method id left (skipped ++ (a ∷ rest))
        ≡ (result_of j method v (get v "error"), rest)
  unfolding await_answer
  await_answer-skips method id zero skipped rest a v short h read same =
      absurd (omega (arith, short))
  await_answer-skips method id (suc left) [] rest a v short h read same = rw (read, same) refl
  await_answer-skips method id (suc left) (i ∷ skipped) rest a v short (u, h) read same =
      rw (u.is_read, u.other_id)
        (await_answer-skips method id left skipped rest a v (omega (arith, short)) h read same)

  -- The client whose request is under way.
  abbrev sent : McpClient j → String → Value → McpClient j
  sent c method params = record c {
    next_id = (c.next_id + 1) % 2 ^ 64;
    written = c.written ++ (req j c.next_id method params ∷ []);
  }

  request-sent :
      (c : McpClient j) (method : String) (params : Value)
      → c.write_faults ≡ []
      → request j c method params
        ≡ answered j
            (sent c method params)
            (await_answer j method c.next_id max_messages_per_request c.reader)
  unfolding request asked write_message req
  request-sent c method params faults = rw faults refl

  -- A request is answered by the first message with its id, and the reader stands behind it: when the
  -- pipe takes the request, and fewer than the allowed number of other messages come before.
  pub request-await_answer :
      (c : McpClient j) (method : String) (params : Value) (skipped rest : List Incoming)
      (a : Incoming) (v : Value)
      → c.write_faults ≡ []
      → c.reader ≡ skipped ++ (a ∷ rest)
      → length skipped < max_messages_per_request
      → All (IsUnrelated method c.next_id) skipped
      → read_one j method a ≡ ok (some v)
      → is_id j (then_u64 j (get v "id")) c.next_id ≡ true
      → let (r, d) = request j c method params in
        (r ≡ result_of j method v (get v "error")) × (d.reader ≡ rest)
  request-await_answer c method params skipped rest a v faults reader short h read same =
      let found =
        ap (await_answer j method c.next_id max_messages_per_request) reader
        ∙ await_answer-skips method c.next_id max_messages_per_request skipped rest a v short h read
            same in
      let whole =
        request-sent c method params faults ∙ ap (answered j (sent c method params)) found in
      (ap (λ p. p.0) whole, ap (λ p. p.1.reader) whole)
