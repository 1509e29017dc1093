-- ===== src/Providers/Anthropic/Turns.antt =====
-- crates/sa-providers/src/anthropic.rs: the messages that `translate` builds, as turns of two roles.
use secretagent_rust_agent.Base.{
  String, ◌≡◌, ◌≢◌, refl, sym, ap, ◌∙◌, false, List, [], ◌∷◌, ◌++◌, map, Option, none, some,
  unwrap_or, Bool-cases, inl, inr, ◌==◌, eq_iff, if◌then◌else◌, append_assoc, append-nil,
  map-append, All, arith,
}
use secretagent_rust_agent.Json.{Json, IsLawful, get_str, get_array, then_str, then_array, str_or}
use secretagent_rust_agent.Providers.Anthropic.{
  new_message, push_block, assistant_block, tool_result_block, text_block,
}

module _ (j : Json) where
  open j use {Value, get, set, array}

  abbrev pub role_of : Value → Option String
  role_of v = get_str j v "role"

  -- Every message has a role, and not that of the message before it.
  abbrev pub AlternatesFrom : Option String → List Value → Type 0
  AlternatesFrom before [] = Unit
  AlternatesFrom before (v ∷ out) = (before ≢ role_of v) × AlternatesFrom (role_of v) out

  abbrev pub labelled : Option String → Option (List Value) → List (String × Value)
  labelled none o = []
  labelled (some role) none = []
  labelled (some role) (some blocks) = map (λ b. (role, b)) blocks

  -- The blocks of the messages, each with the role of its message.
  abbrev pub turns : List Value → List (String × Value)
  turns [] = []
  turns (v ∷ out) = labelled (role_of v) (get_array j v "content") ++ turns out

  -- The block that a message of the loop stands for; a system message stands for none.
  unfoldable pub block_of : Value → List (String × Value)
  block_of m =
      let role = str_or j "" m "role" in
      if role == "system"
      then []
      else if role == "assistant"
      then ("assistant", assistant_block j m (get_array j m "tool_calls")) ∷ []
      else if role == "tool"
      then ("user", tool_result_block j m) ∷ []
      else ("user", text_block j (str_or j "" m "content")) ∷ []

  unfoldable pub blocks_of : List Value → List (String × Value)
  unfolding block_of
  blocks_of [] = []
  blocks_of (m ∷ messages) = block_of m ++ blocks_of messages

  pub record IsBuilt (v : Value) : Type 0 where
    role : String
    blocks : List Value
    role_is : get_str j v "role" ≡ some role
    content_is : get_array j v "content" ≡ some blocks

  then_array-some :
      (o : Option Value) (vs : List Value) → then_array j o ≡ some vs → (u : Value) × (o ≡ some u)
  then_array-some none vs h = cc
  then_array-some (some u) vs h = (u, refl)

  module _ (law : IsLawful j) where
    new_message-IsBuilt : (role : String) (block : Value) → IsBuilt (new_message j role block)
    unfolding new_message
    new_message-IsBuilt role block = record {
      role = role;
      blocks = block ∷ [];
      role_is = ap (then_str j) (law.get-object _ "role") ∙ law.as_str-string role;
      content_is = ap (then_array j) (law.get-object _ "content") ∙ law.as_array-array (block ∷ []);
    }

    module _ (v block : Value) (b : IsBuilt v) where
      pushed : Value
      pushed = set v "content" (array (b.blocks ++ (block ∷ [])))

      at_content :
          (i : String)
          → get pushed i
            ≡ (if "content" == i then some (array (b.blocks ++ (block ∷ []))) else get v i)
      unfolding pushed
      at_content i =
          let found = then_array-some (get v "content") b.blocks b.content_is in
          law.get-set v found.0 (array (b.blocks ++ (block ∷ []))) "content" i found.1

      pushed-role : role_of pushed ≡ role_of v
      pushed-role = ap (then_str j) (at_content "role")

      pushed-IsBuilt : IsBuilt pushed
      pushed-IsBuilt = record {
        role = b.role;
        blocks = b.blocks ++ (block ∷ []);
        role_is = pushed-role ∙ b.role_is;
        content_is =
            ap (then_array j) (at_content "content")
            ∙ law.as_array-array (b.blocks ++ (block ∷ []));
      }

    differs_from : (a b : String) → (a == b) ≡ false → a ≢ b
    differs_from a b h e = ground (arith, h, e, eq_iff a b)

    -- What a message gets: it is built, alternates with what was before, and adds one turn.
    pub record Adds (before : Option String) (out next : List Value) (role : String) (block : Value)
        : Type 0 where
      pub built : All IsBuilt next
      pub alternates : AlternatesFrom before next
      pub adds : turns next ≡ turns out ++ ((role, block) ∷ [])

    abbrev turn_of : Value → List (String × Value)
    turn_of v = labelled (role_of v) (get_array j v "content")

    new_message-role :
        (role : String) (block : Value) → role_of (new_message j role block) ≡ some role
    unfolding new_message
    new_message-role role block = ap (then_str j) (law.get-object _ "role") ∙ law.as_str-string role

    turns-new_message :
        (role : String) (block : Value) → turns (new_message j role block ∷ []) ≡ (role, block) ∷ []
    unfolding new_message-IsBuilt
    turns-new_message role block =
        let b = new_message-IsBuilt role block in rw (b.role_is, b.content_is) refl

    -- The last message has another role: a new one follows.
    follow :
        (before : Option String) (v : Value) (role : String) (block : Value) (b : IsBuilt v)
        → (before ≢ role_of v)
        → (b.role == role) ≡ false
        → Adds before (v ∷ []) (v ∷ new_message j role block ∷ []) role block
    follow before v role block b h differs =
        let n = new_message-IsBuilt role block in
        record {
          built = (b, (n, tt));
          alternates = (
            h,
            (
              λ same. absurd (
                  differs_from b.role role differs (
                    ap (λ o. unwrap_or o role)
                      (sym b.role_is ∙ same ∙ new_message-role role block))),
              tt,
            ),
          );
          adds =
              ap (λ ts. turn_of v ++ ts) (turns-new_message role block)
              ∙ ap (λ l. l ++ ((role, block) ∷ [])) (sym (append-nil (turn_of v)));
        }

    -- The last message has the role: its content grows.
    grow :
        (before : Option String) (v : Value) (role : String) (block : Value) (b : IsBuilt v)
        → (before ≢ role_of v)
        → b.role ≡ role
        → Adds before (v ∷ []) (pushed v block b ∷ []) role block
    unfolding pushed-IsBuilt
    grow before v role block b h same =
        let p = pushed-IsBuilt v block b in
        record {
          built = (p, tt);
          alternates = (λ e. h (e ∙ pushed-role v block b), tt);
          adds =
              rw (p.role_is, p.content_is, b.role_is, b.content_is)
                (append-nil (map (λ x. (b.role, x)) (b.blocks ++ (block ∷ [])))
                  ∙ map-append (λ x. (b.role, x)) b.blocks (block ∷ [])
                  ∙ ap (λ l. l ++ ((b.role, block) ∷ []))
                      (sym (append-nil (map (λ x. (b.role, x)) b.blocks)))
                  ∙ ap (λ r. (map (λ x. (b.role, x)) b.blocks ++ []) ++ ((r, block) ∷ [])) same);
        }

    push_last :
        (before : Option String) (v : Value) (role : String) (block : Value) (b : IsBuilt v)
        → (before ≢ role_of v)
        → Adds before (v ∷ []) (push_block j (v ∷ []) role block) role block
    unfolding push_block pushed
    push_last before v role block b h = elim (Bool-cases (b.role == role)) [
      | inl same ↦
          rw (b.role_is, same, b.content_is)
            (grow before v role block b h ((eq_iff b.role role).0 same))
      | inr differs ↦ rw (b.role_is, differs) (follow before v role block b h differs)
    ]

    push_block-Adds :
        (before : Option String) (v : Value) (out : List Value) (role : String) (block : Value)
        → All IsBuilt (v ∷ out)
        → AlternatesFrom before (v ∷ out)
        → Adds before (v ∷ out) (push_block j (v ∷ out) role block) role block
    unfolding push_block
    push_block-Adds before v [] role block (b, rest) (h, alt) = push_last before v role block b h
    push_block-Adds before v (n ∷ out) role block (b, rest) (h, alt) =
        let a = push_block-Adds (role_of v) n out role block rest alt in
        record {
          built = (b, a.built);
          alternates = (h, a.alternates);
          adds =
              ap (λ ts. turn_of v ++ ts) a.adds
              ∙ sym (append_assoc (turn_of v) (turns (n ∷ out)) ((role, block) ∷ []));
        }

    pub push_any :
        (out : List Value) (role : String) (block : Value)
        → All IsBuilt out
        → AlternatesFrom none out
        → Adds none out (push_block j out role block) role block
    unfolding push_block
    push_any [] role block built alt = record {
      built = (new_message-IsBuilt role block, tt);
      alternates = (λ e. cc (e, new_message-role role block), tt);
      adds = turns-new_message role block;
    }
    push_any (v ∷ out) role block built alt = push_block-Adds none v out role block built alt
