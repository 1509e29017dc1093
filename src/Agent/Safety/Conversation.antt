-- ===== src/Agent/Safety/Conversation.antt =====
-- crates/sa-core/src/lib.rs, `Agent::run_task`: the messages that the model sees.
use secretagent_rust_agent.Base.{
  Outcome, ok, err, String, ◌≡◌, refl, sym, ap, Bool, true, false, List, [], ◌∷◌, ◌++◌, ◌⊎◌, inl,
  inr, All, Any, All-append, Bool-cases, filter, map, take, ℕ, zero, suc, ◌==◌, eq_iff,
  if◌then◌else◌,
}
use mathlib.Core.Path.{subst}
use Prim.Native.Char.{Char}
use secretagent_rust_agent.Text.Words.{join}
use secretagent_rust_agent.Principal.{RunContext, may_auto_activate_skill}
use secretagent_rust_agent.Principal.Authority.{Descends}
use secretagent_rust_agent.Memory.{Store, Skill}
use secretagent_rust_agent.Memory.Messages.{add_message}
use secretagent_rust_agent.Memory.Preferences.{preferences}
use secretagent_rust_agent.Memory.Skills.{
  ActiveSkill, is_active, activate_row, activate_skill, record_skill_use, recall_skills,
  recall_terms, active_matching_skills,
}
use secretagent_rust_agent.Memory.Skills.Laws.{
  create_skill_cases, record_skill_use_cases, live, live-draft, live-use,
}
use secretagent_rust_agent.Agent.{ChatMessage, system, user, assistant_call, tool, Host}
use secretagent_rust_agent.Agent.Eval.{SkillDraft, EvalResult, slug}
use secretagent_rust_agent.Agent.Effects.{Effect, audited, asked, dispatched, State}
use secretagent_rust_agent.Agent.Effects.Keeps.{Post}
use secretagent_rust_agent.Agent.Learn.{create_draft, drop_rowid}
use secretagent_rust_agent.Agent.Context.{run_system, compose_system}
use secretagent_rust_agent.Agent.Run.Prelude.{opening}
use secretagent_rust_agent.Agent.Run.Closed.{Closed}
use secretagent_rust_agent.Agent.Run.Tasks.{run_task}
use secretagent_rust_agent.Agent.Run.Whole.{run_task-keeps}
use secretagent_rust_agent.Agent.Safety.Memory.{Descends-activate}

-- What follows the first two messages: calls of the model and results of tools.
abbrev pub IsExchange : ChatMessage → Type 0
IsExchange (system m) = ⊥
IsExchange (user m) = ⊥
IsExchange (assistant_call id name args) = Unit {0}
IsExchange (tool id content) = Unit {0}

-- All rows that a search for skills finds are rows of the table.
abbrev pub SelectsRows : (String → List Skill → List Skill) → Type 1
SelectsRows match_skills =
    (Q : Skill → Type 0) (query : String) (rows : List Skill)
    → All Q rows
    → All Q (match_skills query rows)

All-take_skills :
    (Q : Skill → Type 0) (n : ℕ) (rows : List Skill) → All Q rows → All Q (take n rows)
All-take_skills Q zero rows a = tt
All-take_skills Q (suc n) [] a = tt
All-take_skills Q (suc n) (s ∷ rows) a = (a.0, All-take_skills Q n rows a.1)

module _ (K : String × String → Type 0) where
  -- A row that is active has the property.
  abbrev IsFine : Skill → Type 0
  IsFine s = is_active s ≡ true → K (s.name, s.body)

  head_lem :
      (active : Bool) (x : String × String) (rest : List (String × String))
      → All K (if active then x ∷ rest else rest)
      → (active ≡ true → K x) × All K rest
  head_lem true x rest a = (λ e. a.0, a.1)
  head_lem false x rest a = (λ e. cc, a)

  live-rows : (rows : List Skill) → All K (live rows) → All IsFine rows
  live-rows [] a = tt
  live-rows (s ∷ rows) a =
      let h = head_lem (is_active s) (s.name, s.body) (live rows) a in (h.0, live-rows rows h.1)

  rows-live : (rows : List Skill) → All IsFine rows → All K (live rows)
  rows-live [] a = tt
  rows-live (s ∷ rows) a = elim (Bool-cases (is_active s)) [
    | inl e ↦ rw e (a.0 e, rows-live rows a.1)
    | inr e ↦ rw e (rows-live rows a.1)
  ]

  activate_rows :
      (own prov : String) (rows : List Skill)
      → ((body : String) → K (own, body))
      → All IsFine rows
      → All IsFine (map (activate_row own prov) rows)
  activate_rows own prov [] k a = tt
  activate_rows own prov (s ∷ rows) k a = elim (Bool-cases (s.name == own)) [
    | inl e ↦
        let named : K (s.name, s.body) =
          subst (λ n. K (n, s.body)) (sym ((eq_iff s.name own).0 e)) (k s.body) in
        rw e (λ active. named, activate_rows own prov rows k a.1)
    | inr e ↦ rw e (a.0, activate_rows own prov rows k a.1)
  ]

  live-activate :
      (own prov : String) (rows : List Skill)
      → ((body : String) → K (own, body))
      → All K (live rows)
      → All K (live (map (activate_row own prov) rows))
  live-activate own prov rows k a = rows-live _ (activate_rows own prov rows k (live-rows rows a))

  actives :
      (rows : List Skill)
      → All IsFine rows
      → All
          (λ (a : ActiveSkill). K (a.name, a.body))
          (map (λ (s : Skill). record { name = s.name; body = s.body }) (filter is_active rows))
  actives [] a = tt
  actives (s ∷ rows) a = elim (Bool-cases (is_active s)) [
    | inl e ↦ rw e (a.0 e, actives rows a.1)
    | inr e ↦ rw e (actives rows a.1)
  ]

  recalled :
      (is_alphanumeric : Char → Bool) (match_skills : String → List Skill → List Skill)
      (query : String) (n : ℕ) (st : Store)
      → SelectsRows match_skills
      → All IsFine st.skills
      → All IsFine (recall_skills is_alphanumeric match_skills query n st)
  unfolding recall_skills join
  recalled is_alphanumeric match_skills query n st sound a =
      elim (recall_terms is_alphanumeric query)
        as (λ terms. All IsFine (elim terms [
          | [] ↦ []
          | t ∷ terms ↦ take n (match_skills (join " OR " (t ∷ terms)) st.skills)
        ])) [ [] ↦ tt | t ∷ terms ↦ All-take_skills _ n _ (sound IsFine _ st.skills a) ]

Any-tail :
    (x : String × String) (xs ys : List (String × String))
    → All (λ z. Any (λ y. y ≡ z) ys) xs
    → All (λ z. Any (λ y. y ≡ z) (x ∷ ys)) xs
Any-tail x [] ys a = tt
Any-tail x (z ∷ xs) ys a = (inr a.0, Any-tail x xs ys a.1)

all_own : (xs : List (String × String)) → All (λ z. Any (λ y. y ≡ z) xs) xs
all_own [] = tt
all_own (x ∷ xs) = (inl refl, Any-tail x xs xs (all_own xs))

module _ {Value World : Type 0} (h : Host Value World) (root : RunContext) (origin : Store) where
  -- The name and the body of a skill that the model may be told: of one that is active and trusted
  -- at the start, or, where the root of the run has the standing approval to activate, of one that
  -- has the name of a task.
  abbrev pub MayBeTold : String × String → Type 0
  MayBeTold skill =
      Any (λ y. y ≡ skill) (live origin.skills)
      ⊎ ((may_auto_activate_skill root ≡ true)
          × (task : String) × (skill.0 ≡ slug h.to_lowercase task))

  -- One system message of the operator's texts, one message of the user, and then only exchanges.
  abbrev pub IsConversation : List ChatMessage → Type 0
  IsConversation ms =
      (input : String) × (active : List ActiveSkill) × (rest : List ChatMessage) × (ms
        ≡ system (compose_system run_system h.soul h.context (preferences origin) active)
          ∷ user input
          ∷ rest)
      × All (λ (a : ActiveSkill). MayBeTold (a.name, a.body)) active
      × All IsExchange rest

  abbrev pub IsGuarded : Effect Value → Type 0
  IsGuarded (audited e) = Unit {0}
  IsGuarded (asked ms) = IsConversation ms
  IsGuarded (dispatched name args) = Unit {0}

  abbrev Told : Store → Type 0
  Told st = (st.user_model ≡ origin.user_model) × All MayBeTold (live st.skills)

  abbrev J : Store → List (Effect Value) → Type 0
  J st tr = Told st × All IsGuarded tr

  lefts :
      (xs : List (String × String))
      → All (λ z. Any (λ y. y ≡ z) (live origin.skills)) xs
      → All MayBeTold xs
  lefts [] a = tt
  lefts (x ∷ xs) a = (inl a.0, lefts xs a.1)

  all_MayBeTold : All MayBeTold (live origin.skills)
  all_MayBeTold = lefts (live origin.skills) (all_own (live origin.skills))

  root_activates :
      (ctx : RunContext)
      → Descends root ctx
      → may_auto_activate_skill ctx ≡ true
      → may_auto_activate_skill root ≡ true
  root_activates ctx d m = elim (Bool-cases (may_auto_activate_skill root)) [
    | inl e ↦ e
    | inr e ↦ absurd (Descends-activate root ctx d e m)
  ]

  activate-Told :
      (ctx : RunContext) (input prov : String) (st : Store)
      → Descends root ctx
      → may_auto_activate_skill ctx ≡ true
      → Told st
      → Told (activate_skill (slug h.to_lowercase input) prov st).0
  unfolding activate_skill
  activate-Told ctx input prov st d m t = (
    t.0,
    live-activate MayBeTold (slug h.to_lowercase input) prov st.skills
        (λ body. inr (root_activates ctx d m, input, refl)) t.1,
  )

  Post-both :
      (tr : List (Effect Value)) (r : Outcome Store)
      → All IsGuarded tr
      → Post Told r
      → Post (λ st. J st tr) r
  Post-both tr (ok st) a p = (p, a)
  Post-both tr (err e) a p = tt

  create-Told :
      (session : String) (draft : SkillDraft) (result : EvalResult) (st : Store)
      → Told st
      → Post Told (create_draft h session draft result st)
  unfolding create_draft
  create-Told session draft result st t =
      create_skill_cases (λ r. Post Told (drop_rowid r)) draft.name draft.description draft.body _
        session result.score st (λ e. tt)
        (λ ns nn. (t.0, subst (All MayBeTold) (sym (live-draft st.skills _ _ _ _ _ _ _)) t.1))

  use-Told :
      (name body : String) (score : ℕ) (st : Store)
      → Told st
      → Post Told (record_skill_use name body score st)
  use-Told name body score st t =
      record_skill_use_cases (Post Told) name body score st (λ e. tt)
        (λ sk ns g. (t.0, subst (All MayBeTold) (sym (live-use sk.id score st.skills)) t.1))

  opening-IsConversation :
      (input : String) (told used : Store)
      → SelectsRows h.match_skills
      → Told told
      → Told used
      → IsConversation (
          opening h input
            (preferences told)
            (active_matching_skills h.is_alphanumeric h.match_skills input 1 used))
  unfolding preferences active_matching_skills
  opening-IsConversation input told used sound t u = (
    input,
    _,
    [],
    rw t.0 refl,
    actives MayBeTold _ (
        recalled MayBeTold h.is_alphanumeric h.match_skills input 1 used sound
          (live-rows MayBeTold used.skills u.1)),
    tt,
  )

  more-IsConversation :
      (messages : List ChatMessage) (id name echo content : String)
      → IsConversation messages
      → IsConversation (messages ++ assistant_call id name echo ∷ tool id content ∷ [])
  more-IsConversation messages id name echo content (input, active, rest, e, told, a) = (
    input,
    active,
    rest ++ assistant_call id name echo ∷ tool id content ∷ [],
    ap (λ ms. ms ++ assistant_call id name echo ∷ tool id content ∷ []) e,
    told,
    All-append IsExchange rest _ a (tt, (tt, tt)),
  )

  messages-Closed : SelectsRows h.match_skills → Closed h root J IsConversation
  unfolding add_message
  messages-Closed sound = record {
    message_closed = λ session role content prov st tr j. j;
    activate_closed = λ ctx input st tr d m j. (activate-Told ctx input _ st d m j.0, j.1);
    create_closed = λ ctx session draft result st tr d m j.
        Post-both tr _ j.1 (create-Told session draft result st j.0);
    use_closed =
        λ ctx name body score st tr d m j. Post-both tr _ j.1 (use-Told name body score st j.0);
    created_closed = λ ctx draft st tr d m j. (j.0, (tt, j.1));
    event_closed = λ ctx action key st tr d j. (j.0, (tt, j.1));
    ask_closed = λ messages st tr p j. (j.0, (p, j.1));
    dispatch_closed = λ ctx name args st tr d e j. (j.0, (tt, j.1));
    opening_closed =
        λ input told used tr tr' j j'. opening-IsConversation input told used sound j.0 j'.0;
    result_closed = more-IsConversation;
  }

-- In every list of messages that a run or one of its subagents sends to the model, the first is the
-- system message composed of the fixed instruction, the two context files, the preferences as the
-- store has them at the start of the run, and skills each of which is active and trusted at the
-- start or, only where the root context may activate skills without asking, has the name made from
-- a task; the second is the one message of the user; and all others are calls of the model and
-- results of tools. If the messages in the trace at the start have that form, all that are sent up
-- to the end have it. The full-text search returns rows of the table.
pub output_is_data :
    {Value World : Type 0} (h : Host Value World) (root : RunContext) (session input : String)
    (s : State Value World)
    → SelectsRows h.match_skills
    → All (IsGuarded h root s.store) s.trace
    → All (IsGuarded h root s.store) (run_task h session input root s).1.trace
output_is_data h root session input s sound a =
    (run_task-keeps h root (messages-Closed h root s.store sound) session input s
      ((refl, all_MayBeTold h root s.store), a)).1
