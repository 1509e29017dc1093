-- ===== src/Agent/Safety/Tools.antt =====
-- crates/sa-core/src/lib.rs, `Agent::run_task`: the guards of tool calls and the audit before them.
use Prim.Native.Char.{code}
use Prim.Native.String.{◌++◌ as text_append}
use text.Mathlib.TextLemmas.{cons-append}
use mathlib.Core.Option.{some-injective}
use secretagent_rust_agent.Base.{
  nat_eq, String, ◌≡◌, ◌≢◌, refl, Bool, true, false, ◌&&◌, not, List, [], ◌∷◌, some, format, arith,
  ◌⊎◌, All, ap,
}
use secretagent_rust_agent.Principal.{
  RunContext, run_context, operator, remote, subagent, may_run_side_effect, may_persist,
  audit_label,
}
use secretagent_rust_agent.Principal.Authority.{Descends, self, child, Descends-may_run_side_effect}
use secretagent_rust_agent.Policy.{approval_required}
use secretagent_rust_agent.Agent.{ChatMessage, Host}
use secretagent_rust_agent.Agent.Effects.{Effect, audited, asked, dispatched, State}
use secretagent_rust_agent.Agent.Run.{event}
use secretagent_rust_agent.Agent.Run.Tasks.{run_task}
use secretagent_rust_agent.Agent.Run.Whole.{run_task-keeps}
use secretagent_rust_agent.Agent.Safety.{Traced-Closed}

abbrev pub AnyMessages : List ChatMessage → Type 0
AnyMessages ms = Unit {0}

-- A dispatch needs no approval, or the root of the run may have the side effect.
abbrev pub IsPermitted : {Value : Type 0} → RunContext → Effect Value → Type 0
IsPermitted root (audited e) = Unit {0}
IsPermitted root (asked ms) = Unit {0}
IsPermitted root (dispatched name args) =
    (approval_required name ≡ false) ⊎ (may_run_side_effect root name ≡ true)

-- Each dispatch stands directly after the record of its name, made by the root or a subagent.
abbrev pub IsRecorded : {Value : Type 0} → RunContext → List (Effect Value) → Type 0
IsRecorded root [] = Unit {0}
IsRecorded root (audited e ∷ tr) = IsRecorded root tr
IsRecorded root (asked ms ∷ tr) = IsRecorded root tr
IsRecorded {Value = Value} root (dispatched name args ∷ tr) =
    ((ctx : RunContext) × (before : List (Effect Value)) × Descends root ctx
      × (tr ≡ audited (event ctx (format ("tool." ∷ name ∷ [])) name) ∷ before))
    × IsRecorded root tr

-- An effect that is not recorded as the operator's.
abbrev pub IsNotOperators : {Value : Type 0} → Effect Value → Type 0
IsNotOperators (audited e) = e.principal ≢ some "operator"
IsNotOperators (asked ms) = Unit {0}
IsNotOperators (dispatched name args) = Unit {0}

pub Descends-persist :
    (root ctx : RunContext)
    → Descends root ctx
    → may_persist root ≡ false
    → may_persist ctx ≡ true
    → ⊥
unfolding may_persist
Descends-persist root ctx self n m = cc
Descends-persist root ctx (child d) n m = cc

abbrev starts_o : String → Bool
starts_o String.[] = false
starts_o (String.◌∷◌ c t) = nat_eq (code c) b'o'

starts_o-remote : (t : String) → starts_o (text_append "remote:" t) ≡ false
starts_o-remote t = rw cons-append

remote_lem : (t : String) → text_append "remote:" t ≢ "operator"
remote_lem t e = cc (starts_o-remote t, ap starts_o e)

starts_o-subagent : (t : String) → starts_o (text_append "subagent:" t) ≡ false
starts_o-subagent t = rw cons-append

subagent_lem : (t : String) → text_append "subagent:" t ≢ "operator"
subagent_lem t e = cc (starts_o-subagent t, ap starts_o e)

-- The label of a context that is not the operator's.
label_lem :
    (root ctx : RunContext)
    → Descends root ctx
    → may_persist root ≡ false
    → some (audit_label ctx) ≢ some "operator"
unfolding may_persist audit_label
label_lem (run_context (operator a) g d) ctx self n = cc
label_lem (run_context (remote x y) g d) ctx self n = λ e. remote_lem _ (some-injective _ _ e)
label_lem (run_context (subagent q) g d) ctx self n = λ e. subagent_lem _ (some-injective _ _ e)
label_lem root ctx (child d) n = λ e. subagent_lem _ (some-injective _ _ e)

module _ {Value World : Type 0} (h : Host Value World) where
  guard_lem :
      (root ctx : RunContext) (name : String)
      → Descends root ctx
      → (approval_required name && not (may_run_side_effect ctx name)) ≡ false
      → (approval_required name ≡ false) ⊎ (may_run_side_effect root name ≡ true)
  guard_lem root ctx name d e = ground (arith, Descends-may_run_side_effect root ctx name d)

  -- Every tool that a run or one of its subagents dispatches needs no approval, or has the approval
  -- of the context the run started with: if the trace of the start has that property, so has the
  -- trace of the end.
  pub dispatch-IsPermitted :
      (root : RunContext) (session input : String) (s : State Value World)
      → All (IsPermitted root) s.trace
      → All (IsPermitted root) (run_task h session input root s).1.trace
  dispatch-IsPermitted root session input s a =
      run_task-keeps h root
        (Traced-Closed h root {T = All (IsPermitted root)} {P = AnyMessages} (record {
          created = λ ctx draft tr d m j. (tt, j);
          recorded = λ ctx action key tr d j. (tt, j);
          sent = λ messages tr p j. (tt, j);
          run = λ ctx name args tr d e j. (guard_lem root ctx name d e, j);
          opened = λ input prefs active. tt;
          answered = λ messages id name echo content p. tt;
        }))
        session input s a

  -- Directly before every dispatch in a run or in one of its subagents stands the record of the tool's
  -- name, made for the root or a context that descends from it: if the trace of the start has that
  -- property, so has the trace of the end.
  pub dispatch-IsRecorded :
      (root : RunContext) (session input : String) (s : State Value World)
      → IsRecorded root s.trace
      → IsRecorded root (run_task h session input root s).1.trace
  dispatch-IsRecorded root session input s a =
      run_task-keeps h root
        (Traced-Closed h root {T = IsRecorded root} {P = AnyMessages} (record {
          created = λ ctx draft tr d m j. j;
          recorded = λ ctx action key tr d j. j;
          sent = λ messages tr p j. j;
          run = λ ctx name args tr d e j. ((ctx, tr, d, refl), j);
          opened = λ input prefs active. tt;
          answered = λ messages id name echo content p. tt;
        }))
        session input s a

  -- A run whose context may not persist, and its subagents, leave no record in the log that names the
  -- operator as its principal, if there was none in the trace at the start.
  pub no_record_claims_operator :
      (root : RunContext) (session input : String) (s : State Value World)
      → may_persist root ≡ false
      → All IsNotOperators s.trace
      → All IsNotOperators (run_task h session input root s).1.trace
  no_record_claims_operator root session input s n a =
      run_task-keeps h root
        (Traced-Closed h root {T = All IsNotOperators} {P = AnyMessages} (record {
          created = λ ctx draft tr d m j. absurd (Descends-persist root ctx d n m);
          recorded = λ ctx action key tr d j. (label_lem root ctx d n, j);
          sent = λ messages tr p j. (tt, j);
          run = λ ctx name args tr d e j. (tt, j);
          opened = λ input prefs active. tt;
          answered = λ messages id name echo content p. tt;
        }))
        session input s a
