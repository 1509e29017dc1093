-- ===== src/Lib.antt =====
-- SecretAgent: the agent, its authority, its memory and its audit log.
--
-- The program runs tasks for an operator or for senders of chat messages. A run has a context
-- (Principal: who drives it and what it may do). The agent (Agent) keeps a conversation with a model,
-- which answers or calls tools; each call passes the approval gate (Policy, Principal), is recorded in
-- the audit log (Audit) and runs from the registry (Tools); a subagent re-enters the agent with less
-- authority. Messages, preferences and skills are in the store (Memory). Tool output is tainted (Types).
--
-- Files and code:
--   Types: crates/sa-core-types/src/types.rs, taint.rs. Provenance, Tainted and its operations.
--   Principal: crates/sa-core-types/src/principal.rs. RunContext and its questions; the children state
--     what a subagent may do (Authority) and hold samples (Tests).
--   Policy: crates/sa-core-types/src/policy.rs. egress_allowed, path_allowed with normalize and
--     resolves_within, approval_required. Paths are lists of components, as Path::components yields
--     them; std::fs::canonicalize is a function of the path, the state of the disk. Resolution says of a
--     relative path what it comes to, one component after the other.
--   Audit: crates/sa-audit/src/lib.rs. The log is its text; open_log is Audit::open, append the entry
--     behind the text, with a write that may be torn; verify_chain and read_events read it line by line.
--     serde_json and BLAKE3 are a Codec with the laws of IsLawful: an entry parses back, its JSON is one
--     line, events have different JSON, digests have one length. Bytes is the text as bytes.
--   Memory: crates/sa-memory/src/lib.rs. A table is a list of rows in the order of their ids; each
--     statement is a function of the store. Full-text search is a parameter. Scores are in hundredths.
--     Migrations is Store::migrate over the objects of the schema, Upgraded what an upgrade leaves.
--   Text: std's and the crates' text functions that the parts use (trim, split_whitespace, bare name).
--   Tools: crates/sa-tools/src/lib.rs. Tool and Registry; a tool is its texts and a function.
--     Builtin holds fetch, read_file, write_file and execute_code, Confined what the file tools may ask
--     for, Execution where code is run.
--   Egress: crates/sa-tools/src/egress.rs. The guard of requests; the URL parser, name resolution and the
--     HTTP client are a Net. Addresses holds the address classes, Vetted what is ever sent.
--   Exec: crates/sa-exec/src/lib.rs. Backends, their command lines, and the operations of the system.
--   Agent: crates/sa-core/src/lib.rs and eval.rs. Host is what the program does not implement. Effects
--     is the state of a run and a monad with errors, in which a failed run keeps its effects; a call of
--     the store or the log may fail at any point. Eval is eval.rs; Context composes the system message;
--     Learn, Run and its children are run_task and learn_from_trajectory. Run.Closed, Keeping, Calls and
--     Whole reduce an invariant of whole runs to its primitive effects; Safety uses that.
--     The children of Safety are about tool calls (Tools), the store (Memory) and the messages that the
--     model gets (Conversation). Chat is the chat turn, its context and the rolling summary: Context the
--     order of messages, Folded one summary, Summaries any sequence of them, Twice the message of a turn
--     in its own context.
--   Json: serde_json as a type of values with the operations that the parts use and their documented
--     laws (IsLawful); Sample is one such type, for tests.
--   Config: crates/sa-core-types/src/config.rs. The records of the file, their
--     defaults, model_for and the places of the program's files.
--   Connectors: crates/sa-connectors/src. Messages and clamp_reply (lib.rs), Received (what recv
--     returns), Slack with its Ring of seen envelopes and what it delivers (Expected, Steps, Refines),
--     Telegram with its Offset, Discord and Email.
--   Providers: crates/sa-providers/src. Anthropic (anthropic.rs: translate, parse_action), its Turns and
--     Translate; OpenAi (openai.rs: messages, stream) and its Chunks.
--   Tools also has the client of MCP servers (Mcp, its Connected, Names, Loaded and Answers; mcp.rs),
--     and of sa-tools/src/tools: OpTool (op_tool.rs, shell.rs), Network (http_request.rs, web_search.rs,
--     web_extract.rs) and Html (web_extract.rs); Lookup is about the registry.
--   Setup: secretagent/src/setup.rs and exec.rs. build_provider and build_registry; Kept states which
--     tool stands under a name.
--   Gateway: secretagent/src/gateway.rs. dispatch_inbound, fire_job, tick_scheduler; Boundary states what
--     a sender and a job may bring about, Tick what a pass of the scheduler leaves; Construct is the
--     connector of a binding, Daemon the loops as a sequence of events, Durable what they leave.
--   Schedule: crates/sa-core/src/schedule.rs. Cron texts; the crate cron is a parser and a list of times.
--   Vault: crates/sa-vault/src/age_file.rs. Sorted is BTreeMap, Stored a file that has the secrets, Reopened
--     a vault that is opened again.
--   Commands: secretagent/src/schedule.rs, pref.rs, skill.rs. The operator's commands on the store; Armed
--     follows a job from its command to the context in which the gateway fires it.
--   SelfUpdate: secretagent/src/self_update.rs. The update as a list of acts, the order of versions
--     (Version), the swap of the files (Swap), and what a swap rests on (Verified).
--   Base: lists, options, outcomes, tests and integers that all parts share.
--
-- How the parts meet: Setup fills the Registry of Tools with tools made from Exec, Egress and Mcp, and
-- chooses a provider; Agent takes both as its Host and calls Memory and Audit; Gateway hands messages of
-- Connectors and jobs of Schedule to Agent. Where a part is a client of another one, it takes it as a
-- record (Host, Net, Codec, Json, Crypto, Age) or as the functions of it that it calls.
--
-- Bounds: the loop of a task has the 8 steps of MAX_TOOL_STEPS. A run is a recursion on the nesting
-- budget of its context, which each subagent has one less of. A request has the 5 redirects of
-- MAX_REDIRECTS. A request to an MCP server reads at most MAX_MESSAGES_PER_REQUEST messages, and a Slack
-- connector keeps SEEN_CAP envelope ids, as in the source. The loops of connectors, of the gateway and of
-- streams recurse on the list of what the outside answers, so no fuel is used for them.
--
-- Not modelled: permissions of files, the terminal and the other commands, system services, the
-- construction of HTTP clients and of child processes, which are input and output; SQLite's storage and the
-- columns of its tables; Unicode tables. Of the connectors, providers and MCP servers the transport is a list
-- of answers; time is an answer among them.
mod Base
pub mod Types
pub mod Vault
pub mod Text
pub mod Principal
pub mod Policy
pub mod Audit
pub mod Memory
pub mod Egress
pub mod Exec
pub mod Config
pub mod Tools
pub mod Agent
pub mod Json
pub mod Providers
pub mod Connectors
pub mod Setup
pub mod SelfUpdate
pub mod Gateway
pub mod Commands
pub mod Schedule
