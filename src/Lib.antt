-- ===== src/Lib.antt =====
-- Verification of aegis-runtime: an agent runtime that runs a model's tool calls, gates what an agent may
-- do (paths, commands, skills, operator token, secrets), works off a queue of tasks in heartbeat pulses,
-- runs graphs of dependent tasks, records failures with their causes, and keeps sessions, runs, actions
-- and approvals in SQLite.
--
-- Parts, the files of the repository, and the modules that model them:
--   src/agent.rs: Agent (attempt_tool, estimate_tokens, prune_context_window; Loop: the tool calls of a
--     turn as call_tools; Task: the turns as turns, and execute_task).
--   src/skills.rs: Skills (the registry, execute, execute_gated and dispatch_classified; Handlers: the
--     builtin skills; Builtin: register_builtin_skills). A handler yields its effects and its result.
--   src/heartbeat.rs: Heartbeat. A pulse is a machine that gives up control where the code calls the
--     database or awaits; a list of inputs is an interleaving of pulses, loop and callers.
--   src/policy_guard.rs, probe_gate of src/enforcement.rs, dispatch_shell_gated of src/security.rs:
--     Security.Gate.
--   src/vault.rs: Vault. The redaction of src/failure.rs, redact_payload_echoes: Redaction.
--   src/failure.rs: Failure (Kinds: classes, the retry rule and loop; Record: records, causes, digests,
--     root causes). Json has the values and collect_strings.
--   src/events/event.rs, src/events/envelope.rs: Events.
--   src/orchestration/workflow.rs: Workflow. Builder is WorkflowBuilder (add_task, build with Kahn's
--     loop as peel and relax, find_cycle as walk); Ledger is Ledger and Recorder (transition, finish,
--     note_failure); Executor is WorkflowExecutor's propagate, cancel_open, settle and report;
--     Coordinator is WorkflowExecutor::run as a machine: an input is an act of the caller, the clock or
--     a body, or a turn of the coordinator, and a list of inputs is an interleaving; at the end report
--     has finished the recorder. Moves is the abstract machine of task states that the executor refines. AgentTask is agent_outcome and
--     AgentTaskRunner, an agent as a task body.
--   src/security.rs, src/enforcement.rs: Security (Paths: components and normalize_path; Workspace:
--     resolve_read_path, resolve_write_path, resolve_dir_path; Commands: admit_local_command and
--     pre_dispatch_check; Shell: execute_shell and dispatch_shell).
--   src/auth.rs: Auth (Bytes: constant_time_eq; Operator: with_token, verify, presented_token,
--     is_public, require_operator, resolve_bind_addr).
--   src/sessions/, src/orchestration/run.rs, src/execution/, src/defense/: Records.
--   src/persistence/: Store. Database has the tables of src/persistence/sqlite/schema.rs; Sessions,
--     Messages, Runs, Actions and Approvals have the calls of the five stores; Legacy has the tables and
--     calls of src/persistence/legacy.rs.
--   Prelude has the shared tests, lists, texts, orders, maps and results.
--
-- How the parts meet: the agent and the executor stamp a FailureRecord on what fails and publish an
-- AegisEvent for it, the agent with redacted messages and within the bounds of the retry loop; skills and
-- heartbeat tasks pass probe_gate, which runs pre_dispatch_check first, and their shell commands pass
-- admit_local_command; the heartbeat takes its tasks from the legacy tables, and the agent records its
-- answer there; the stores keep the records with their states as texts.
--
-- Bounds: the retry loop has 5 rounds (MAX_ATTEMPTS_CEILING), peel, walk and propagate one more than
-- there are tasks, climb one more than there are records: the theorems show that this is enough. The
-- loops of the agent are structural, over max_turns, the calls of a turn and the messages. The
-- search for an ancestor has one step more than the path has components, each a step up. A `u64` in
-- decimal has 20 digits at most. The tick of the heartbeat counts modulo 2 ^ 64. Other sequence numbers,
-- versions and times are natural numbers, since they only count up from small values; the `u32`
-- counters of a run are read back modulo 2 ^ 32.
--
-- Taken from outside, as parameters: task bodies, the clock and the tokens (the inputs of a run), ids,
-- times, SHA-256 and the serialiser (Env, Hashing), serde codecs (Serde), the file system (FileSystem),
-- the shell (Outside), files and git as the skills ask them, the parser of addresses, the model, the
-- answers of the dispatcher, the cancel token and the deadline of a tool call (Agent's World), the
-- atlas-vault program and the environment (Host), and the probe engine with the arithmetic of `f64`
-- (Probing), of which some theorems use that `<` is transitive. A float stands as the number that its
-- bits are.
--
-- Not modelled: the gateway, the client of the model, vector arithmetic, the asynchronous database
-- wrapper, conversions to the canonical and agent-state ABIs, the record of a pulse in the Crumb ledger,
-- the default system prompt, and the start of the program. They talk to the network or to other
-- crates, or compute on floats. The parser of tool calls in src/inference.rs remains to be done.
pub mod Prelude
pub mod Json
pub mod Failure
pub mod Events
pub mod Workflow
pub mod Records
pub mod Store
pub mod Security
pub mod Auth
pub mod Heartbeat
pub mod Skills
pub mod Redaction
pub mod Vault
pub mod Agent
