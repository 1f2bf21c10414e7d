-- ===== src/Lib.antt =====
-- Verification of WazzapAgent-Go, a WhatsApp agent written in Go.
--
-- The program receives messages through a connector, decides by policies which of them it answers,
-- asks a chain of language models, and sends replies and effects through two outboxes kept in
-- SQLite. The files here model the parts of it that decide something:
--
-- * Outbox (internal/action/action.go, internal/effect/effect.go, and their stores in
--   internal/adapters/sqlite). Outbox.Row is one row with its conditional updates (requireOne,
--   Complete, MarkUnknown, resolveInterruptedEffects). Outbox.Action and Outbox.Effect are the two
--   dispatchers: `step` is one atomic action of Dispatch, `dispatch` the whole call, `Env` what
--   everything outside answers to it. Outbox.Once is the interface that both fill: a machine of
--   atomic actions, calls of which interleave with each other and with restarts of the process.
--   Their child modules are about the claim (Claim), the agreement of a reply's turn and history
--   entry with its row (Views), and what one call does on each branch (Outcome).
-- * Policy.Permission (internal/policy/permission.go). Token is the tokenizer, Parser the
--   recursive-descent evaluator, Grammar the documented grammar as trees with their tokens and
--   meaning; Reads, Sound, Complete, Scan and Correct relate them, and Render writes tokens out.
-- * Policy.Principal, Policy.FixedGate and Policy.Trigger (internal/policy/principal.go and fixed.go,
--   with internal/agent/config.go): who may send, use a capability or wake the agent. What the
--   stores answer is a record of functions; the judge's answers are remembered in a memory.
-- * Command.Registry (internal/command/registry.go): the registry of slash commands, on top of the
--   permission expressions.
-- * Policy.Allowlist (internal/policy/allowlist.go): the gate on inbound chats.
-- * Account.Runtime (internal/account/runtime.go): the life of an account's connection, as a
--   function of what the select statement picks and what the connector answers.
-- * Fallback (internal/llm/fallback/fallback.go): the chain of models, over any models.
-- * Config.DotEnv (internal/config/dotenv.go and dotenv_export.go): values of a dotenv file.
-- * Agent (internal/agent/agent.go, turn.go, types.go and history.go, with the turn store in
--   internal/adapters/sqlite/turn.go): a turn from its claim to its delivery. Agent.Turns.Row,
--   Claim and Commit are the statements of the store; Agent.Effects checks what a model returned,
--   and its child Described says the same without the code; Agent.Dispatch hands a committed plan
--   over, with DispatchEffects of internal/effect/effect.go; Agent.Invoke is Invoke.
--   Agent.Turns.Ledger forgets a turn down to whether it was planned and what it may still spend,
--   and Agent.Invoke.Advance relates each call of Invoke to it. Agent.Turns.Handover joins the
--   commit of a plan with the reply outbox. Agent.Gate (gate.go) and Agent.Registry (registry.go)
--   are the token and the cache of agents of each chat, as steps of goroutines that interleave.
-- * Inbound.Queue (internal/inbound/dispatcher.go): the queue of one chat. Each function is one
--   section of code under the dispatcher's mutex; Inbound.Queue.System runs them in any order,
--   with timers whose callbacks may come late and the goroutines that the sections start, and
--   Inbound.Queue.Inbox follows beside it which messages were left in the durable inbox. A queue
--   that was forgotten is replaced by a new one, so one queue's life is all that is needed.
-- * Observability.LogBuffer (internal/observability/log_buffer.go): the entries kept for the log that
--   the application shows.
-- * Errors and Turn (internal/agent/errors.go and turn.go): codes and states that these share.
-- * Prelude, Utf8 and Strings: shared helpers, and the parts of Go's unicode/utf8, unicode and
--   strings that the sources call. Tests holds the theorems at concrete inputs.
--
-- Strings are lists of bytes. An error is the code that agent.CodeOf reads from it. What a
-- database, provider, model or connector answers is an argument, so the theorems hold for every
-- answer; a write that reports an error may have been applied or not.
--
-- Fuel: Dispatch is run for six atomic actions, one for each of its stages. The tokenizer gets one
-- unit more than the text has bytes, since each round consumes a byte; the parser gets four units
-- for each token and five more, since it consumes a token at least once in four calls.
--
-- Of a stored or received ID only its equality counts, so it is a number, zero when it is empty; the
-- ID that a row stores is none when its text is not one. A crash in a call of Invoke is a call of
-- which the later writes were not applied; the next call reads what was stored.
--
-- Not modelled: times and delays, the texts of messages and errors, SQL beyond the conditional
-- updates named above, and what the outboxes do besides moving a row (the listing of pending rows,
-- the copy-code button after a reply, the observer). Of a dotenv file only the values are modelled.
-- The replies that a slash command plans (internal/adapters/sqlite/command.go), the building of a
-- model's context, the routing of inbound messages, scheduled tasks and recovery at startup, the
-- session controller and the remaining stores are not modelled either; the adapters for WhatsApp,
-- HTTP and the user interface only call external libraries. Concurrent calls of the gate that
-- remembers judgments are not modelled.
pub mod Prelude
pub mod Utf8
pub mod Strings
pub mod Errors
pub mod Turn
pub mod Agent
pub mod Policy
pub mod Outbox
pub mod Fallback
pub mod Account
pub mod Config
pub mod Command
pub mod Inbound
pub mod Observability
pub mod Tests
