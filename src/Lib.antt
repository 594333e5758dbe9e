-- ===== src/Lib.antt =====
-- Kontor: an assistant that books appointments for the customers of a business. A language model
-- proposes tool calls, and deterministic services decide what happens. This library models those
-- services: definitions by clauses that run on concrete inputs, translated from the Go code, and
-- the theorems about them.
--
-- The parts and how they interact
--   * The agent loop (internal/agent) asks the model through an adapter (internal/llm) and pays for
--     each call from a budget of tokens per conversation. `Llm` has the types of messages, requests
--     and responses (internal/llm/types.go). `Agent.Budget` has `reserve` and `settle` of
--     MemoryTokenBudget, `Agent.Budget.Estimate` the reservation that `Estimate` asks for
--     (internal/agent/budget.go), and `Agent.Charge` what a finished call is charged,
--     chargeForModelCall (internal/agent/runner.go). `Agent.Runner` has the types of the loop,
--     `Agent.Runner.Names` the names and identifiers of tool calls, `Agent.Runner.Tools`
--     executeTool and the loop over the calls of a response, `Agent.Runner.Terminal` the call
--     respond_to_customer, `Agent.Runner.Loop` Run, and `Agent.Runner.Registry` NewRunner.
--   * In production that budget is durable: `Conversations` has the token counts of a conversation
--     row (internal/conversations/store.go), `Conversations.Budget` the reservations on them
--     (internal/agentbudget/postgres.go), `Conversations.Budget.Ledger` their histories, and
--     `Conversations.Budget.Refines` relates them to the budget in memory, for reports that are not
--     negative.
--   * The tool gateway (internal/tools/gateway.go) carries out a tool call of the model for a
--     customer whose identity the server established (`Tools.Types`). `Tools.Gateway` has what the
--     handlers share, `Tools.Gateway.Slots` findSlots, `Tools.Gateway.Bookings` the two phases of
--     every change, `Tools.Gateway.Handlers` createBooking, rescheduleBooking and cancelBooking,
--     and `Tools.Gateway.Execute` the checks and the dispatch of Execute. `Tools.Outcome` has the
--     results, commands and errors (internal/tools/types.go), `Tools.Json` argument objects.
--   * Between the agent loop and the gateway stands `Executor`, which repeats a failed call
--     (internal/agenttools/executor.go).
--   * A change of bookings needs a confirmation of the customer: `Tools.Confirmations` has the
--     store in memory (internal/tools/confirmations.go) and `Tools.Confirmations.History` the calls
--     made on it. In production the store is a table: `Proposals` has Propose, Latest and
--     InvalidateLatest of internal/confirmations/postgres.go, `Proposals.Authorize` Authorize,
--     VerifyAuthorized and MarkConsumed, and `Proposals.History` the calls. The slots that the
--     model may name are signed tokens: `Tools.Tokens` (internal/tools/tokens.go).
--   * The slots themselves come from the scheduling engine (internal/scheduling/engine.go):
--     `Scheduling.Intervals` merges and compares intervals, `Scheduling.Calendar` reads the weekly
--     rules on a civil date, `Scheduling.Input` validates a search, and `Scheduling.Engine` scans
--     the days (FindSlots and IsAvailable).
--   * A committed booking leaves reminders and CRM updates in a queue of jobs
--     (internal/jobqueue/postgres.go): `Jobs` has the tables, ClaimBatch and Complete,
--     `Jobs.Failure` retries, dead letters and abandoned claims, `Jobs.Outbox` what bookings and
--     operators do to jobs, and `Jobs.History` sequences of calls.
--   * `Prelude` has the notation, lists, dictionaries, instants and 64-bit integers they share, and
--     `Action` the notation for code that fails.
--
-- How state and operations correspond
--   * A method that changes an object takes its state and returns it with the result. A method that
--     holds a mutex is one step, and an interleaving of callers is a list of steps.
--   * `Action` is code that changes a state and may fail, with rules for its pre- and postconditions
--     in `Action.Triple`. The state of a turn has the world, on which the interfaces of the runner
--     are functions, and a list of events: the calls of the model and of the tools.
--   * A Go map is an association list, whose order is that of one iteration.
--   * A time is a natural number of nanoseconds; a duration or a Go int is an integer over the
--     native numbers, with its wrap-around written out where it can be reached (`Prelude.Int64`).
--   * HMAC, SHA-256, base64, JSON, JSON schemas, RFC 3339, the time zone database, the clock and
--     the scheduling backend behind the gateway are parameters.
--   * An SQL statement is an update of a list of rows by its WHERE clause; a transaction is one
--     step. Other constraints of a table are tests that are parameters. The two statements of the
--     queue's Fail may have other calls between them (`Jobs.History`).
--
-- Bounds and fuel
--   * The engine's loop over days runs on rounds, and `Total` says how many are enough. The loops
--     over the starts of a period and over the minutes of a day run on the exact number of rounds
--     that the bounds of the source allow.
--   * The loop over attempts runs on the number of attempts that the executor allows.
--   * The loop of a turn runs on rounds, one for each iteration that the limit allows; the search for
--     a free identifier runs on one more round than there are identifiers in use.
--
-- What is not modelled: the other SQL repositories, the HTTP channels, tenants and identity, and the
-- providers of models; the texts of errors; times in traces; metadata of results such as durations
-- and versions. The executor's query for the trusted context and its randomised wait are
-- interfaces.
pub mod Prelude
pub mod Action
pub mod Tools
pub mod Llm
pub mod Agent
pub mod Scheduling
pub mod Jobs
pub mod Conversations
pub mod Proposals
pub mod Executor
