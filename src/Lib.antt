-- ===== src/Lib.antt =====
-- Verification of serpe, a runtime that runs a language model in a loop with tools.
--
-- A run (runtime/loops) asks the model for a response, reads which tool calls it holds, admits them
-- against the budgets of the run, and hands them as a batch to the tool executor (core/tools). The
-- batches of all runs share one coordinator, which decides when a call may start: it keeps a ticket
-- for each call in the order of submission, the resources that running calls claim, and the free
-- slots. The finished outputs go back into the run, which starts the next turn or stops.
--
-- The files and the code that they are about:
--   * Base: the helpers. Base/Tests the tests and `if`, Base/Result the results of code that can fail,
--     Base/Maps the maps of the code as association lists, Base/Text the strings as bytes with what the
--     code uses of unicode/utf8 and unicode.
--   * Models: the tool call of core/models/content.go and BoundedIdentity of
--     core/models/stream_limits.go. Models/Content: the blocks of core/models/content.go, their
--     validation and their copies. Models/Event: core/models/event.go and event_shape.go.
--   * Models/Reducer: core/models/reducer.go. Parts has start, startPart, deltaPart and endPart,
--     Finish has end, Apply has apply, and `reduce` applies the events of a stream in order. History
--     says what a list of events brings to a part, without the reducer; Change what one event changes;
--     Written, Tidy and Ordered have the theorems.
--   * Tools/Claims: core/tools/resource.go (validateClaim, normalizeClaims, claimsConflict,
--     extendClaims); its lemmas are in Tools/Claims/Conflict and Tools/Claims/Merge.
--   * Tools/Coordinator: core/tools/coordinator.go. Each region under the mutex is one function from
--     state to state: registerBatch is `register_batch`, acquireWaiter is `enqueue`, `try_grant` and
--     `cancel`, extend is `try_extend`, release is `release`, releasePermit is `release_permit`.
--     Tools/Coordinator/Run has the states that any interleaving of batches reaches. Its steps have
--     the order in which core/tools/batch.go calls the coordinator as premises: a call acquires its
--     static claims, its activator discovers a superset of them, and a call is released once.
--     Tools/Coordinator/Recorded reads from the steps alone which claims a call was announced with or
--     has discovered, and compares them with what the coordinator keeps.
--   * Tools/Pattern: core/tools/pattern.go, the parser of the patterns in tool schemas, with the cost
--     that it computes; Tools/Pattern/Total has its theorem.
--   * Tools/Limits: the configuration of an executor in core/tools/limits.go (normalizeConfig and what
--     it calls); Tools/Limits/Normal has its theorem. Tools/Quota: applyStartOptions of
--     core/tools/input.go and allocateCallQuotas of core/tools/limits.go, as Start of
--     core/tools/batch.go calls them; Tools/Quota/Shares has their theorems. Tools/Envelope:
--     checkEnvelope of core/tools/input.go; Tools/Envelope/Accepted has its theorem.
--   * Models/Limiter: streamLimiter of core/models/stream_limits.go with normalizeStreamLimits; its
--     theorem is in Models/Limiter/Within. Models/Frame: measureEventFrame and its counter, compared
--     with a plain sum (Models/Frame/Sum) in Models/Frame/Counted. Models/Stream: eventStream of
--     core/models/stream.go, where `take` is what Next does with an answer of its source and `close` is
--     Close; Models/Stream/Answer has its theorem.
--   * Json: internal/jsonvalue. Json/Text, Json/Number and Json/Parse are parse.go, Json/Write is
--     canon.go with Canonical, CanonicalObject and Equal of jsonvalue.go. Json/Within, Json/RoundTrip
--     and Json/Sorted have the theorems, the other files their lemmas.
--   * Sessions: the identifiers of runtime/sessions/session.go. Sessions/Page: the pages of store.go, with
--     its heap, of which only the root is in a fixed place, and the sort at the end.
--     Sessions/Memory: MemoryStore of memory.go, with Sessions/Memory/Refines and
--     Sessions/Memory/Listed for its theorems. Sessions/DrainClose: drainClose of lifecycle.go, with
--     the goroutines as threads; Sessions/DrainClose/Drained has its theorem. Sessions/Locks: acquire and
--     releaseRef of manager.go, where a lock is an object with an address and the callers are threads;
--     Sessions/Locks/Held has the theorem. Sessions/Locks/Two: acquireTwo of the same file, where a call
--     is a pair of threads; Sessions/Locks/Progress has the theorem.
--   * Providers/Sse: core/providers/internal/transport/sse/reader.go, where `next` is Next;
--     Providers/Sse/Bounded has its theorem.
--   * Http/Cursor: internal/httpapi/cursor.go; Http/Cursor/RoundTrip has its theorems.
--   * Loops/Budget and Loops/Ledger: runBudget and callLedger of runtime/loops/run_state.go.
--   * Loops/Admission: toolExchangeAdmission of runtime/loops/message_budget.go.
--   * Loops/Config: normalizeLimits, normalizeContextLimits and modelStreamLimits of
--     runtime/loops/config.go, and normalizeLimits of runtime/sessions/limits.go; Loops/Config/Accepted
--     has the theorem. Loops/Policy: normalizeToolResultPolicy of the same file, with its theorem in
--     Loops/Policy/Normal. Loops/Request: contractionPlans and prepareModelRequest of
--     runtime/loops/config.go; Loops/Request/Fitting has the theorem.
--   * Loops/Machine: runStateMachine of runtime/loops/stream.go, with setStopReason of
--     runtime/loops/result.go and resolveToolChoice of runtime/loops/policy.go. The relation `Step` has
--     the calls of `step`, those that pass on an event of a response or a batch included, and a call
--     of Close, which any goroutine may make between two of them. Loops/Configured: a run under the
--     limits that normalizeLimits gives it.
--   * Examples: the theorems at concrete inputs.
--
-- A component that can fail has a type `Result` of its own, which is `Fallible` of Base/Result at the
-- type of its errors, and its code is written in do blocks.
--
-- Numbers: the counters of a run start at 0 and its limits are not negative, so they are natural
-- numbers; where the code subtracts from a limit, the model compares sums. Tickets are counted up to
-- the largest uint64, where registerBatch stops, and the sequence number of a waiter wraps around.
-- Reported tokens and the fields of a configuration may be negative, so they are integers.
--
-- Fuel: the parser of patterns runs on fuel of four times the length of the text and three more,
-- which its theorem shows to be enough. The parser of JSON runs on the length of the text and one
-- more, and its loop over a string on the length of what is left, which its theorem shows to be
-- enough. The reader of server-sent events runs on the length of the text and one more, which its
-- theorem shows to be enough. A run has no fuel; its steps are counted, but
-- for those that only pass on an event, of which a model or a tool may send any number.
--
-- Parameters: the number of processors (runtime.GOMAXPROCS), whether a text is a URL with a scheme
-- (url.Parse), the text of a time, the encoded sizes of messages (internal/sessionwire), base64 and
-- HMAC-SHA256 in the cursors, the request that a conversation makes under a plan and the size that a
-- model's sizer gives it, the answers of a context, and what the model and the tools answer. The ledger
-- and the reducer take whether a text is a JSON object as an argument, and Models/Limiter the size of
-- an event; Json/Parse has the one (`is_object`), Models/Frame the other (`event_frame`).
--
-- Not modelled: what a call of `step` that is under way when Close is called does after it, where
-- Close has set the error of the run already; a cancelled context is a step that a waiter or a run may take at any time; the
-- wake-up channel of the coordinator, since a waiter may look again at any time; the reducer shares
-- the blocks of a part between two maps, and the model keeps one; the stream's calls that close its
-- source; the conversions of internal/jsonvalue/as.go; messages, the manager of sessions other than
-- its locks, the files of sessions, the schemas other than their patterns, the providers
-- other than their reader of events, the HTTP interface other than its cursors, the built-in tools and
-- the programs.
pub mod Base
pub mod Http
pub mod Json
pub mod Models
pub mod Providers
pub mod Sessions
pub mod Tools
pub mod Loops
mod Examples
