-- ===== src/Lib.antt =====
-- Models of the coordination server and of parts of the memory core, with the theorems that hold of
-- them.
--
-- The coordination server (src/coordination) keeps, in SQLite tables, the agents of a team, their
-- assignments, file locks, commands, circuit breakers, channel sessions and mailboxes, and answers
-- HTTP requests on them. A handler is a function of the tables (`Db`), the clock and the request, which
-- returns the new tables and a reply. The memory core (src/core) packs recalled memories into a token
-- budget, buffers co-activations for its Hebbian learning and seals secrets in a vault;
-- its store (src/storage) keeps the engrams with a cache, and its engines (src/engine) evict and
-- promote them, and decide which agent is consolidated when.
--
-- Base: the names that all files share, tests on numbers, lists, texts as UTF-16 code units, the SQL
--   statements on a table as a list of rows, and stable sorting.
-- Coordination/Schema: the tables of src/coordination/schema.ts and the enumerations of schemas.ts.
-- Coordination/Circuit: src/coordination/circuit-breaker.ts (recordFailure, recordSuccess, getState,
--   isAvailable).
-- Coordination/FailureModes: src/coordination/failure-modes.ts (classifyFailure, MUTATION_HINTS).
-- Coordination/Stale: src/coordination/stale.ts (retryOrFailAssignment, cleanupStale and the rest); it
--   calls the breaker and the failure modes.
-- Coordination/Mutex: src/coordination/write-mutex.ts (createWriteMutex, needsWriteLock).
-- The handlers of src/coordination/routes.ts: Coordination/Tokens (sessionTokenOk), Agents (POST
--   /checkin, /shutdown, /checkout, /channel/register, PATCH /pulse, DELETE /agent/:id), Dispatch (GET
--   /assignment and what POST /next shares with it: the choice and claim of an assignment and the
--   mailbox), Next (POST /next and POST /assign with deliverToChannel), Assignments (POST
--   /assignment/:id/claim and handleAssignmentUpdate), Reassign (POST /reassign and
--   /assignment/:id/fail), Locks (POST and DELETE /lock), Commands (POST, GET and DELETE /command, GET
--   /command/wait), Channel (POST /channel/push), RateLimit (the hook before every handler and the
--   timer's sweep).
-- TokenBudget: src/core/token-budget.ts (estimateTokens, packRecallByBudget).
-- Hebbian: src/core/hebbian.ts (CoActivationBuffer, ValidationGatedBuffer).
-- Vault: src/core/vault.ts (seal, open, knownSecrets, allow, disallow, isAllowed, recordUse, forget);
--   Vault/Handles its vaultIdsIn, the pattern written out class by class.
-- Engrams: the engrams and the slim cache of src/storage/sqlite.ts (createEngram, updateStage,
--   retractEngram, deleteEngram, updateEmbedding, ensureSlimCachePopulated, getEngramsByAgentSlim and
--   getEngramsByAgentsSlim among them); Engrams/Runs its operations in any order.
-- Eviction: src/engine/eviction.ts (enforceCapacity) and src/engine/staging.ts (sweep), with the
--   statements of src/storage/sqlite.ts that they make; it works on the store of Engrams.
-- Retraction: src/engine/retraction.ts (retract, inheritNarrativeEdges, propagateConfidenceReduction) on
--   the store of Engrams.
-- Rerank: src/core/rerank-window.ts (terms, densestWindow).
-- Cron, Scheduler: src/engine/consolidation-scheduler.ts (parseCronField and cronMatches; tick, pickAgent,
--   isQuiescent, and the marks of runMiniConsolidation and runFullConsolidation).
-- The files below a component hold its theorems; the Examples run the operations on concrete tables.
--
-- A row is a record and a table the list of its rows in the order of insertion. UUIDs and session
-- tokens are numbers, since they are only compared; those that a handler draws are its arguments. Times
-- are what the code stores, seconds for `datetime('now')` and milliseconds for `Date.now()`. An
-- exception of the store, such as a foreign key that names no row, is a reply of its own. A transaction
-- and the statements of one handler happen together: the requests are taken one after another.
--
-- Loops are recursion on lists, on the counter of the loop or on the depth that is left. Three functions are
-- on fuel: `decimal`, which prints a number's digits, on the number and one more, which the digits cannot
-- outnumber, `occurrences`, which looks for a term in a text, on any fuel above the text's length, and
-- `up_by`, the loop of a cron field, on its upper end and one more, since every step is 1 or more.
--
-- Parameters: what the network makes of a push (`Delivery`), the floating-point scale of a word count
-- and the comparison of two scores by density, and the vault's keyed hash and cipher (`Crypto`), which
-- are assumed to open what they encrypted and to give fingerprints of twelve hexadecimal digits or more
-- (`IsSound`). For the store: the type of its floating-point numbers, their clamping and the nudge of a
-- confidence, the bytes of a vector (`Numbers`), which are assumed to be written as they were read, the
-- score for eviction, the comparison of weights, and whether a recall finds something close; for the
-- retraction the arithmetic of weights and confidences (`Arithmetic`), with the cohesion of a
-- neighbourhood. For the rerank window `toLowerCase`, which may change a text's length; for the scheduler
-- what others do while a tick waits for the store (`Others`).
--
-- Not modelled: the text of log lines and of the audit trail's details, the events sent to observers,
-- the validation of bodies by the schema library, the handlers of findings and decisions, whose
-- tables are kept for the agents that they name, the engram that POST /assign makes of a
-- context, statistics and telemetry; outside the rerank window `toLowerCase` acts on ASCII letters. Rows that
-- a statement's order leaves open stand in the order of insertion. The floating-point formulas of the
-- memory core, its consolidation and its models, its other stores, the text index, tasks and episodes are outside.
pub mod Base
pub mod Coordination
pub mod TokenBudget
pub mod Hebbian
pub mod Vault
pub mod Engrams
pub mod Eviction
pub mod Rerank
pub mod Retraction
pub mod Cron
pub mod Scheduler
