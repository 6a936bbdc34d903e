-- ===== src/Lib.antt =====
-- Verification of Signal Archive (tech_p), a TypeScript monorepo that collects public technical sources,
-- keeps of them what their licences allow, embeds it, and answers questions about it.
--
-- The parts and how they interact. A worker plans the partitions of a collection target
-- (apps/worker/src/partition-runtime.ts) through the collection state
-- (packages/database/src/collection-state.ts with the types and rules of
-- packages/domain/src/collection-state.ts): tables of targets, partitions, page attempts, checkpoints, raw
-- items and an outbox of deliveries. Workers lease one page of a partition at a time, commit it with its
-- items and send the deliveries on. An embedding of a chunk is a work item
-- (packages/database/src/embedding-work.ts), bound to a reservation of the budget ledger
-- (packages/database/src/provider-budget.ts) before the provider is called. Chat calls and query
-- embeddings go through packages/domain/src/provider-budget.ts, which reserves, calls, and settles or
-- holds. The embedding service (packages/domain/src/embedding-service.ts) ties all of these together for
-- each chunk of a document. Workers ask a limiter (apps/worker/src/concurrency.ts) before they call a
-- source. Answers come from retrieved chunks (packages/rag): ranked lists are fused, a context is put
-- together within a token budget, and a draft of an answer is checked against what it cites. A release
-- evaluation (apps/api/src/release-budget.ts) puts a journalled budget of its own around the same calls.
--
-- The files.
--   Base                 what all share: Boolean tests, JavaScript numbers, dates and texts, results that
--                        may be errors (Base/Errors), tables as lists (Base/Lists), rows followed by key
--                        from one table to a later one (Base/Tracking)
--   Budget/Ledger        packages/database/src/provider-budget.ts: reserve, settle, hold_unknown,
--                        release_unsent for reserve, settle, holdUnknown, releaseUnsent, and Configuring has
--                        configure_scope for configureScope; Within states the invariant on limits,
--                        Admission, Reserving and Keeps treat it call by call, Evolving is about what calls
--                        leave as it is, Traces about any calls, Retries and Closing about repeated and late
--                        calls and about what a call leaves reserved
--   Collection           packages/domain/src/collection-state.ts: Model (types and rows), Policy
--                        (assertCollectableTarget, the rights of an item), Page (windows, cursors, page
--                        results)
--   Collection/Store     packages/database/src/collection-state.ts: the tables; Leasing (planPartition,
--                        claimPage), Renewing (renewPage, failPage, resumePartition), Commit (commitPage),
--                        Outbox (claimDeliveries, markSent, completeDelivery, attachRevision), Targets
--                        (registerTarget, setTargetEnabled), Replaying (replan of createDatabaseReplayPorts)
--   Collection/Lifecycle the abstract life of a partition as a step relation; Refines, Paging and Committing
--                        relate each transaction to it, Traces all of them in any order; Claiming and
--                        Fencing are about leases, Rights, Stored and Cursors about items and cursors
--   Embedding            packages/database/src/embedding-work.ts: Items has the tables, Work claim_or_read,
--                        begin_call, complete_work, mark_outcome_unknown and mark_failed for
--                        claimOrReadCompleted, beginCall, completeWork, markOutcomeUnknown and markFailed;
--                        Rows is about the keys of the table, Once, Marks, Advancing and Runs about how far
--                        a work item is
--   Calls                packages/domain/src/provider-budget.ts: Port is the budget port with its laws
--                        (ProviderBudgetPort of packages/domain/src/model-work.ts), Checks the tests and
--                        amounts, Guarded both calls, LedgerPort the ledger as that port; Prices, Amounts and
--                        Closed are about them
--   Service              packages/domain/src/embedding-service.ts: Preflight has the first step, Chunk
--                        process_chunk and process_batch for processChunk and processBatch, over
--                        Embedding/Work and Budget/Ledger; Opened, Unsent and Settling are about what a step
--                        leaves open, Holding about what it records, Closed and Recorded about a whole call,
--                        Named and Batches about a batch
--   Limiter              apps/worker/src/concurrency.ts: Caps has cap_for for capForSource, Lanes the
--                        limiter in memory (run, drain), Leases the one over Redis: acquire, renew and
--                        release for its three scripts, poll and conclude for the start and the end of run;
--                        Fairness is about lanes, Within and Kept about leases
--   Worker               apps/worker/src/ingestion.ts: Outcomes and Page have execute_page for
--                        executePartitionPage, with the transactions of others as an argument, and notice_of
--                        for the job handler; Refining, Reports and Failures are about it.
--                        apps/worker/src/partition-runtime.ts: Dispatch has dispatch_batch for dispatchBatch
--                        and tick; Accounting and Ticking are about them
--   Rag                  packages/rag/src: Citations and Drafts for answer-validation.ts
--                        (extract_citation_ids, validate_answer_draft), with Occurrences and Supported about
--                        them; Merging and Context for context-assembly.ts (merge_adjacent_hits,
--                        suppress_from, check_sufficiency, assemble_context_evidence), with Budgeted and
--                        Spacing about it; Fusion for retrieval-fusion.ts (fuse_retrieval_candidates), with Represented,
--                        Capped and Diversity about it; Hits for the SearchHit of packages/domain/src/search.ts
--   Runtime              apps/worker/src/partition-runtime.ts: planTargetPartitions over a planning port;
--                        StatePort is planPartition of the collection state as that port
--   Release              apps/api/src/release-budget.ts: Journal has the replay of a journal, Execute a call
--   Abuse                apps/api/src/abuse-controls.ts: the limiters, and what they let through
-- Each component's runs on concrete inputs stand in its Tests; Collection/Sample has the tables that two
-- of them use.
--
-- How the code is read. A transaction is a function from the tables to a result; one that throws is rolled
-- back, so that its error carries no tables. A call that is no transaction returns its state beside its
-- result. Transactions on the same rows exclude each other by row locks, so that concurrent workers are
-- sequences of transactions in any order. Ids that the database draws are numbers counted up. Texts are
-- lists of UTF-16 code units. Times are milliseconds since the epoch, and a date may be invalid; columns
-- that only record when a row was written are left out. A JavaScript number at a boundary is a natural, a
-- negative integer or no integer (Base/Tests); past its test it is a natural, so that sums and prices are
-- exact, where the code's are as long as they stay below 2^53. Subtraction is cut off at 0, which no time
-- after 1970 reaches.
--
-- What is a parameter. SHA-256 over canonical JSON, and JSON in base64url, are functions of a codec
-- (Collection/Page, Embedding/Items), with the one law that a cursor reads back as it was written; that
-- two plans with one key have one window, as long as the hash has no collisions, is a hypothesis of
-- Runtime/StatePort; the natural key of a delivery is the value that is hashed. Queries over the tables
-- of documents, chunks and rights are arguments: what completeDelivery and checkWorkRights find, and the
-- state of the work item that releaseUnsent looks up, which Service finds in the table of work items.
-- What a provider answers and what a journal takes are arguments too, and so are what a collector
-- returns, what other workers do meanwhile and what the handlers of deliveries do. The order that the
-- outbox is read in is by due time and id; rows that another transaction has locked are not skipped. In a
-- chunk's processing no other transaction comes between its own. The scores of a fusion with their order,
-- lower case and the parsing of a URL are operations of a record (Rag/Fusion, Rag/Context). A sort in
-- which a hit has no ordinal is left to the engine by its comparison; the model keeps an insertion sort.
-- Token counts are naturals, and so are the tokens of leases, the ids of chunks that are embedded and
-- those of operations. Each call of a lease script reads a clock of its own.
--
-- Bounds and fuel. The loop of a backfill runs on fuel, one unit for each millisecond of its window and
-- one to stop: each slice that is planned takes at least one. The polls for a lease run on fuel, for each
-- millisecond up to the deadline and one more: the clock advances between polls. The digits of a number
-- have as much fuel as the number. All else is structural recursion. Slices are whole milliseconds.
--
-- Not modelled: the paged reads of the collection state and the two queries for a replay; the start and
-- stop of the runtime; the files and deadlines of a release run; the timers that renew a lease; the
-- patterns of the query parser and of the evidence requirements, the JSON of an answer and the answer
-- service; the collectors, normalization, search, retention, discovery, observability, the HTTP interface
-- and the web application.
pub mod Base
pub mod Budget
pub mod Collection
pub mod Embedding
pub mod Calls
pub mod Runtime
pub mod Release
pub mod Service
pub mod Limiter
pub mod Rag
pub mod Worker
pub mod Abuse
