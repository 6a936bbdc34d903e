-- ===== src/Service/Chunk.antt =====
-- processChunk and processBatch of packages/domain/src/embedding-service.ts over the work items and the
-- ledger of one database. A call that throws keeps what its transactions did before, so the database is
-- returned beside the result. What the provider answers is an argument.
use tech_p.Base.{
  ℕ, Bool, false, ◌&&◌, Option, none, some, List, [], ◌∷◌, find, ◌==◌, Num, nat, safe_nat, at, Text,
  eq_text, codes, Result, ok, err, ◌>>=◌, if◌then◌else◌,
}
use tech_p.Budget.Ledger.{
  BudgetError, invalid_usage, stale_work, WorkState, Reservation, Ledger, reserve, settle,
  hold_unknown, release_unsent,
}
use tech_p.Embedding.Items.{
  Hashing, Profile, WorkKey, Work, Component, EmbedDb, Claimed, valid_vector,
}
use tech_p.Embedding.Work.{
  claim_or_read, begin_call, complete_work, mark_outcome_unknown, mark_failed, attempt_id,
}
use tech_p.Calls.Checks.{CallError, budget, provider_error, token_units}
use tech_p.Calls.Guarded.{Usage, same_count, at_most}
use tech_p.Service.Preflight.{
  ChunkInput, ServiceOptions, ChunkStatus, ChunkResult, ChunkOutcome, ChunkCall, Approved,
  preflight, completed, reused, in_flight, outcome_unknown, failed, refused, lost, embedded,
}

abbrev pub Reply : Type 0
Reply = Result CallError ChunkResult × EmbedDb

abbrev pub reply : ChunkStatus → ChunkInput → Work → Option CallError → ChunkResult
reply status chunk w error = record {
  chunk_id = chunk.chunk_id;
  status = status;
  work_id = some w.id;
  vector = none;
  error = error;
}

-- releaseUnsent, with the state of the work item that is bound to the reservation.
abbrev pub is_this : ℕ → Option ℕ → Bool
is_this id none = false
is_this id (some n) = n == id

abbrev pub state_of : Option Work → Option WorkState
state_of none = none
state_of (some w) = some w.state

abbrev pub bound_state : ℕ → EmbedDb → Option WorkState
bound_state reservation db = state_of (find (λ w. is_this reservation w.reservation_id) db.works)

unfoldable pub release_bound : ℕ → ℕ → EmbedDb → Result BudgetError EmbedDb
release_bound reservation now db = do
  ledger ← release_unsent reservation (bound_state reservation db) now db.ledger
  ok (record db { ledger = ledger })

-- `markOutcomeUnknown`, then `holdUnknown`
unfoldable pub put_in_doubt : Work → ℕ → ℕ → EmbedDb → EmbedDb
put_in_doubt w reservation now db =
    let marked = mark_outcome_unknown w.id w.epoch now db in
    record marked { ledger = hold_unknown reservation now marked.ledger }

-- Step 6 and the test of step 7: the tokens to settle.
unfoldable pub charged_tokens : Profile → ℕ → List Component → Text → Num → Usage → Option ℕ
charged_tokens p max_tokens vector model dimensions usage =
    if eq_text model p.model
      && same_count (safe_nat dimensions) (safe_nat p.dimensions)
      && valid_vector vector p.dimensions
      && same_count (safe_nat usage.total) (safe_nat usage.input)
      && at_most (safe_nat usage.total) max_tokens
    then safe_nat usage.total
    else none

abbrev pub key_of : ChunkCall → WorkKey
key_of call = record {
  chunk_id = call.chunk.chunk_id;
  input_hash = call.chunk.input_hash;
  profile = call.profile;
}

-- An error becomes a failed result of its chunk.
abbrev pub reported : ChunkInput → Result CallError ChunkResult → ChunkResult
reported chunk (ok r) = r
reported chunk (err e) = record {
  chunk_id = chunk.chunk_id;
  status = failed;
  work_id = none;
  vector = none;
  error = some e;
}

module _ (hashing : Hashing) where
  -- The end of step 7. The settlement stands whatever becomes of the work item.
  unfoldable pub finish :
      ChunkInput → Work → List Component → ℕ → EmbedDb → Result BudgetError EmbedDb → Reply
  finish chunk w vector now db (ok db') =
      (ok (record (reply completed chunk w none) { vector = some vector }), db')
  finish chunk w vector now db (err e) = (
    ok (reply outcome_unknown chunk w (some (budget e))),
    mark_outcome_unknown w.id w.epoch now db,
  )

  unfoldable pub settled :
      ChunkCall → Work → List Component → EmbedDb → Result BudgetError Ledger → Reply
  unfolding finish
  settled call w vector db (err e) = (err (budget e), db)
  settled call w vector db (ok ledger) =
      let paid = record db { ledger = ledger } in
      finish call.chunk w vector call.now paid
        (complete_work hashing w.id w.epoch vector call.now call.rights.at_end paid)

  unfoldable pub settle_units :
      ChunkCall → Work → ℕ → List Component → ℕ → EmbedDb → Result CallError ℕ → Reply
  unfolding settled
  settle_units call w reservation vector tokens db (err e) = (err e, db)
  settle_units call w reservation vector tokens db (ok units) =
      settled call w vector db (settle reservation (nat units) (nat tokens) call.now db.ledger)

  unfoldable pub settle_tokens :
      ChunkCall → Num → Work → ℕ → List Component → EmbedDb → Option ℕ → Reply
  unfolding settle_units put_in_doubt
  settle_tokens call rate w reservation vector db none =
      (err (budget invalid_usage), put_in_doubt w reservation call.now db)
  settle_tokens call rate w reservation vector db (some tokens) =
      settle_units call w reservation vector tokens db (token_units (nat tokens) rate)

  -- What an error that is not to be retried leaves.
  unfoldable pub refused_reply : ChunkInput → Work → EmbedDb → Result BudgetError EmbedDb → Reply
  refused_reply chunk w db (err e) = (err (budget e), db)
  refused_reply chunk w db (ok db') = (ok (reply failed chunk w (some provider_error)), db')

  -- Steps 5 to 7.
  unfoldable pub after_provider : ChunkOutcome → ChunkCall → Approved → Work → ℕ → EmbedDb → Reply
  unfolding refused_reply put_in_doubt settle_tokens charged_tokens release_bound
  after_provider refused call a w reservation db =
      let marked = mark_failed w.id w.epoch db in
      refused_reply call.chunk w marked (release_bound reservation call.now marked)
  after_provider lost call a w reservation db = (
    ok (reply outcome_unknown call.chunk w (some provider_error)),
    put_in_doubt w reservation call.now db,
  )
  after_provider (embedded vector model dimensions usage) call a w reservation db =
      settle_tokens call a.rate w reservation vector db
        (charged_tokens call.profile a.max_tokens vector model dimensions usage)

  -- A reservation whose call does not begin is released, and the error goes on.
  unfoldable pub unsent : BudgetError → EmbedDb → Result BudgetError EmbedDb → Reply
  unsent e db (err e') = (err (budget e'), db)
  unsent e db (ok db') = (err (budget e), db')

  -- Step 4.
  unfoldable pub after_begin :
      ChunkCall → Approved → Work → ℕ → EmbedDb → Result BudgetError EmbedDb → Reply
  unfolding unsent release_bound after_provider
  after_begin call a w reservation db (err e) = unsent e db (release_bound reservation call.now db)
  after_begin call a w reservation db (ok db') =
      after_provider call.outcome call a w reservation db'

  unfoldable pub after_reserve :
      ChunkCall → Approved → Work → EmbedDb → Result BudgetError (Reservation × Ledger) → Reply
  unfolding after_begin
  after_reserve call a w db (err e) = (err (budget e), db)
  after_reserve call a w db (ok (r, ledger)) =
      let paid = record db { ledger = ledger } in
      after_begin call a w r.id paid
        (begin_call hashing w.id w.epoch r.id call.now call.rights.at_call paid)

  -- Step 3.
  unfoldable pub reserve_units :
      ServiceOptions → ChunkCall → Approved → Work → EmbedDb → Result CallError ℕ → Reply
  unfolding after_reserve
  reserve_units o call a w db (err e) = (err e, db)
  reserve_units o call a w db (ok units) = after_reserve call a w db (
      reserve o.scope_id (attempt_id hashing w.id w.epoch) (codes "ingestion_embedding") (nat units)
        (nat a.max_tokens) (at call.now) db.ledger)

  -- Step 2: by the state of the row that the claim gives.
  unfoldable pub by_state :
      WorkState
      → ServiceOptions
      → ChunkCall
      → Approved
      → Work
      → Option (List Component)
      → EmbedDb
      → Reply
  unfolding reserve_units
  by_state WorkState.completed o call a w vector db =
      (ok (record (reply reused call.chunk w none) { vector = vector }), db)
  by_state WorkState.outcome_unknown o call a w vector db =
      (ok (reply outcome_unknown call.chunk w none), db)
  by_state WorkState.failed o call a w vector db = (ok (reply failed call.chunk w none), db)
  by_state WorkState.claimed o call a w vector db =
      reserve_units o call a w db (token_units (nat a.max_tokens) a.rate)
  by_state WorkState.pending o call a w vector db = (err (budget stale_work), db)
  by_state WorkState.calling o call a w vector db = (err (budget stale_work), db)

  unfoldable pub after_claim :
      ServiceOptions
      → ChunkCall
      → Approved
      → EmbedDb
      → Result BudgetError (Option Claimed × EmbedDb)
      → Reply
  unfolding by_state
  after_claim o call a db (err e) = (err (budget e), db)
  after_claim o call a db (ok (none, db')) = (
    ok (record {
      chunk_id = call.chunk.chunk_id;
      status = in_flight;
      work_id = none;
      vector = none;
      error = none;
    }),
    db',
  )
  after_claim o call a db (ok (some (w, vector), db')) = by_state w.state o call a w vector db'

  unfoldable pub after_preflight :
      ServiceOptions → ChunkCall → EmbedDb → Result CallError Approved → Reply
  unfolding after_claim
  after_preflight o call db (err e) = (err e, db)
  after_preflight o call db (ok a) =
      after_claim o call a db
        (claim_or_read hashing (key_of call) call.now a.lease call.rights.at_claim db)

  unfoldable pub process_chunk : ServiceOptions → ChunkCall → EmbedDb → Reply
  unfolding after_preflight preflight
  process_chunk o call db = after_preflight o call db (preflight o call.chunk call.profile)

  unfoldable pub process_batch :
      ServiceOptions → List ChunkCall → EmbedDb → List ChunkResult × EmbedDb
  unfolding process_chunk
  process_batch o [] db = ([], db)
  process_batch o (call ∷ calls) db =
      let (result, db') = process_chunk o call db in
      let (results, end) = process_batch o calls db' in (reported call.chunk result ∷ results, end)
