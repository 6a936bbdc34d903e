-- ===== src/Service/Named.antt =====
-- The chunk that a result of packages/domain/src/embedding-service.ts names: step by step, that of its call.
use tech_p.Base.{
  ℕ, ◌≡◌, refl, ◌∙◌, ap, Option, none, some, List, [], ◌∷◌, map, Num, nat, Result, ok, err,
}
use tech_p.Budget.Ledger.{BudgetError, WorkState, Reservation, Ledger, settle}
use tech_p.Embedding.Items.{Hashing, Work, Component, EmbedDb, Claimed}
use tech_p.Embedding.Work.{claim_or_read, begin_call, mark_failed}
use tech_p.Calls.Checks.{CallError, token_units}
use tech_p.Service.Preflight.{
  ChunkInput, ServiceOptions, ChunkResult, ChunkOutcome, ChunkCall, Approved, preflight, refused,
  lost, embedded,
}
use tech_p.Service.Chunk.{
  Reply, reported, key_of, charged_tokens, release_bound, finish, settled, settle_units,
  settle_tokens, refused_reply, after_provider, unsent, after_begin, after_reserve, reserve_units,
  by_state, after_claim, after_preflight, process_chunk, process_batch,
}

-- What is returned names the chunk.
abbrev Names : ChunkInput → Reply → Type 0
Names chunk (ok r, db) = r.chunk_id ≡ chunk.chunk_id
Names chunk (err e, db) = Unit

module _ (hashing : Hashing) where
  finish-Names :
      (chunk : ChunkInput) (w : Work) (vector : List Component) (now : ℕ) (db : EmbedDb)
      (m : Result BudgetError EmbedDb)
      → Names chunk (finish hashing chunk w vector now db m)
  unfolding finish
  finish-Names chunk w vector now db (ok db') = refl
  finish-Names chunk w vector now db (err e) = refl

  settled-Names :
      (call : ChunkCall) (w : Work) (vector : List Component) (db : EmbedDb)
      (m : Result BudgetError Ledger)
      → Names call.chunk (settled hashing call w vector db m)
  unfolding settled
  settled-Names call w vector db (err e) = tt
  settled-Names call w vector db (ok ledger) = finish-Names call.chunk w vector call.now _ _

  settle_units-Names :
      (call : ChunkCall) (w : Work) (r : ℕ) (vector : List Component) (tokens : ℕ) (db : EmbedDb)
      (m : Result CallError ℕ)
      → Names call.chunk (settle_units hashing call w r vector tokens db m)
  unfolding settle_units
  settle_units-Names call w r vector tokens db (err e) = tt
  settle_units-Names call w r vector tokens db (ok units) =
      settled-Names call w vector db (settle r (nat units) (nat tokens) call.now db.ledger)

  settle_tokens-Names :
      (call : ChunkCall) (rate : Num) (w : Work) (r : ℕ) (vector : List Component) (db : EmbedDb)
      (o : Option ℕ)
      → Names call.chunk (settle_tokens hashing call rate w r vector db o)
  unfolding settle_tokens
  settle_tokens-Names call rate w r vector db none = tt
  settle_tokens-Names call rate w r vector db (some tokens) =
      settle_units-Names call w r vector tokens db (token_units (nat tokens) rate)

  refused_reply-Names :
      (chunk : ChunkInput) (w : Work) (db : EmbedDb) (m : Result BudgetError EmbedDb)
      → Names chunk (refused_reply hashing chunk w db m)
  unfolding refused_reply
  refused_reply-Names chunk w db (err e) = tt
  refused_reply-Names chunk w db (ok db') = refl

  after_provider-Names :
      (outcome : ChunkOutcome) (call : ChunkCall) (a : Approved) (w : Work) (r : ℕ) (db : EmbedDb)
      → Names call.chunk (after_provider hashing outcome call a w r db)
  unfolding after_provider
  after_provider-Names refused call a w r db =
      let marked = mark_failed w.id w.epoch db in
      refused_reply-Names call.chunk w marked (release_bound r call.now marked)
  after_provider-Names lost call a w r db = refl
  after_provider-Names (embedded vector model dimensions usage) call a w r db =
      settle_tokens-Names call a.rate w r vector db
        (charged_tokens call.profile a.max_tokens vector model dimensions usage)

  unsent-Names :
      (chunk : ChunkInput) (e : BudgetError) (db : EmbedDb) (m : Result BudgetError EmbedDb)
      → Names chunk (unsent hashing e db m)
  unfolding unsent
  unsent-Names chunk e db (err x) = tt
  unsent-Names chunk e db (ok db') = tt

  after_begin-Names :
      (call : ChunkCall) (a : Approved) (w : Work) (r : ℕ) (db : EmbedDb)
      (m : Result BudgetError EmbedDb)
      → Names call.chunk (after_begin hashing call a w r db m)
  unfolding after_begin
  after_begin-Names call a w r db (err e) =
      unsent-Names call.chunk e db (release_bound r call.now db)
  after_begin-Names call a w r db (ok db') = after_provider-Names call.outcome call a w r db'

  after_reserve-Names :
      (call : ChunkCall) (a : Approved) (w : Work) (db : EmbedDb)
      (m : Result BudgetError (Reservation × Ledger))
      → Names call.chunk (after_reserve hashing call a w db m)
  unfolding after_reserve
  after_reserve-Names call a w db (err e) = tt
  after_reserve-Names call a w db (ok (r, ledger)) =
      let paid = record db { ledger = ledger } in
      after_begin-Names call a w r.id paid
        (begin_call hashing w.id w.epoch r.id call.now call.rights.at_call paid)

  reserve_units-Names :
      (o : ServiceOptions) (call : ChunkCall) (a : Approved) (w : Work) (db : EmbedDb)
      (m : Result CallError ℕ)
      → Names call.chunk (reserve_units hashing o call a w db m)
  unfolding reserve_units
  reserve_units-Names o call a w db (err e) = tt
  reserve_units-Names o call a w db (ok units) = after_reserve-Names call a w db _

  by_state-Names :
      (st : WorkState) (o : ServiceOptions) (call : ChunkCall) (a : Approved) (w : Work)
      (vector : Option (List Component)) (db : EmbedDb)
      → Names call.chunk (by_state hashing st o call a w vector db)
  unfolding by_state
  by_state-Names WorkState.completed o call a w vector db = refl
  by_state-Names WorkState.outcome_unknown o call a w vector db = refl
  by_state-Names WorkState.failed o call a w vector db = refl
  by_state-Names WorkState.claimed o call a w vector db =
      reserve_units-Names o call a w db (token_units (nat a.max_tokens) a.rate)
  by_state-Names WorkState.pending o call a w vector db = tt
  by_state-Names WorkState.calling o call a w vector db = tt

  after_claim-Names :
      (o : ServiceOptions) (call : ChunkCall) (a : Approved) (db : EmbedDb)
      (m : Result BudgetError (Option Claimed × EmbedDb))
      → Names call.chunk (after_claim hashing o call a db m)
  unfolding after_claim
  after_claim-Names o call a db (err e) = tt
  after_claim-Names o call a db (ok (none, db')) = refl
  after_claim-Names o call a db (ok (some (w, vector), db')) =
      by_state-Names w.state o call a w vector db'

  after_preflight-Names :
      (o : ServiceOptions) (call : ChunkCall) (db : EmbedDb) (m : Result CallError Approved)
      → Names call.chunk (after_preflight hashing o call db m)
  unfolding after_preflight
  after_preflight-Names o call db (err e) = tt
  after_preflight-Names o call db (ok a) =
      after_claim-Names o call a db
        (claim_or_read hashing (key_of call) call.now a.lease call.rights.at_claim db)

  process_chunk-Names :
      (o : ServiceOptions) (call : ChunkCall) (db : EmbedDb)
      → Names call.chunk (process_chunk hashing o call db)
  unfolding process_chunk
  process_chunk-Names o call db =
      after_preflight-Names o call db (preflight o call.chunk call.profile)

  reported-Names :
      (chunk : ChunkInput) (reply : Reply)
      → Names chunk reply
      → (reported chunk reply.0).chunk_id ≡ chunk.chunk_id
  reported-Names chunk (ok r, db) names = names
  reported-Names chunk (err e, db) names = refl

  -- The results of a batch are one for each call, in their order.
  pub process_batch-named :
      (o : ServiceOptions) (calls : List ChunkCall) (db : EmbedDb)
      → map (λ (r : ChunkResult). r.chunk_id) (process_batch hashing o calls db).0
        ≡ map (λ (c : ChunkCall). c.chunk.chunk_id) calls
  unfolding process_batch
  process_batch-named o [] db = refl
  process_batch-named o (call ∷ calls) db =
      let reply = process_chunk hashing o call db in
      let ids = map (λ (r : ChunkResult). r.chunk_id) (process_batch hashing o calls reply.1).0 in
      ap (λ id. id ∷ ids) (reported-Names call.chunk reply (process_chunk-Names o call db))
      ∙ ap (λ (l : List ℕ). call.chunk.chunk_id ∷ l) (process_batch-named o calls reply.1)
