-- ===== src/Service/Recorded.antt =====
-- The status that processChunk of packages/domain/src/embedding-service.ts reports, against the state of
-- the work item in the database.
use mathlib.Core.Path.{subst}
use tech_p.Base.{
  ℕ, ◌≡◌, refl, sym, ◌∙◌, ap, Bool, Option, none, some, List, arith, Num, Result, ok, err, ◌>>=◌,
}
use tech_p.Budget.Ledger.{BudgetError, WorkState, Ledger, Reservation}
use tech_p.Calls.Checks.{CallError}
use tech_p.Embedding.Items.{
  Hashing, Work, Component, EmbedDb, Claimed, find_work, set_work, with_state, completed_with,
  claimed_by, hold_bound,
}
use tech_p.Embedding.Work.{
  begin_call, mark_outcome_unknown, mark_failed, complete_work, insert_embedding, claim_or_read,
  insert_work,
}
use tech_p.Embedding.Rows.{IsSound, insert_work-IsSound}
use tech_p.Embedding.Inverting.{ClaimEnd, complete_work-eq-ok, claim_or_read-eq-ok}
use tech_p.Service.Preflight.{
  ServiceOptions, ChunkInput, ChunkCall, ChunkOutcome, refused, lost, embedded, Approved, preflight,
}
use tech_p.Service.Chunk.{
  finish, settled, settle_units, settle_tokens, refused_reply, put_in_doubt, release_bound,
  after_provider, unsent, after_begin, after_reserve, reserve_units, by_state, after_claim, key_of,
  after_preflight, process_chunk,
}
use tech_p.Service.Holding.{
  Holds, Recorded, found_updated, Called, begin_call-Called, mark_outcome_unknown-Holds,
  mark_failed-Holds, row_of, Holds-works, Called-works,
}

module _ (hashing : Hashing) where
  finish-Recorded :
      (chunk : ChunkInput) (w : Work) (r : ℕ) (vector : List Component) (now : ℕ) (rights : Bool)
      (db : EmbedDb) (m : Result BudgetError EmbedDb)
      → complete_work hashing w.id w.epoch vector now rights db ≡ m
      → Called w r db
      → Recorded (finish hashing chunk w vector now db m)
  unfolding finish insert_embedding
  finish-Recorded chunk w r vector now rights db (err e) h c =
      mark_outcome_unknown-Holds w r now db c
  finish-Recorded chunk w r vector now rights db (ok db') h c =
      let (row, x, found, _, _, same) =
        complete_work-eq-ok hashing w.id w.epoch vector now rights db db' h in
      let stored = insert_embedding hashing row vector db in
      let kept : db.works ≡ stored.works = ground arith in
      subst (Holds (some w.id) WorkState.completed) same (
        (
          completed_with x.id row,
          found_updated w.id (completed_with x.id) stored row (λ y. refl)
              (ap (find_work w.id) (sym kept) ∙ found),
          refl,
        ))

  settled-Recorded :
      (call : ChunkCall) (w : Work) (r : ℕ) (vector : List Component) (db : EmbedDb)
      (m : Result BudgetError Ledger)
      → Called w r db
      → Recorded (settled hashing call w vector db m)
  unfolding settled
  settled-Recorded call w r vector db (err e) c = tt
  settled-Recorded call w r vector db (ok ledger) c =
      let paid = record db { ledger = ledger } in
      finish-Recorded call.chunk w r vector call.now call.rights.at_end paid _ refl
        (Called-works w r db paid refl c)

  settle_units-Recorded :
      (call : ChunkCall) (w : Work) (r : ℕ) (vector : List Component) (t : ℕ) (db : EmbedDb)
      (m : Result CallError ℕ)
      → Called w r db
      → Recorded (settle_units hashing call w r vector t db m)
  unfolding settle_units
  settle_units-Recorded call w r vector t db (err e) c = tt
  settle_units-Recorded call w r vector t db (ok u) c = settled-Recorded call w r vector db _ c

  settle_tokens-Recorded :
      (call : ChunkCall) (rate : Num) (w : Work) (r : ℕ) (vector : List Component) (db : EmbedDb)
      (o : Option ℕ)
      → Called w r db
      → Recorded (settle_tokens hashing call rate w r vector db o)
  unfolding settle_tokens
  settle_tokens-Recorded call rate w r vector db none c = tt
  settle_tokens-Recorded call rate w r vector db (some t) c =
      settle_units-Recorded call w r vector t db _ c

  refused_reply-Recorded :
      (chunk : ChunkInput) (w : Work) (db : EmbedDb) (o : Result BudgetError Ledger)
      → Holds (some w.id) WorkState.failed db
      → Recorded
          (refused_reply hashing chunk w db (o >>= λ ledger. ok (record db { ledger = ledger })))
  unfolding refused_reply
  refused_reply-Recorded chunk w db (err e) h = tt
  refused_reply-Recorded chunk w db (ok ledger) h =
      Holds-works (some w.id) WorkState.failed db (record db { ledger = ledger }) refl h

  after_provider-Recorded :
      (outcome : ChunkOutcome) (call : ChunkCall) (a : Approved) (w : Work) (r : ℕ) (db : EmbedDb)
      → Called w r db
      → Recorded (after_provider hashing outcome call a w r db)
  unfolding after_provider put_in_doubt release_bound
  after_provider-Recorded refused call a w r db c =
      refused_reply-Recorded call.chunk w (mark_failed w.id w.epoch db) _
        (mark_failed-Holds w r db c)
  after_provider-Recorded lost call a w r db c =
      Holds-works (some w.id) WorkState.outcome_unknown
        (mark_outcome_unknown w.id w.epoch call.now db) (put_in_doubt w r call.now db) refl
        (mark_outcome_unknown-Holds w r call.now db c)
  after_provider-Recorded (embedded vector model dimensions usage) call a w r db c =
      settle_tokens-Recorded call a.rate w r vector db _ c

  after_begin-Recorded :
      (call : ChunkCall) (a : Approved) (w : Work) (r : ℕ) (db : EmbedDb)
      (m : Result BudgetError EmbedDb)
      → begin_call hashing w.id w.epoch r call.now call.rights.at_call db ≡ m
      → Recorded (after_begin hashing call a w r db m)
  unfolding after_begin
  after_begin-Recorded call a w r db (ok db') h =
      after_provider-Recorded call.outcome call a w r db'
        (begin_call-Called hashing w r call.now call.rights.at_call db db' h)
  after_begin-Recorded call a w r db (err e) h = unsent_reply (release_bound r call.now db)
    where
      unsent_reply : (m : Result BudgetError EmbedDb) → Recorded (unsent hashing e db m)
      unsent_reply (ok db') = tt
      unsent_reply (err x) = tt

  after_reserve-Recorded :
      (call : ChunkCall) (a : Approved) (w : Work) (db : EmbedDb)
      (m : Result BudgetError (Reservation × Ledger))
      → Recorded (after_reserve hashing call a w db m)
  unfolding after_reserve
  after_reserve-Recorded call a w db (err e) = tt
  after_reserve-Recorded call a w db (ok (r, ledger)) = after_begin-Recorded call a w r.id _ _ refl

  reserve_units-Recorded :
      (o : ServiceOptions) (call : ChunkCall) (a : Approved) (w : Work) (db : EmbedDb)
      (m : Result CallError ℕ)
      → Recorded (reserve_units hashing o call a w db m)
  unfolding reserve_units
  reserve_units-Recorded o call a w db (err e) = tt
  reserve_units-Recorded o call a w db (ok units) = after_reserve-Recorded call a w db _

  by_state-Recorded :
      (st : WorkState) (o : ServiceOptions) (call : ChunkCall) (a : Approved) (w : Work)
      (vector : Option (List Component)) (db : EmbedDb)
      → w.state ≡ st
      → find_work w.id db.works ≡ some w
      → Recorded (by_state hashing st o call a w vector db)
  unfolding by_state
  by_state-Recorded WorkState.completed o call a w vector db h found = (w, found, h)
  by_state-Recorded WorkState.outcome_unknown o call a w vector db h found = (w, found, h)
  by_state-Recorded WorkState.failed o call a w vector db h found = (w, found, h)
  by_state-Recorded WorkState.claimed o call a w vector db h found =
      reserve_units-Recorded o call a w db _
  by_state-Recorded WorkState.pending o call a w vector db h found = tt
  by_state-Recorded WorkState.calling o call a w vector db h found = tt

  ClaimEnd-found :
      (row : Work) (now : ℕ) (db : EmbedDb) (got : Option Claimed) (db' : EmbedDb) (w : Work)
      (vector : Option (List Component))
      → ClaimEnd row now db got db'
      → got ≡ some (w, vector)
      → find_work row.id db.works ≡ some row
      → find_work w.id db'.works ≡ some w
  ClaimEnd-found row now db got db' w vector (ClaimEnd.busy free _) e found =
      let no : Path (Option Claimed) none (some (w, vector)) = sym free ∙ e in cc
  ClaimEnd-found row now db got db' w vector (ClaimEnd.read v _ given same) e found =
      let this = row_of row w v vector (sym given ∙ e) in
      subst (λ (d : EmbedDb). find_work w.id d.works ≡ some w) same
        (subst (λ (x : Work). find_work x.id db.works ≡ some x) this found)
  ClaimEnd-found row now db got db' w vector (ClaimEnd.taken until given same) e found =
      let this = row_of (claimed_by until row) w none vector (sym given ∙ e) in
      subst (λ (d : EmbedDb). find_work w.id d.works ≡ some w) same
        (subst (λ (x : Work). find_work x.id (set_work row.id (claimed_by until) db).works ≡ some x)
          this (found_updated row.id (claimed_by until) db row (λ x. refl) found))
  ClaimEnd-found row now db got db' w vector (ClaimEnd.expired given same) e found =
      let doubtful = set_work row.id (with_state WorkState.outcome_unknown) db in
      let this = row_of (with_state WorkState.outcome_unknown row) w none vector (sym given ∙ e) in
      subst (λ (d : EmbedDb). find_work w.id d.works ≡ some w) same
        (held row.reservation_id doubtful (
          subst (λ (x : Work). find_work x.id doubtful.works ≡ some x) this
            (found_updated row.id (with_state WorkState.outcome_unknown) db row (λ x. refl) found)))
    where
      held :
          (o : Option ℕ) (d : EmbedDb)
          → find_work w.id d.works ≡ some w
          → find_work w.id (hold_bound o now d).works ≡ some w
      held none d h = h
      held (some r) d h = h

  after_claim-Recorded :
      (o : ServiceOptions) (call : ChunkCall) (a : Approved) (db : EmbedDb)
      (m : Result BudgetError (Option Claimed × EmbedDb))
      → claim_or_read hashing (key_of call) call.now a.lease call.rights.at_claim db ≡ m
      → IsSound db
      → Recorded (after_claim hashing o call a db m)
  unfolding after_claim
  after_claim-Recorded o call a db (err e) h s = tt
  after_claim-Recorded o call a db (ok (none, db')) h s = tt
  after_claim-Recorded o call a db (ok (some (w, vector), db')) h s =
      let (row, keyed, end) =
        claim_or_read-eq-ok hashing (key_of call) call.now a.lease call.rights.at_claim db
          (some (w, vector)) db' h in
      let stored = insert_work hashing (key_of call) db in
      let sound = insert_work-IsSound hashing (key_of call) db s in
      by_state-Recorded w.state o call a w vector db' refl (
        ClaimEnd-found row call.now stored (some (w, vector)) db' w vector end refl
          (sound.keyed (hashing.hash_key (key_of call)) row keyed))

  -- A status is never reported that the database does not record: when processing a chunk returns with a
  -- work item, the item is in the state that the status names, completed for a chunk that is completed or
  -- reused, and failed or of unknown outcome for one so reported, in a table whose ids and work keys are
  -- keys, if no other transaction comes in between.
  pub process_chunk-Recorded :
      (o : ServiceOptions) (call : ChunkCall) (db : EmbedDb)
      → IsSound db
      → Recorded (process_chunk hashing o call db)
  unfolding process_chunk
  process_chunk-Recorded o call db s = go (preflight o call.chunk call.profile)
    where
      go : (m : Result CallError Approved) → Recorded (after_preflight hashing o call db m)
      go (err e) = tt
      go (ok a) = after_claim-Recorded o call a db _ refl s
