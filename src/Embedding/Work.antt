-- ===== src/Embedding/Work.antt =====
-- packages/database/src/embedding-work.ts: work items for embedding a chunk, leased to one worker at a
-- time and bound to a reservation of Budget/Ledger.antt before the provider is called.
use tech_p.Base.{
  ℕ, ◌+◌, Bool, not, ◌&&◌, ◌||◌, Option, none, some, List, [], ◌∷◌, ◌++◌, find, any, length,
  if◌then◌else◌, ◌==◌, Num, Result, ok, ◌>>=◌, ◌>>◌, throw_if, need, Text, eq_text, codes,
}
use tech_p.Budget.Ledger.{
  BudgetError, stale_work, invalid_usage, approval_required, reservation_conflict, WorkState, Scope,
  Reservation, find_scope, find_reservation,
}
use tech_p.Collection.Store.{has_expired}
use tech_p.Collection.Store.Leasing.{lease_duration}
use tech_p.Embedding.Items.{
  Profile, WorkKey, Work, Component, Embedding, EmbedDb, Hashing, digits, find_work, valid_profile,
  set_work, hold_bound, has_dimensions, claimed_by, with_state, completed_with, calling_with,
  failed_work, Claimed, find_embedding, is_claimed, is_calling, is_reserved, holds, valid_vector,
}

module _ (hashing : Hashing) where
  open hashing use {hash_key, hash_profile, id_text}

  unfoldable pub insert_work : WorkKey → EmbedDb → EmbedDb
  insert_work key db =
      if any (λ w. eq_text w.work_key (hash_key key)) db.works then db else record db {
        works =
            db.works
            ++ record {
              id = db.next_work;
              work_key = hash_key key;
              key = key;
              state = WorkState.pending;
              epoch = 0;
              lease_until = none;
              reservation_id = none;
              embedding_id = none;
            }
              ∷ [];
        next_work = db.next_work + 1;
      }

  unfoldable pub read_completed :
      Work → WorkKey → EmbedDb → Result BudgetError (Option Claimed × EmbedDb)
  read_completed row key db = do
    e ← need (find_embedding row.embedding_id db.embeddings) stale_work
    throw_if
        (not (has_dimensions e.dimensions key.profile.dimensions)
          || not (eq_text e.profile_hash (hash_profile key.profile)))
        stale_work
    ok (some (row, some e.vector), db)

  -- What becomes of the row that is found, by its state.
  unfoldable pub claim_state :
      WorkState → Work → WorkKey → ℕ → ℕ → EmbedDb → Result BudgetError (Option Claimed × EmbedDb)
  unfolding read_completed
  claim_state WorkState.completed row key now lease db = read_completed row key db
  claim_state WorkState.outcome_unknown row key now lease db = ok (some (row, none), db)
  claim_state WorkState.failed row key now lease db = ok (some (row, none), db)
  claim_state WorkState.calling row key now lease db =
      if not (has_expired row.lease_until now)
      then ok (none, db)
      else ok (
        some (with_state WorkState.outcome_unknown row, none),
        hold_bound row.reservation_id now
            (set_work row.id (with_state WorkState.outcome_unknown) db),
      )
  claim_state _ row key now lease db =
      if not (has_expired row.lease_until now)
      then ok (none, db)
      else ok
          (some (claimed_by (now + lease) row, none), set_work row.id (claimed_by (now + lease)) db)

  -- claimOrReadCompleted. `rights` is what the query of checkWorkRights finds for the row.
  unfoldable pub claim_or_read :
      WorkKey → ℕ → Num → Bool → EmbedDb → Result BudgetError (Option Claimed × EmbedDb)
  unfolding valid_profile insert_work claim_state
  claim_or_read key now lease_ms rights db = do
    throw_if (not (valid_profile key.profile)) invalid_usage
    lease ← need (lease_duration lease_ms) invalid_usage
    chunk ← need (find (λ c. c.id == key.chunk_id) db.chunks) stale_work
    throw_if (not (eq_text chunk.content_hash key.input_hash)) stale_work
    let stored = insert_work key db
    row ← need (find (λ w. eq_text w.work_key (hash_key key)) stored.works) stale_work
    throw_if (not rights) approval_required
    claim_state row.state row key now lease stored

  -- `${id}:${epoch}`
  unfoldable pub attempt_id : ℕ → ℕ → Text
  unfolding digits
  attempt_id id epoch = id_text id ++ codes ":" ++ digits (epoch + 1) epoch []

  abbrev pub approves : Scope → Profile → Bool
  approves scope p =
      scope.approved
      && not scope.blocked
      && any (λ h. eq_text h (hash_profile p)) scope.approved_model_profiles

  abbrev pub is_bound : Reservation → ℕ → ℕ → Bool
  is_bound r id epoch =
      is_reserved r.state
      && eq_text r.lane (codes "ingestion_embedding")
      && eq_text r.attempt_id (attempt_id id epoch)

  unfoldable pub begin_call : ℕ → ℕ → ℕ → ℕ → Bool → EmbedDb → Result BudgetError EmbedDb
  unfolding attempt_id
  begin_call id epoch reservation now rights db = do
    work ← need (find_work id db.works) stale_work
    throw_if (not (is_claimed work.state && holds work epoch now)) stale_work
    r ← need (find_reservation reservation db.ledger.reservations) reservation_conflict
    throw_if (not (is_bound r id epoch)) reservation_conflict
    scope ← need (find_scope r.scope_id db.ledger.scopes) approval_required
    throw_if (not (approves scope work.key.profile)) approval_required
    throw_if (not rights) approval_required
    ok (set_work id (calling_with reservation) db)

  abbrev pub same_embedding : Work → Embedding → Bool
  same_embedding w e =
      e.chunk_id == w.key.chunk_id
      && eq_text e.provider w.key.profile.provider
      && eq_text e.model w.key.profile.model
      && eq_text e.profile_hash (hash_profile w.key.profile)
      && eq_text e.input_hash w.key.input_hash

  -- `insert into embeddings … on conflict do nothing`
  unfoldable pub insert_embedding : Work → List Component → EmbedDb → EmbedDb
  insert_embedding w vector db = if any (same_embedding w) db.embeddings then db else record db {
    embeddings =
        db.embeddings
        ++ record {
          id = db.next_work;
          chunk_id = w.key.chunk_id;
          provider = w.key.profile.provider;
          model = w.key.profile.model;
          profile_hash = hash_profile w.key.profile;
          dimensions = length vector;
          vector = vector;
          input_hash = w.key.input_hash;
        }
          ∷ [];
    next_work = db.next_work + 1;
  }

  unfoldable pub complete_work :
      ℕ → ℕ → List Component → ℕ → Bool → EmbedDb → Result BudgetError EmbedDb
  unfolding valid_vector insert_embedding
  complete_work id epoch vector now rights db = do
    work ← need (find_work id db.works) stale_work
    throw_if (not (is_calling work.state && holds work epoch now)) stale_work
    throw_if (not (valid_vector vector work.key.profile.dimensions)) invalid_usage
    throw_if (not rights) approval_required
    let stored = insert_embedding work vector db
    e ← need (find (same_embedding work) stored.embeddings) stale_work
    ok (set_work id (completed_with e.id) stored)

-- The two marks do nothing unless the work of that epoch is calling.
unfoldable pub mark_work_unknown : Option Work → ℕ → ℕ → ℕ → EmbedDb → EmbedDb
mark_work_unknown none id epoch now db = db
mark_work_unknown (some w) id epoch now db =
    if w.epoch == epoch && is_calling w.state
    then hold_bound w.reservation_id now (set_work id (with_state WorkState.outcome_unknown) db)
    else db

unfoldable pub mark_outcome_unknown : ℕ → ℕ → ℕ → EmbedDb → EmbedDb
unfolding mark_work_unknown
mark_outcome_unknown id epoch now db = mark_work_unknown (find_work id db.works) id epoch now db

unfoldable pub mark_work_failed : Option Work → ℕ → ℕ → EmbedDb → EmbedDb
mark_work_failed none id epoch db = db
mark_work_failed (some w) id epoch db =
    if w.epoch == epoch && is_calling w.state then set_work id failed_work db else db

unfoldable pub mark_failed : ℕ → ℕ → EmbedDb → EmbedDb
unfolding mark_work_failed
mark_failed id epoch db = mark_work_failed (find_work id db.works) id epoch db
