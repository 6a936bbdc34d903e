-- ===== src/Embedding/Inverting.antt =====
-- What a transaction of packages/database/src/embedding-work.ts that succeeds has found and written.
use tech_p.Base.{
  ℕ, ◌+◌, ◌≡◌, refl, sym, ◌∙◌, ap, Bool, true, false, not, ◌&&◌, ◌||◌, Option, none, some, List,
  arith, find, ◌==◌, Num, eq_text, if◌then◌else◌, Result, ok, throw_if, need, bind-eq-ok,
  ok_injective, need-eq-ok, throw_if-eq-ok,
}
use tech_p.Budget.Ledger.{BudgetError, stale_work, invalid_usage, approval_required, WorkState}
use tech_p.Collection.Store.{has_expired}
use tech_p.Collection.Store.Leasing.{lease_duration}
use tech_p.Embedding.Items.{
  Hashing, WorkKey, Work, Component, Embedding, EmbedDb, Claimed, Chunk, find_work, set_work,
  is_claimed, completed_with, with_state, claimed_by, hold_bound, find_embedding, has_dimensions,
  valid_profile, is_calling, holds, valid_vector,
}
use tech_p.Embedding.Work.{
  begin_call, claim_or_read, claim_state, read_completed, insert_work, complete_work,
  insert_embedding, same_embedding,
}
use tech_p.Embedding.Rows.{find_key}
use tech_p.Embedding.Once.{stage}

-- How a claim of the row ends, by its state.
pub data ClaimEnd (row : Work) (now : ℕ) (db : EmbedDb) (got : Option Claimed) (db' : EmbedDb)
    : Type 0 where
  busy : got ≡ none → db ≡ db' → ClaimEnd row now db got db'
  read :
      (vector : Option (List Component))
      → stage row.state ≡ 2
      → got ≡ some (row, vector)
      → db ≡ db'
      → ClaimEnd row now db got db'
  expired :
      got ≡ some (with_state WorkState.outcome_unknown row, none)
      → hold_bound row.reservation_id now
          (set_work row.id (with_state WorkState.outcome_unknown) db)
        ≡ db'
      → ClaimEnd row now db got db'
  taken :
      (until : ℕ)
      → got ≡ some (claimed_by until row, none)
      → set_work row.id (claimed_by until) db ≡ db'
      → ClaimEnd row now db got db'

abbrev got_of : Option Claimed × EmbedDb → Option Claimed
got_of p = p.0

abbrev left_of : Option Claimed × EmbedDb → EmbedDb
left_of p = p.1

module _ (hashing : Hashing) where
  -- A row whose lease holds is busy; one whose lease has expired ends as `then_got` and `then_db` say.
  leased_or :
      (leased : Bool) (row : Work) (now : ℕ) (db : EmbedDb) (then_got : Option Claimed)
      (then_db : EmbedDb) (got : Option Claimed) (db' : EmbedDb)
      → Path
          (Result BudgetError (Option Claimed × EmbedDb))
          (if leased then ok (none, db) else ok (then_got, then_db))
          (ok (got, db'))
      → (got ≡ then_got → then_db ≡ db' → ClaimEnd row now db got db')
      → ClaimEnd row now db got db'
  leased_or true row now db then_got then_db got db' e rest =
      ClaimEnd.busy (sym (ap got_of (ok_injective e))) (ap left_of (ok_injective e))
  leased_or false row now db then_got then_db got db' e rest =
      rest (sym (ap got_of (ok_injective e))) (ap left_of (ok_injective e))

  claim_state-ClaimEnd :
      (st : WorkState) (row : Work) (key : WorkKey) (now lease : ℕ) (db : EmbedDb)
      (got : Option Claimed) (db' : EmbedDb)
      → row.state ≡ st
      → claim_state hashing st row key now lease db ≡ ok (got, db')
      → ClaimEnd row now db got db'
  unfolding claim_state read_completed
  claim_state-ClaimEnd WorkState.completed row key now lease db got db' h e =
      let (x, _, e1) =
        bind-eq-ok (need (find_embedding row.embedding_id db.embeddings) stale_work) _ e in
      let (_, _, e2) =
        bind-eq-ok
          (throw_if
            (not (has_dimensions x.dimensions key.profile.dimensions)
              || not (eq_text x.profile_hash (hashing.hash_profile key.profile)))
            stale_work)
          _ e1 in
      ClaimEnd.read (some x.vector) (ap stage h) (sym (ap got_of (ok_injective e2)))
        (ap left_of (ok_injective e2))
  claim_state-ClaimEnd WorkState.outcome_unknown row key now lease db got db' h e =
      ClaimEnd.read none (ap stage h) (sym (ap got_of (ok_injective e)))
        (ap left_of (ok_injective e))
  claim_state-ClaimEnd WorkState.failed row key now lease db got db' h e =
      ClaimEnd.read none (ap stage h) (sym (ap got_of (ok_injective e)))
        (ap left_of (ok_injective e))
  claim_state-ClaimEnd WorkState.calling row key now lease db got db' h e =
      leased_or (not (has_expired row.lease_until now)) row now db _ _ got db' e ClaimEnd.expired
  claim_state-ClaimEnd WorkState.pending row key now lease db got db' h e =
      leased_or (not (has_expired row.lease_until now)) row now db _ _ got db' e
        (ClaimEnd.taken (now + lease))
  claim_state-ClaimEnd WorkState.claimed row key now lease db got db' h e =
      leased_or (not (has_expired row.lease_until now)) row now db _ _ got db' e
        (ClaimEnd.taken (now + lease))

  -- A claim that succeeds has found the row of its key, once that is stored.
  pub claim_or_read-eq-ok :
      (key : WorkKey) (now : ℕ) (lease_ms : Num) (rights : Bool) (db : EmbedDb)
      (got : Option Claimed) (db' : EmbedDb)
      → claim_or_read hashing key now lease_ms rights db ≡ ok (got, db')
      → (row : Work) × (find_key (hashing.hash_key key) (insert_work hashing key db).works
          ≡ some row)
        × ClaimEnd row now (insert_work hashing key db) got db'
  unfolding claim_or_read
  claim_or_read-eq-ok key now lease_ms rights db got db' e =
      let (_, _, e1) = bind-eq-ok (throw_if (not (valid_profile key.profile)) invalid_usage) _ e in
      let (lease, _, e2) = bind-eq-ok (need (lease_duration lease_ms) invalid_usage) _ e1 in
      let (chunk, _, e3) =
        bind-eq-ok (need (find (λ (c : Chunk). c.id == key.chunk_id) db.chunks) stale_work) _ e2 in
      let (_, _, e4) =
        bind-eq-ok (throw_if (not (eq_text chunk.content_hash key.input_hash)) stale_work) _ e3 in
      let stored = insert_work hashing key db in
      let (row, f, e5) =
        bind-eq-ok (need (find_key (hashing.hash_key key) stored.works) stale_work) _ e4 in
      let (_, _, e6) = bind-eq-ok (throw_if (not rights) approval_required) _ e5 in
      (
        row,
        need-eq-ok (find_key (hashing.hash_key key) stored.works) stale_work f,
        claim_state-ClaimEnd row.state row key now lease stored got db' refl e6,
      )

  -- A completion that succeeds has found the work item calling and its embedding stored.
  pub complete_work-eq-ok :
      (id epoch : ℕ) (vector : List Component) (now : ℕ) (rights : Bool) (db db' : EmbedDb)
      → complete_work hashing id epoch vector now rights db ≡ ok db'
      → (work : Work) × (x : Embedding) × (find_work id db.works ≡ some work)
        × (is_calling work.state ≡ true)
        × (find (same_embedding hashing work) (insert_embedding hashing work vector db).embeddings
            ≡ some x)
        × (set_work id (completed_with x.id) (insert_embedding hashing work vector db) ≡ db')
  unfolding complete_work
  complete_work-eq-ok id epoch vector now rights db db' e =
      let (work, f, e1) = bind-eq-ok (need (find_work id db.works) stale_work) _ e in
      let (_, pass, e2) =
        bind-eq-ok (throw_if (not (is_calling work.state && holds work epoch now)) stale_work) _
          e1 in
      let (_, _, e3) =
        bind-eq-ok (throw_if (not (valid_vector vector work.key.profile.dimensions)) invalid_usage)
          _ e2 in
      let (_, _, e4) = bind-eq-ok (throw_if (not rights) approval_required) _ e3 in
      let stored = insert_embedding hashing work vector db in
      let (x, g, e5) =
        bind-eq-ok (need (find (same_embedding hashing work) stored.embeddings) stale_work) _ e4 in
      let fence =
        throw_if-eq-ok (not (is_calling work.state && holds work epoch now)) stale_work pass in
      (
        work,
        x,
        need-eq-ok (find_work id db.works) stale_work f,
        ground arith,
        need-eq-ok (find (same_embedding hashing work) stored.embeddings) stale_work g,
        ok_injective e5,
      )

  -- A call that begins is of the epoch of its work item.
  pub begin_call-epoch :
      (id epoch reservation now : ℕ) (rights : Bool) (db db' : EmbedDb) (work : Work)
      → begin_call hashing id epoch reservation now rights db ≡ ok db'
      → find_work id db.works ≡ some work
      → work.epoch == epoch ≡ true
  unfolding begin_call
  begin_call-epoch id epoch reservation now rights db db' work e found =
      let (w, f, e1) = bind-eq-ok (need (find_work id db.works) stale_work) _ e in
      let (_, pass, e2) =
        bind-eq-ok (throw_if (not (is_claimed w.state && holds w epoch now)) stale_work) _ e1 in
      let fence = throw_if-eq-ok (not (is_claimed w.state && holds w epoch now)) stale_work pass in
      let this : some w ≡ some work =
        sym (need-eq-ok (find_work id db.works) stale_work f) ∙ found in
      let same : w ≡ work = cc in
      let mine : w.epoch == epoch ≡ true = ground arith in
      ap (λ (x : Work). x.epoch == epoch) (sym same) ∙ mine
