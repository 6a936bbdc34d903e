-- ===== src/Embedding/Advancing.antt =====
-- The transactions of packages/database/src/embedding-work.ts, one by one, against the relations of
-- Embedding/Once.antt.
use mathlib.Core.Path.{subst}
use mathlib.Core.Option
use tech_p.Base.{
  ℕ, ◌≤◌, ◌≡◌, refl, sym, ◌∙◌, ap, Bool, true, not, ◌&&◌, Option, some, List, arith, find, any,
  ◌==◌, Num, eq_text, Bool-cases, inl, inr, if◌then◌else◌, Tracks-append, Tracks-id,
  find-update_where, find_sound, ok, throw_if, need, bind-eq-ok, ok_injective, need-eq-ok,
  throw_if-eq-ok,
}
use tech_p.Budget.Ledger.{
  stale_work, invalid_usage, approval_required, reservation_conflict, find_scope, find_reservation,
}
use tech_p.Collection.Store.Leasing.{lease_duration}
use tech_p.Embedding.Items.{
  Hashing, WorkKey, Work, Component, EmbedDb, Claimed, Chunk, find_work, set_work, calling_with,
  completed_with, valid_profile, is_calling, is_claimed, holds, valid_vector,
}
use tech_p.Embedding.Work.{
  claim_or_read, insert_work, begin_call, complete_work, is_bound, approves, insert_embedding,
  same_embedding,
}
use tech_p.Embedding.Rows.{IsSound, insert_work-IsSound, find_key}
use tech_p.Embedding.Once
use tech_p.Embedding.Once.{
  stage, Onward, Onward-refl, Advances, Advances-refl, Advances-trans, set_work-Advances,
  IsSound-of_works, claim_state-Advances, calling-stage, claimed-stage, found_work,
}

-- The row of a call that has begun.
pub begun :
    (id reservation : ℕ) (db db1 : EmbedDb) (work : Work)
    → find_work id db.works ≡ some work
    → set_work id (calling_with reservation) db ≡ db1
    → find_work id db1.works ≡ some (calling_with reservation work)
begun id reservation db db1 work found same =
    ap (λ (d : EmbedDb). find_work id d.works) (sym same)
    ∙ (find-update_where (λ (w : Work). w.id == id) (λ w. w.id == id) (calling_with reservation)
          db.works (λ w. refl)
        ∙ (ap (Option.map (λ (w : Work). if w.id == id then calling_with reservation w else w))
              found
            ∙ ap some hit))
  where
    hit :
        (if work.id == id then calling_with reservation work else work)
        ≡ calling_with reservation work
    hit = ground (arith, find_sound (λ (w : Work). w.id == id) db.works work found)

module _ (hashing : Hashing) where
  insert_work-Advances :
      (key : WorkKey) (db : EmbedDb) → IsSound db → Advances db (insert_work hashing key db)
  unfolding insert_work
  insert_work-Advances key db s = record {
    sound = insert_work-IsSound hashing key db s;
    progress =
        elim (Bool-cases (any (λ (w : Work). eq_text w.work_key (hashing.hash_key key)) db.works)) [
          | inl old ↦ rw old (Tracks-id (λ (w : Work). w.id) Onward Onward-refl db.works)
          | inr new ↦ rw new (Tracks-append (λ (w : Work). w.id) Onward Onward-refl db.works _)
        ];
  }

  pub claim_or_read-Advances :
      (key : WorkKey) (now : ℕ) (lease_ms : Num) (rights : Bool) (db : EmbedDb)
      (got : Option Claimed) (db' : EmbedDb)
      → IsSound db
      → claim_or_read hashing key now lease_ms rights db ≡ ok (got, db')
      → Advances db db'
  unfolding claim_or_read
  claim_or_read-Advances key now lease_ms rights db got db' s e =
      let (_, _, e1) = bind-eq-ok (throw_if (not (valid_profile key.profile)) invalid_usage) _ e in
      let (lease, _, e2) = bind-eq-ok (need (lease_duration lease_ms) invalid_usage) _ e1 in
      let (chunk, _, e3) =
        bind-eq-ok (need (find (λ (c : Chunk). c.id == key.chunk_id) db.chunks) stale_work) _ e2 in
      let (_, _, e4) =
        bind-eq-ok (throw_if (not (eq_text chunk.content_hash key.input_hash)) stale_work) _ e3 in
      let stored = insert_work hashing key db in
      let (row, f, e5) =
        bind-eq-ok
          (need (find (λ (w : Work). eq_text w.work_key (hashing.hash_key key)) stored.works)
            stale_work)
          _ e4 in
      let (_, _, e6) = bind-eq-ok (throw_if (not rights) approval_required) _ e5 in
      let added = insert_work-Advances key db s in
      let there =
        added.sound.keyed (hashing.hash_key key) row
          (need-eq-ok (find_key (hashing.hash_key key) stored.works) stale_work f) in
      Advances-trans db stored db' added (
        claim_state-Advances hashing row.state row key now lease stored got db' added.sound there
          refl e6)

  -- What a call that begins has found, and has written.
  pub begin_call-eq-ok :
      (id epoch reservation now : ℕ) (rights : Bool) (db db' : EmbedDb)
      → begin_call hashing id epoch reservation now rights db ≡ ok db'
      → (work : Work) × (find_work id db.works ≡ some work)
        × (is_claimed work.state ≡ true)
        × (set_work id (calling_with reservation) db ≡ db')
  unfolding begin_call
  begin_call-eq-ok id epoch reservation now rights db db' e =
      let (work, f, e1) = bind-eq-ok (need (find_work id db.works) stale_work) _ e in
      let (_, pass, e2) =
        bind-eq-ok (throw_if (not (is_claimed work.state && holds work epoch now)) stale_work) _
          e1 in
      let (r, _, e3) =
        bind-eq-ok (need (find_reservation reservation db.ledger.reservations) reservation_conflict)
          _ e2 in
      let (_, _, e4) =
        bind-eq-ok (throw_if (not (is_bound hashing r id epoch)) reservation_conflict) _ e3 in
      let (scope, _, e5) =
        bind-eq-ok (need (find_scope r.scope_id db.ledger.scopes) approval_required) _ e4 in
      let (_, _, e6) =
        bind-eq-ok (throw_if (not (approves hashing scope work.key.profile)) approval_required) _
          e5 in
      let (_, _, e7) = bind-eq-ok (throw_if (not rights) approval_required) _ e6 in
      let fence =
        throw_if-eq-ok (not (is_claimed work.state && holds work epoch now)) stale_work pass in
      (work, need-eq-ok (find_work id db.works) stale_work f, ground arith, ok_injective e7)

  pub begin_call-Advances :
      (id epoch reservation now : ℕ) (rights : Bool) (db db' : EmbedDb)
      → IsSound db
      → begin_call hashing id epoch reservation now rights db ≡ ok db'
      → Advances db db'
  begin_call-Advances id epoch reservation now rights db db' s e =
      let (work, found, claimed, same) =
        begin_call-eq-ok id epoch reservation now rights db db' e in
      let fresh = claimed-stage work.state claimed in
      subst (λ (d : EmbedDb). Advances db d) same
        (set_work-Advances id (calling_with reservation) db work (λ w. refl) (λ w. refl) found
          (omega arith) (λ w. omega arith) s)

  insert_embedding-works :
      (w : Work) (v : List Component) (db : EmbedDb)
      → (db.works ≡ (insert_embedding hashing w v db).works)
        × (db.next_work ≤ (insert_embedding hashing w v db).next_work)
  unfolding insert_embedding
  insert_embedding-works w v db = elim (Bool-cases (any (same_embedding hashing w) db.embeddings)) [
    | inl old ↦ rw old (refl, omega arith)
    | inr new ↦ rw new (refl, omega arith)
  ]

  pub complete_work-Advances :
      (id epoch : ℕ) (vector : List Component) (now : ℕ) (rights : Bool) (db db' : EmbedDb)
      → IsSound db
      → complete_work hashing id epoch vector now rights db ≡ ok db'
      → Advances db db'
  unfolding complete_work
  complete_work-Advances id epoch vector now rights db db' s e =
      let (work, f, e1) = bind-eq-ok (need (find_work id db.works) stale_work) _ e in
      let (_, pass, e2) =
        bind-eq-ok (throw_if (not (is_calling work.state && holds work epoch now)) stale_work) _
          e1 in
      let (_, _, e3) =
        bind-eq-ok (throw_if (not (valid_vector vector work.key.profile.dimensions)) invalid_usage)
          _ e2 in
      let (_, _, e4) = bind-eq-ok (throw_if (not rights) approval_required) _ e3 in
      let stored = insert_embedding hashing work vector db in
      let (x, _, e5) =
        bind-eq-ok (need (find (same_embedding hashing work) stored.embeddings) stale_work) _ e4 in
      let fence =
        throw_if-eq-ok (not (is_calling work.state && holds work epoch now)) stale_work pass in
      let called = calling-stage work.state (ground arith) in
      let (kept, more) = insert_embedding-works work vector db in
      let found = need-eq-ok (find_work id db.works) stale_work f in
      let first : Advances db stored = record {
        sound = IsSound-of_works db stored kept more s;
        progress = Once.Progress-of_same db stored kept;
      } in
      Advances-trans db stored db' first (
        subst (λ (d : EmbedDb). Advances stored d) (ok_injective e5)
          (set_work-Advances id (completed_with x.id) stored work (λ w. refl) (λ w. refl)
            (ap (find_work id) (sym kept) ∙ found) (omega arith) (λ w. omega arith) first.sound))
