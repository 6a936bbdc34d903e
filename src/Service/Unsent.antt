-- ===== src/Service/Unsent.antt =====
-- Which reservation a work item of packages/domain/src/embedding-service.ts is bound to while its chunk is
-- processed, and the release of a reservation that was never used.
use mathlib.Core.Path.{subst}
use tech_p.Base.{
  ℕ, ◌<◌, ◌≡◌, refl, sym, Bool, true, false, Option, none, some, List, arith, find, any, ◌==◌,
  eq_text, Bool-cases, inl, inr, All, All-append, All-map, All-update_where, All-update_split,
  All-find, find_sound, ok, Num,
}
use tech_p.Budget.Ledger.{WorkState, may_have_called, hold_unknown}
use tech_p.Embedding.Items.{
  Hashing, WorkKey, Work, EmbedDb, Claimed, find_work, set_work, calling_with, failed_work,
  hold_bound, with_state, claimed_by,
}
use tech_p.Embedding.Work.{claim_or_read, insert_work, begin_call, mark_failed, mark_work_failed}
use tech_p.Embedding.Inverting.{ClaimEnd, claim_or_read-eq-ok, begin_call-epoch}
use tech_p.Embedding.Advancing.{begin_call-eq-ok, begun}
use tech_p.Service.Chunk.{is_this, bound_state, state_of}

abbrev pub Below : ℕ → Option ℕ → Type 0
Below n none = Unit
Below n (some r) = r < n

-- Every work item is bound to a reservation that was drawn: the foreign key of reservation_id.
abbrev pub BoundDrawn : EmbedDb → Type 0
BoundDrawn db = All (λ (w : Work). Below db.ledger.next_id w.reservation_id) db.works

-- A work item that is bound to the reservation cannot have called.
abbrev pub Unsent : ℕ → Work → Type 0
Unsent r w = is_this r w.reservation_id ≡ true → may_have_called (some w.state) ≡ false

-- Nothing is bound to the reservation.
abbrev pub NotBound : ℕ → Work → Type 0
NotBound r w = is_this r w.reservation_id ≡ true → false ≡ true

pub NotBound-Unsent : (r : ℕ) (ws : List Work) → All (NotBound r) ws → All (Unsent r) ws
NotBound-Unsent r ws = All-map (NotBound r) (Unsent r) ws (λ w free b. let no = free b in cc)

pub bound_state-Unsent :
    (r : ℕ) (db : EmbedDb) → All (Unsent r) db.works → may_have_called (bound_state r db) ≡ false
bound_state-Unsent r db h = go (find bound db.works) refl
  where
    bound : Work → Bool
    bound w = is_this r w.reservation_id

    go : (o : Option Work) → find bound db.works ≡ o → may_have_called (state_of o) ≡ false
    go none e = refl
    go (some w) e = All-find (Unsent r) bound db.works w h e (find_sound bound db.works w e)

not-Below : (n : ℕ) (o : Option ℕ) → Below n o → is_this n o ≡ true → false ≡ true
not-Below n none h e = e
not-Below n (some r) h e = ground arith

-- Nothing is bound to the next reservation.
pub BoundDrawn-NotBound : (db : EmbedDb) → BoundDrawn db → All (NotBound db.ledger.next_id) db.works
BoundDrawn-NotBound db =
    All-map (λ (w : Work). Below db.ledger.next_id w.reservation_id) (NotBound db.ledger.next_id)
      db.works (λ w. not-Below db.ledger.next_id w.reservation_id)

hold_bound-BoundDrawn :
    (o : Option ℕ) (now : ℕ) (db : EmbedDb) → BoundDrawn db → BoundDrawn (hold_bound o now db)
unfolding hold_unknown
hold_bound-BoundDrawn none now db h = h
hold_bound-BoundDrawn (some r) now db h = h

set_work-BoundDrawn :
    (id : ℕ) (g : Work → Work) (db : EmbedDb)
    → ((w : Work)
        → Below db.ledger.next_id w.reservation_id
        → Below db.ledger.next_id (g w).reservation_id)
    → BoundDrawn db
    → BoundDrawn (set_work id g db)
set_work-BoundDrawn id g db keeps h =
    All-update_where (λ (w : Work). Below db.ledger.next_id w.reservation_id) (λ w. w.id == id) g
      db.works (λ w hit b. keeps w b) h

pub insert_work-BoundDrawn :
    (hashing : Hashing) (key : WorkKey) (db : EmbedDb)
    → BoundDrawn db
    → BoundDrawn (insert_work hashing key db)
unfolding insert_work
insert_work-BoundDrawn hashing key db h =
    elim (Bool-cases (any (λ (w : Work). eq_text w.work_key (hashing.hash_key key)) db.works)) [
      | inl old ↦ rw old h
      | inr new ↦ rw new (All-append _ db.works _ h (tt, tt))
    ]

pub ClaimEnd-BoundDrawn :
    (row : Work) (now : ℕ) (db : EmbedDb) (got : Option Claimed) (db' : EmbedDb)
    → ClaimEnd row now db got db'
    → BoundDrawn db
    → BoundDrawn db'
ClaimEnd-BoundDrawn row now db got db' (ClaimEnd.busy _ same) h = subst BoundDrawn same h
ClaimEnd-BoundDrawn row now db got db' (ClaimEnd.read vector _ _ same) h = subst BoundDrawn same h
ClaimEnd-BoundDrawn row now db got db' (ClaimEnd.taken until _ same) h =
    subst BoundDrawn same (set_work-BoundDrawn row.id (claimed_by until) db (λ w b. tt) h)
ClaimEnd-BoundDrawn row now db got db' (ClaimEnd.expired _ same) h =
    let doubtful = set_work row.id (with_state WorkState.outcome_unknown) db in
    subst BoundDrawn same (
      hold_bound-BoundDrawn row.reservation_id now doubtful
        (set_work-BoundDrawn row.id (with_state WorkState.outcome_unknown) db (λ w b. b) h))

pub claim_or_read-BoundDrawn :
    (hashing : Hashing) (key : WorkKey) (now : ℕ) (lease : Num) (rights : Bool) (db : EmbedDb)
    (got : Option Claimed) (db' : EmbedDb)
    → claim_or_read hashing key now lease rights db ≡ ok (got, db')
    → BoundDrawn db
    → BoundDrawn db'
claim_or_read-BoundDrawn hashing key now lease rights db got db' e h =
    let (row, found, end) = claim_or_read-eq-ok hashing key now lease rights db got db' e in
    ClaimEnd-BoundDrawn row now (insert_work hashing key db) got db' end
      (insert_work-BoundDrawn hashing key db h)

-- Once its call has begun and the provider has refused it, the work item has failed, and it alone is
-- bound to the reservation.
module _ (hashing : Hashing) (r id epoch now : ℕ) (rights : Bool) (db db' : EmbedDb) where
  abbrev OnlyThis : Work → Type 0
  OnlyThis w = is_this r w.reservation_id ≡ true → w.id == id ≡ true

  mark_failed-set :
      (work : Work)
      → find_work id db'.works ≡ some (calling_with r work)
      → work.epoch == epoch ≡ true
      → mark_failed id epoch db' ≡ set_work id failed_work db'
  unfolding mark_failed mark_work_failed
  mark_failed-set work found same = rw found (rw same)

  pub refused-Unsent :
      begin_call hashing id epoch r now rights db ≡ ok db'
      → All (NotBound r) db.works
      → All (Unsent r) (mark_failed id epoch db').works
  refused-Unsent e h =
      let (work, found, _, same) = begin_call-eq-ok hashing id epoch r now rights db db' e in
      let in_epoch = begin_call-epoch hashing id epoch r now rights db db' work e found in
      let marked = mark_failed-set work (begun id r db db' work found same) in_epoch in
      let called : All OnlyThis (set_work id (calling_with r) db).works =
        All-update_split (NotBound r) OnlyThis (λ w. w.id == id) (calling_with r) db.works
          (λ w hit free b. hit) (λ w miss free b. let no = free b in cc) h in
      let known : All OnlyThis db'.works =
        subst (λ (d : EmbedDb). All OnlyThis d.works) same called in
      subst (λ (d : EmbedDb). All (Unsent r) d.works) (sym marked)
        (All-update_split OnlyThis (Unsent r) (λ w. w.id == id) failed_work db'.works
          (λ w hit only b. refl) (λ w miss only b. let no = only b in cc) known)
