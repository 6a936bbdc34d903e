-- ===== src/Service/Opened.antt =====
-- The reservations that each step of packages/domain/src/embedding-service.ts leaves open.
use mathlib.Core.Path.{subst}
use tech_p.Base.{ℕ, ◌≡◌, refl, ◌∙◌, ap, Bool, false, Option, none, some, List, arith, Num, ok}
use tech_p.Budget.Ledger.{WorkState}
use tech_p.Budget.Ledger.Closing.{is_open, hold_unknown-closes}
use tech_p.Budget.Ledger.Releasing.{NoneOpened}
use tech_p.Embedding.Items.{
  Hashing, WorkKey, Work, Component, EmbedDb, Claimed, find_work, set_work, hold_bound, with_state,
}
use tech_p.Embedding.Work.{
  claim_or_read, insert_work, begin_call, complete_work, mark_outcome_unknown, mark_work_unknown,
  mark_failed, mark_work_failed, insert_embedding,
}
use tech_p.Embedding.Inverting.{ClaimEnd, claim_or_read-eq-ok, complete_work-eq-ok}
use tech_p.Embedding.Advancing.{begin_call-eq-ok}
use tech_p.Service.Chunk.{put_in_doubt}

abbrev pub Opens : EmbedDb → EmbedDb → Type 0
Opens db db' = NoneOpened db.ledger db'.ledger

pub same-Opens : (db db' : EmbedDb) → db.ledger ≡ db'.ledger → Opens db db'
same-Opens db db' same n h = ap (is_open n) same ∙ h

hold_bound-Opens : (o : Option ℕ) (now : ℕ) (db : EmbedDb) → Opens db (hold_bound o now db)
hold_bound-Opens none now db n h = h
hold_bound-Opens (some id) now db n h = (hold_unknown-closes id now db.ledger).1 n h

mark_work_unknown-Opens :
    (o : Option Work) (id epoch now : ℕ) (db : EmbedDb)
    → Opens db (mark_work_unknown o id epoch now db)
unfolding mark_work_unknown
mark_work_unknown-Opens none id epoch now db n h = h
mark_work_unknown-Opens (some w) id epoch now db n h =
    ground (arith, hold_bound-Opens w.reservation_id now db n)

pub mark_outcome_unknown-Opens :
    (id epoch now : ℕ) (db : EmbedDb) → Opens db (mark_outcome_unknown id epoch now db)
unfolding mark_outcome_unknown
mark_outcome_unknown-Opens id epoch now db =
    mark_work_unknown-Opens (find_work id db.works) id epoch now db

mark_work_failed-ledger :
    (o : Option Work) (id epoch : ℕ) (db : EmbedDb)
    → db.ledger ≡ (mark_work_failed o id epoch db).ledger
unfolding mark_work_failed
mark_work_failed-ledger none id epoch db = refl
mark_work_failed-ledger (some w) id epoch db = ground arith

pub mark_failed-ledger :
    (id epoch : ℕ) (db : EmbedDb) → db.ledger ≡ (mark_failed id epoch db).ledger
unfolding mark_failed
mark_failed-ledger id epoch db = mark_work_failed-ledger (find_work id db.works) id epoch db

-- A reservation that is put in doubt is closed.
pub put_in_doubt-closes :
    (w : Work) (reservation now : ℕ) (db : EmbedDb)
    → (is_open reservation (put_in_doubt w reservation now db).ledger ≡ false)
      × Opens db (put_in_doubt w reservation now db)
unfolding put_in_doubt
put_in_doubt-closes w reservation now db =
    let marked = mark_outcome_unknown w.id w.epoch now db in
    let held = hold_unknown-closes reservation now marked.ledger in
    (held.0, λ n h. mark_outcome_unknown-Opens w.id w.epoch now db n (held.1 n h))

module _ (hashing : Hashing) where
  pub insert_work-ledger :
      (key : WorkKey) (db : EmbedDb) → db.ledger ≡ (insert_work hashing key db).ledger
  unfolding insert_work
  insert_work-ledger key db = ground arith

  ClaimEnd-Opens :
      (row : Work) (now : ℕ) (db : EmbedDb) (got : Option Claimed) (db' : EmbedDb)
      → ClaimEnd row now db got db'
      → Opens db db'
  ClaimEnd-Opens row now db got db' (ClaimEnd.busy _ same) =
      same-Opens db db' (ap (λ (d : EmbedDb). d.ledger) same)
  ClaimEnd-Opens row now db got db' (ClaimEnd.read vector _ _ same) =
      same-Opens db db' (ap (λ (d : EmbedDb). d.ledger) same)
  ClaimEnd-Opens row now db got db' (ClaimEnd.taken until _ same) =
      same-Opens db db' (ap (λ (d : EmbedDb). d.ledger) same)
  ClaimEnd-Opens row now db got db' (ClaimEnd.expired _ same) = subst (Opens db) same (
      hold_bound-Opens row.reservation_id now
        (set_work row.id (with_state WorkState.outcome_unknown) db))

  pub claim_or_read-Opens :
      (key : WorkKey) (now : ℕ) (lease_ms : Num) (rights : Bool) (db : EmbedDb)
      (got : Option Claimed) (db' : EmbedDb)
      → claim_or_read hashing key now lease_ms rights db ≡ ok (got, db')
      → Opens db db'
  claim_or_read-Opens key now lease_ms rights db got db' e n h =
      let (row, found, end) = claim_or_read-eq-ok hashing key now lease_ms rights db got db' e in
      let stored = insert_work hashing key db in
      same-Opens db stored (insert_work-ledger key db) n
        (ClaimEnd-Opens row now stored got db' end n h)

  pub begin_call-ledger :
      (id epoch reservation now : ℕ) (rights : Bool) (db db' : EmbedDb)
      → begin_call hashing id epoch reservation now rights db ≡ ok db'
      → db.ledger ≡ db'.ledger
  begin_call-ledger id epoch reservation now rights db db' e =
      let (work, found, claimed, same) =
        begin_call-eq-ok hashing id epoch reservation now rights db db' e in
      ap (λ (d : EmbedDb). d.ledger) same

  insert_embedding-ledger :
      (w : Work) (vector : List Component) (db : EmbedDb)
      → db.ledger ≡ (insert_embedding hashing w vector db).ledger
  unfolding insert_embedding
  insert_embedding-ledger w vector db = ground arith

  pub complete_work-ledger :
      (id epoch : ℕ) (vector : List Component) (now : ℕ) (rights : Bool) (db db' : EmbedDb)
      → complete_work hashing id epoch vector now rights db ≡ ok db'
      → db.ledger ≡ db'.ledger
  complete_work-ledger id epoch vector now rights db db' e =
      let (work, x, _, _, _, same) =
        complete_work-eq-ok hashing id epoch vector now rights db db' e in
      insert_embedding-ledger work vector db ∙ ap (λ (d : EmbedDb). d.ledger) same
