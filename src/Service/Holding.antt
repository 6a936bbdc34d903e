-- ===== src/Service/Holding.antt =====
-- The state of one work item, which processChunk of packages/domain/src/embedding-service.ts reports, after
-- the steps of its call.
use mathlib.Core.Option
use tech_p.Base.{
  ℕ, ◌≡◌, refl, sym, ◌∙◌, ap, Bool, true, Option, none, some, List, arith, ◌==◌, if◌then◌else◌,
  find-update_where, find_sound, some_injective, ok, err,
}
use tech_p.Budget.Ledger.{WorkState}
use tech_p.Embedding.Items.{
  Hashing, Work, Component, EmbedDb, Claimed, find_work, set_work, calling_with, with_state,
  failed_work,
}
use tech_p.Embedding.Work.{
  begin_call, mark_outcome_unknown, mark_work_unknown, mark_failed, mark_work_failed,
}
use tech_p.Embedding.Inverting.{begin_call-epoch}
use tech_p.Embedding.Advancing.{begin_call-eq-ok, begun}
use tech_p.Service.Preflight.{ChunkStatus}
use tech_p.Service.Chunk.{Reply}

-- The state of the work item that a status reports; a chunk in flight has none.
abbrev pub state_named : ChunkStatus → WorkState
state_named ChunkStatus.completed = WorkState.completed
state_named ChunkStatus.reused = WorkState.completed
state_named ChunkStatus.in_flight = WorkState.pending
state_named ChunkStatus.outcome_unknown = WorkState.outcome_unknown
state_named ChunkStatus.failed = WorkState.failed

abbrev pub Holds : Option ℕ → WorkState → EmbedDb → Type 0
Holds none st db = Unit {0}
Holds (some id) st db = (w : Work) × (find_work id db.works ≡ some w) × (w.state ≡ st)

-- The work item that a reply names is in the state that its status reports.
abbrev pub Recorded : Reply → Type 0
Recorded (ok r, db) = Holds r.work_id (state_named r.status) db
Recorded (err e, db) = Unit {0}

pub found_updated :
    (id : ℕ) (g : Work → Work) (db : EmbedDb) (v : Work)
    → ((w : Work) → (g w).id ≡ w.id)
    → find_work id db.works ≡ some v
    → find_work id (set_work id g db).works ≡ some (g v)
found_updated id g db v same found =
    find-update_where (λ w. w.id == id) (λ w. w.id == id) g db.works
      (λ w. ap (λ k. k == id) (same w))
    ∙ (ap (Option.map (λ w. if w.id == id then g w else w)) found ∙ ap some hit)
  where
    hit : (if v.id == id then g v else v) ≡ g v
    hit = ground (arith, find_sound (λ (w : Work). w.id == id) db.works v found)

-- The work item of a call that has begun under the epoch of the claim.
pub record Called (w : Work) (r : ℕ) (db : EmbedDb) : Type 0 where
  row : Work
  found : find_work w.id db.works ≡ some (calling_with r row)
  in_epoch : row.epoch == w.epoch ≡ true

pub begin_call-Called :
    (hashing : Hashing) (w : Work) (r now : ℕ) (rights : Bool) (db db' : EmbedDb)
    → begin_call hashing w.id w.epoch r now rights db ≡ ok db'
    → Called w r db'
begin_call-Called hashing w r now rights db db' e =
    let (row, there, _, same) = begin_call-eq-ok hashing w.id w.epoch r now rights db db' e in
    record {
      row = row;
      found = begun w.id r db db' row there same;
      in_epoch = begin_call-epoch hashing w.id w.epoch r now rights db db' row e there;
    }

pub mark_outcome_unknown-Holds :
    (w : Work) (r now : ℕ) (db : EmbedDb)
    → Called w r db
    → Holds (some w.id) WorkState.outcome_unknown (mark_outcome_unknown w.id w.epoch now db)
unfolding mark_outcome_unknown mark_work_unknown
mark_outcome_unknown-Holds w r now db c = (
  with_state WorkState.outcome_unknown (calling_with r c.row),
  rw c.found (
      rw c.in_epoch (
        found_updated w.id (with_state WorkState.outcome_unknown) db (calling_with r c.row)
          (λ x. refl) c.found)),
  refl,
)

pub mark_failed-Holds :
    (w : Work) (r : ℕ) (db : EmbedDb)
    → Called w r db
    → Holds (some w.id) WorkState.failed (mark_failed w.id w.epoch db)
unfolding mark_failed mark_work_failed
mark_failed-Holds w r db c = (
  failed_work (calling_with r c.row),
  rw c.found (
      rw c.in_epoch (found_updated w.id failed_work db (calling_with r c.row) (λ x. refl) c.found)),
  refl,
)

pub row_of :
    (v w : Work) (a b : Option (List Component))
    → Path (Option Claimed) (some (v, a)) (some (w, b))
    → v ≡ w
row_of v w a b e = ap (λ (x : Claimed). x.0) (some_injective e)

-- A step that leaves the work items alone keeps what is recorded of them.
pub Holds-works :
    (o : Option ℕ) (st : WorkState) (db db' : EmbedDb)
    → db.works ≡ db'.works
    → Holds o st db
    → Holds o st db'
Holds-works none st db db' same h = tt
Holds-works (some id) st db db' same (w, found, state) =
    (w, ap (find_work id) (sym same) ∙ found, state)

pub Called-works :
    (w : Work) (r : ℕ) (db db' : EmbedDb) → db.works ≡ db'.works → Called w r db → Called w r db'
Called-works w r db db' same c = record {
  row = c.row;
  found = ap (find_work w.id) (sym same) ∙ c.found;
  in_epoch = c.in_epoch;
}
