-- ===== src/Collection/Store/Outbox.antt =====
-- The delivery outbox of packages/database/src/collection-state.ts: claimDeliveries, markSent,
-- completeDelivery and attachRevision.
use tech_p.Base.{
  ℕ, ◌+◌, Bool, true, false, not, ◌&&◌, ◌||◌, Option, none, some, List, [], ◌∷◌, map, find, any,
  keep_if, update_where, length, if◌then◌else◌, leb, ltb, ◌==◌, is_some, Num, safe_nat, Result, ok,
  ◌>>=◌, ◌>>◌, throw_if, need,
}
use tech_p.Collection.Model.{
  CollectionError, not_found, invalid_state, stale_lease, Delivery, DeliveryKind, CollectionMode,
  embedding_of,
}
use tech_p.Collection.Store.{Db, RevisionRow, MembershipRow, has_expired, insert_delivery}
use tech_p.Collection.Store.Leasing.{lease_duration}

-- `or(isNull(sentAt), lte(sentAt, now - 30000))`
abbrev resend_due : Option ℕ → ℕ → Bool
resend_due none now = true
resend_due (some sent) now = leb (sent + 30000) now

abbrev same_mode : CollectionMode → CollectionMode → Bool
same_mode CollectionMode.backfill CollectionMode.backfill = true
same_mode CollectionMode.incremental CollectionMode.incremental = true
same_mode CollectionMode.on_demand CollectionMode.on_demand = true
same_mode _ _ = false

abbrev in_lane : Option CollectionMode → CollectionMode → Bool
in_lane none m = true
in_lane (some lane) m = same_mode lane m

-- The EXISTS subquery: the partition is in the lane, and its target's current policy allows collecting.
abbrev allows : RevisionRow → Bool
allows r = r.policy.approved && r.policy.fetch && r.policy.store

abbrev current_allows : Db → Option ℕ → Bool
current_allows db none = false
current_allows db (some id) = any (λ r. r.id == id && allows r) db.revisions

abbrev target_allows : Db → ℕ → Bool
target_allows db target_id =
    any
      (λ t.
        t.id == target_id
        && t.enabled
        && current_allows db t.current_revision_id
        && any (λ s. s.id == t.source_id && s.enabled) db.sources)
      db.targets

unfoldable pub is_deliverable : Option CollectionMode → Db → Delivery → Bool
is_deliverable lane db d =
    any
      (λ p.
        p.id == d.partition_id
        && in_lane lane p.plan.mode
        && any (λ r. r.id == p.plan.target_revision_id && target_allows db r.target_id)
            db.revisions)
      db.partitions

unfoldable pub is_due : Option CollectionMode → ℕ → Db → Delivery → Bool
unfolding is_deliverable
is_due lane now db d =
    not (is_some d.completed_at)
    && leb d.not_before now
    && has_expired d.lease_until now
    && is_deliverable lane db d
    && resend_due d.sent_at now

-- `orderBy(asc(notBefore), asc(id))`, stable.
abbrev goes_before : Delivery → Delivery → Bool
goes_before a b = ltb a.not_before b.not_before || (a.not_before == b.not_before && leb a.id b.id)

unfoldable pub insert_ordered : Delivery → List Delivery → List Delivery
insert_ordered d [] = d ∷ []
insert_ordered d (e ∷ es) = if goes_before d e then d ∷ e ∷ es else e ∷ insert_ordered d es

unfoldable pub ordered : List Delivery → List Delivery
unfolding insert_ordered
ordered [] = []
ordered (d ∷ ds) = insert_ordered d (ordered ds)

unfoldable pub first_n : ℕ → List Delivery → List Delivery
first_n Prim.Native.Nat.zero ds = []
first_n (Prim.Native.Nat.suc n) [] = []
first_n (Prim.Native.Nat.suc n) (d ∷ ds) = d ∷ first_n n ds

abbrev pub taken : ℕ → Delivery → Delivery
taken until d = record d { lease_epoch = d.lease_epoch + 1; lease_until = some until }

-- `1 <= limit <= 100`
abbrev pub in_limit : Option ℕ → Option ℕ
in_limit none = none
in_limit (some n) = if leb 1 n && leb n 100 then some n else none

-- The rows that `claimDeliveries` picks.
unfoldable pub picked : Option CollectionMode → ℕ → ℕ → Db → List Delivery
unfolding is_due ordered first_n
picked lane now limit db = first_n limit (ordered (keep_if (is_due lane now db) db.outbox))

unfoldable pub claim_deliveries :
    ℕ → Num → Num → Option CollectionMode → Db → Result CollectionError (List Delivery × Db)
unfolding picked
claim_deliveries now limit lease_ms lane db = do
  n ← need (in_limit (safe_nat limit)) invalid_state
  lease ← need (lease_duration lease_ms) invalid_state
  let rows = picked lane now n db
  ok (
    map (taken (now + lease)) rows,
    record db {
      outbox = update_where (λ d. any (λ r. r.id == d.id) rows) (taken (now + lease)) db.outbox;
    },
  )

-- The WHERE of `markSent`.
unfoldable pub may_mark : ℕ → ℕ → ℕ → Delivery → Bool
may_mark id epoch now d =
    d.id == id
    && d.lease_epoch == epoch
    && not (has_expired d.lease_until now)
    && not (is_some d.completed_at)

abbrev pub sent : ℕ → Delivery → Delivery
sent now d = record d { sent_at = some now; lease_until = none }

unfoldable pub mark_sent : ℕ → ℕ → ℕ → Db → Result CollectionError Db
unfolding may_mark
mark_sent id epoch now db = do
  throw_if (not (length (keep_if (may_mark id epoch now) db.outbox) == 1)) stale_lease
  ok (record db { outbox = update_where (may_mark id epoch now) (sent now) db.outbox })

-- Whether the work of a delivery is in the tables. For a collection delivery it is the checkpoint of
-- its page; for the two other kinds it is in the tables of documents, chunks and embeddings, and what
-- the query finds there is the argument `found`.
unfoldable pub is_done : DeliveryKind → Bool → Delivery → Db → Bool
is_done DeliveryKind.collection found d db =
    any (λ c. c.partition_id == d.partition_id && c.page_sequence == d.page_sequence) db.checkpoints
is_done _ found d db = found

abbrev pub finished : ℕ → Delivery → Delivery
finished now d = record d { completed_at = some now; lease_until = none }

unfoldable pub complete_delivery : ℕ → Bool → ℕ → Db → Result CollectionError Db
unfolding is_done
complete_delivery id found now db = do
  d ← need (find (λ d. d.id == id) db.outbox) not_found
  if is_some d.completed_at then ok db else (do
    throw_if (not (is_done d.kind found d db)) invalid_state
    ok (record db { outbox = update_where (λ d. d.id == id) (finished now) db.outbox }))

unfoldable pub deliver_embeddings : ℕ → ℕ → List MembershipRow → Db → Db
deliver_embeddings revision now [] db = db
deliver_embeddings revision now (m ∷ ms) db = deliver_embeddings revision now ms (
    insert_delivery (embedding_of revision) DeliveryKind.embedding m.partition_id 0 none
      (some revision) now db)

unfoldable pub attach_revision : ℕ → ℕ → ℕ → Db → Result CollectionError Db
unfolding deliver_embeddings
attach_revision raw revision now db = do
  throw_if (not (any (λ d. d.id == revision && d.raw_item_id == raw) db.documents)) not_found
  let attached = record db {
    memberships =
        update_where (λ m. m.raw_item_id == raw) (λ m. record m { revision_id = some revision })
          db.memberships;
  }
  ok (
      deliver_embeddings revision now (keep_if (λ m. m.raw_item_id == raw) attached.memberships)
        attached)
