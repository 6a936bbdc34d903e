-- ===== src/Collection/Tests.antt =====
-- Runs of the transactions of packages/database/src/collection-state.ts on a small database, and each
-- property of the collection state at an input that it covers.
use tech_p.Base.{
  ℕ, ◌≡◌, ◌≢◌, ◌==◌, ◌++◌, All, refl, true, false, Option, none, some, List, [], ◌∷◌, find, any,
  all, update_where, Text, codes, eq_text, Num, nat, ok, err, length,
}
use tech_p.Collection.Model
use tech_p.Collection.Model.{
  CollectionError, TargetPolicy, TargetCapability, TargetRevision, PartitionPlan, Partition, Claim,
  PageResult, RawItem, PageDisposition, CollectionMode, HistoryMode, stale_lease, undeclared,
  declared, ItemRights, absent, flag, text, parsed,
}
use tech_p.Collection.Policy.{item_rights, assert_collectable, check_url}
use tech_p.Collection.Page.{
  encode_page_cursor, decode_page_cursor, natural_key, validate_window, valid_window,
  validate_page_result,
}
use tech_p.Collection.Store.{
  Db, RawRow, find_partition, read_target, fence_page, holds_lease, collection_delivery,
}
use tech_p.Collection.Store.Leasing.{
  plan_partition, claim_page, may_claim, insert_partition, leased,
}
use tech_p.Collection.Store.Commit.{commit_page, insert_raw, insert_membership}
use tech_p.Collection.Refines.{Moves}
use tech_p.Collection.Traces
use tech_p.Collection.Traces.{Call, run, run_all, run_all_refines, final_is_frozen}
use tech_p.Collection.Fencing.{superseded_claim_is_dead, live_claim_excludes, commits_once}
use tech_p.Collection.Stored.{WithinPolicy, IsAmong, stored_rights_narrow}
use tech_p.Collection.Store.Replaying.{ReplayScope, replan}
use tech_p.Collection.Cursors.{decode_encode, encode_elsewhere}
use tech_p.Collection.Sample.{
  codec, policy, day_plan, target, fresh, planned, cursor, page, last_page,
}

abbrev first_lease : Db
first_lease = run codec (Traces.claim 10 0 5 (nat 1000)) planned

abbrev first_claim : Claim
first_claim = record { partition = leased 12 1005 fresh; target = target; run_id = 12 }

abbrev second_lease : Db
second_lease = run codec (Traces.claim 10 0 2000 (nat 1000)) first_lease

abbrev second_claim : Claim
second_claim = record {
  partition = leased 13 3000 (leased 12 1005 fresh);
  target = target;
  run_id = 13;
}

planned_row : find_partition 10 planned.partitions ≡ some fresh
unfolding run plan_partition natural_key validate_window valid_window read_target insert_partition
    collection_delivery find any eq_text assert_collectable
planned_row = refl

claims_first : claim_page codec 10 0 5 (nat 1000) planned ≡ ok (some first_claim, first_lease)
unfolding run plan_partition natural_key validate_window valid_window read_target insert_partition
    collection_delivery find any eq_text assert_collectable claim_page may_claim decode_page_cursor
claims_first = refl

claims_second :
    claim_page codec 10 0 2000 (nat 1000) first_lease ≡ ok (some second_claim, second_lease)
unfolding run plan_partition natural_key validate_window valid_window read_target insert_partition
    collection_delivery find any eq_text assert_collectable claim_page update_where may_claim
    decode_page_cursor
claims_second = refl

superseded_claim_is_dead_example :
    (fence_page first_claim 2500 second_lease ≡ err stale_lease)
    × ((result : PageResult)
        → run codec (Traces.commit first_claim result 2500) second_lease ≡ second_lease)
    × ((ms : Num) → run codec (Traces.renew first_claim 2500 ms) second_lease ≡ second_lease)
    × ((reason : Text) (retry_at : Option ℕ)
        → run codec (Traces.fail first_claim reason retry_at 2500) second_lease ≡ second_lease)
unfolding run_all
superseded_claim_is_dead_example =
    superseded_claim_is_dead codec 10 0 5 (nat 1000) planned first_lease first_claim 0 2000
      (nat 1000) second_lease second_claim [] [] 2500 claims_first claims_second

first_holds : fence_page first_claim 10 first_lease ≡ ok first_claim.partition
unfolding run plan_partition natural_key validate_window valid_window read_target insert_partition
    collection_delivery find any all eq_text assert_collectable claim_page may_claim
    decode_page_cursor update_where fence_page holds_lease
first_holds = refl

live_claim_excludes_example :
    claim_page codec 10 0 10 (nat 1000) first_lease ≢ ok (some second_claim, first_lease)
live_claim_excludes_example =
    live_claim_excludes codec first_claim 10 0 (nat 1000) first_lease first_claim.partition
      second_claim first_lease first_holds

abbrev committed : Db
committed = run codec (Traces.commit first_claim page 20) first_lease

commits_page : commit_page codec first_claim page 20 first_lease ≡ ok committed
unfolding run plan_partition natural_key validate_window valid_window read_target insert_partition
    collection_delivery find any all eq_text assert_collectable claim_page may_claim
    decode_page_cursor update_where fence_page commit_page validate_page_result holds_lease
    check_url item_rights insert_raw insert_membership
commits_page = refl

commits_once_example :
    (fence_page first_claim 30 committed ≡ err stale_lease)
    × ((again : PageResult) → run codec (Traces.commit first_claim again 30) committed ≡ committed)
unfolding run_all
commits_once_example =
    commits_once codec first_claim page 20 first_lease committed [] 30 commits_page

-- What the commit left: the item, its membership and delivery, the checkpoint, the next page.
commit_counts :
    (length committed.raw_items ≡ 1)
    × (length committed.memberships ≡ 1)
    × (length committed.checkpoints ≡ 1)
    × (length committed.outbox ≡ 3)
unfolding run plan_partition natural_key validate_window valid_window read_target insert_partition
    collection_delivery find any all eq_text assert_collectable claim_page may_claim
    decode_page_cursor update_where fence_page commit_page validate_page_result holds_lease
    check_url item_rights insert_raw insert_membership
commit_counts = (refl, refl, refl, refl)

abbrev finished : Db
finished = run codec (Traces.commit first_claim last_page 20) first_lease

abbrev finished_row : Partition
finished_row = record first_claim.partition {
  state = Model.PartitionState.completed;
  page_sequence = 1;
  lease_until = none;
  next_due_at = 20;
}

finished_found : find_partition 10 finished.partitions ≡ some finished_row
unfolding run plan_partition natural_key validate_window valid_window read_target insert_partition
    collection_delivery find any all eq_text assert_collectable claim_page may_claim
    decode_page_cursor update_where fence_page commit_page validate_page_result holds_lease
    check_url item_rights insert_raw insert_membership
finished_found = refl

abbrev more : List Call
more =
    Traces.claim 10 1 30 (nat 1000) ∷ Traces.resume 10 40 ∷ Traces.commit first_claim page 50 ∷ []

final_is_frozen_example :
    find_partition 10 (run_all codec more finished).partitions ≡ some finished_row
final_is_frozen_example = final_is_frozen codec more finished 10 finished_row finished_found refl

run_all_refines_example : Moves first_lease (run_all codec more first_lease)
run_all_refines_example = run_all_refines codec more first_lease

abbrev own_rights : ItemRights
own_rights = record {
  approved = absent;
  fetch = absent;
  store = flag true;
  embed = flag true;
  model_input = absent;
  display_excerpt = flag false;
  verbatim_only = flag true;
  license_id = text (codes "CC");
}

abbrev narrowed : TargetPolicy
narrowed = record policy {
  embed = false;
  model_input = false;
  display_excerpt = false;
  license_id = some (codes "CC");
  verbatim_only = true;
}

narrows : item_rights (declared own_rights) policy ≡ ok narrowed
unfolding item_rights eq_text
narrows = refl

stored_rights_narrow_example :
    (t : TargetRevision) × (added : List RawRow) × (read_target 3 first_lease ≡ some t)
    × (committed.raw_items ≡ first_lease.raw_items ++ added)
    × All (WithinPolicy t.policy) added
    × All (IsAmong t.source_id committed.raw_items) page.items
stored_rights_narrow_example =
    stored_rights_narrow codec first_claim page 20 first_lease committed commits_page

-- Once the item's delivery is sent, a replay of its run makes it due again; it adds no second one.
abbrev sent_away : Db
sent_away = record committed {
  outbox = update_where (λ d. d.id == 14) (λ d. record d { sent_at = some 25 }) committed.outbox;
}

replays :
    replan ReplayScope.replay_run 12 40 sent_away
    ≡ ok (
      record { duplicate = true; delivery_ids = 14 ∷ [] },
      record sent_away {
        outbox =
            update_where
              (λ d. d.id == 14)
              (λ d. record d { sent_at = none; not_before = 40 })
              sent_away.outbox;
      },
    )
unfolding run plan_partition natural_key validate_window valid_window read_target insert_partition
    collection_delivery find any all eq_text assert_collectable claim_page may_claim
    decode_page_cursor update_where fence_page commit_page validate_page_result holds_lease
    check_url item_rights insert_raw insert_membership replan
replays = refl

-- What was not acquired cannot be replayed.
replays_nothing : replan ReplayScope.replay_raw 99 40 sent_away ≡ err CollectionError.invalid_replay
unfolding run plan_partition natural_key validate_window valid_window read_target insert_partition
    collection_delivery find any all eq_text assert_collectable claim_page may_claim
    decode_page_cursor update_where fence_page commit_page validate_page_result holds_lease
    check_url item_rights insert_raw insert_membership replan
replays_nothing = refl

encodes : encode_page_cursor codec day_plan 1 (codes "p2") ≡ ok cursor
unfolding encode_page_cursor validate_window
encodes = refl

decode_encode_example : decode_page_cursor codec day_plan (some cursor) 1 ≡ ok (some (codes "p2"))
decode_encode_example = decode_encode codec day_plan 1 (codes "p2") cursor encodes

encode_elsewhere_example :
    (codec.plan_key day_plan ≡ codec.plan_key day_plan)
    × Path ℕ 1 1
    × Path (Option Text) (some (codes "p2")) (some (codes "p2"))
encode_elsewhere_example =
    encode_elsewhere codec day_plan day_plan 1 1 (codes "p2") cursor (some (codes "p2")) encodes
      decode_encode_example

-- The cursor of one partition is refused by another.
elsewhere_refused :
    decode_page_cursor codec (record day_plan { scope_key = codes "t" }) (some cursor) 1
    ≡ err Model.invalid_cursor
unfolding decode_page_cursor valid_window eq_text
elsewhere_refused = refl
