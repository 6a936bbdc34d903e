-- ===== src/Collection/Sample.antt =====
-- A small database of packages/database/src/collection-state.ts, for runs of its transactions.
use tech_p.Base.{
  ℕ, ◌≡◌, refl, true, false, Option, none, some, [], ◌∷◌, ◌++◌, ap, Text, codes, nat, at, length,
}
use tech_p.Collection.Model
use tech_p.Collection.Model.{
  TargetPolicy, TargetCapability, TargetRevision, PartitionPlan, Partition, Claim, PageResult,
  RawItem, PageDisposition, CollectionMode, HistoryMode, stale_lease, undeclared, declared,
  ItemRights, absent, flag, text, parsed,
}
use tech_p.Collection.Page.{CursorCodec, CursorBody}
use tech_p.Collection.Store.{Db}
use tech_p.Collection.Traces
use tech_p.Collection.Traces.{Call, run, run_all, run_all_refines, final_is_frozen}

-- A codec: the length of the key, the key, the version, the value.
abbrev pub with_unit : ℕ → Option CursorBody → Option CursorBody
with_unit c none = none
with_unit c (some b) = some (record b { key = c ∷ b.key })

abbrev pub parse : ℕ → Text → Option CursorBody
parse Prim.Native.Nat.zero [] = none
parse Prim.Native.Nat.zero (v ∷ value) = some (record { key = []; version = v; value = value })
parse (Prim.Native.Nat.suc n) [] = none
parse (Prim.Native.Nat.suc n) (c ∷ cs) = with_unit c (parse n cs)

abbrev pub parse_all : Text → Option CursorBody
parse_all [] = none
parse_all (n ∷ cs) = parse n cs

pub parse_back :
    (key value : Text) (v : ℕ)
    → parse (length key) (key ++ v ∷ value)
      ≡ some (record { key = key; version = v; value = value })
parse_back [] value v = refl
parse_back (c ∷ cs) value v = ap (with_unit c) (parse_back cs value v)

abbrev pub codec : CursorCodec
codec = record {
  write = λ b. length b.key ∷ (b.key ++ b.version ∷ b.value);
  read = parse_all;
  plan_key = λ p. p.target_revision_id ∷ p.scope_key;
  read-write = λ b. parse_back b.key b.value b.version;
}

abbrev pub policy : TargetPolicy
policy = record {
  approved = true;
  fetch = true;
  store = true;
  embed = true;
  model_input = true;
  display_excerpt = true;
  license_id = some (codes "MIT");
  verbatim_only = false;
}

abbrev pub capability : TargetCapability
capability = record {
  history_mode = HistoryMode.paginated_history;
  time_basis = Model.published_at;
  cursor_version = 1;
  can_collect = true;
  reviewed_at = some (at 5);
}

abbrev pub day_plan : PartitionPlan
day_plan = record {
  target_revision_id = 3;
  mode = CollectionMode.backfill;
  scope_key = codes "s";
  window = record { from = at 1000; to = at 2000 };
  time_basis = Model.published_at;
  workflow_version = codes "v1";
}

abbrev pub base : Db
base = record {
  sources = record { id = 1; key = codes "arxiv"; enabled = true; policy_reviewed = true } ∷ [];
  targets =
      record {
        id = 2;
        source_id = 1;
        canonical_identity = codes "cs";
        current_revision_id = some 3;
        enabled = true;
      }
      ∷ [];
  revisions =
      record {
        id = 3;
        target_id = 2;
        config_hash = codes "h";
        capability = capability;
        policy = policy;
        cadence_ms = none;
        overlap_ms = 0;
      }
      ∷ [];
  partitions = [];
  runs = [];
  attempts = [];
  checkpoints = [];
  raw_items = [];
  memberships = [];
  documents = [];
  outbox = [];
  next_id = 10;
}

abbrev pub target : TargetRevision
target = record {
  id = 3;
  target_id = 2;
  source_id = 1;
  canonical_identity = codes "cs";
  capability = capability;
  policy = policy;
  enabled = true;
  cadence_ms = none;
  overlap_ms = 0;
}

abbrev pub fresh : Partition
fresh = record {
  id = 10;
  natural_key = 3 ∷ codes "s";
  plan = day_plan;
  state = Model.PartitionState.pending;
  page_sequence = 0;
  cursor = none;
  lease_epoch = 0;
  lease_until = none;
  next_due_at = 0;
  reason = none;
  run_id = none;
  attempts = 0;
}

-- The partition is planned, leased at 5, lost, and leased again at 2000.
abbrev pub planned : Db
planned = run codec (Traces.plan day_plan 0) base

abbrev pub item : RawItem
item = record {
  external_id = codes "e";
  raw_hash = codes "h";
  url = parsed (codes "https:") [] [];
  rights = undeclared;
}

abbrev pub cursor : Text
cursor = codec.write (record { key = 3 ∷ codes "s"; version = 1; value = codes "p2" })

abbrev pub page : PageResult
page = record {
  items = item ∷ [];
  next_cursor = some cursor;
  disposition = PageDisposition.continue;
  reason = none;
  retry_at = none;
  requests = nat 1;
  bytes = nat 64;
}

abbrev pub last_page : PageResult
last_page = record page { next_cursor = none; disposition = PageDisposition.complete }
