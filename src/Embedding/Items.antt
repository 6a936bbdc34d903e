-- ===== src/Embedding/Items.antt =====
-- The tables of packages/database/src/embedding-work.ts, and the tests and updates of their rows.
use tech_p.Base.{
  ℕ, ◌+◌, ◌/◌, ◌%◌, Bool, true, false, not, ◌&&◌, Option, none, some, List, [], ◌∷◌, find, any, all,
  update_where, length, if◌then◌else◌, leb, ◌==◌, Num, safe_nat, Text,
}
use tech_p.Budget.Ledger.{WorkState, Ledger, ReservationState, reserved, hold_unknown}
use tech_p.Collection.Store.{has_expired}

pub record Profile : Type 0 where
  pub provider : Text
  pub model : Text
  pub version : Text
  pub dimensions : Num
  pub price_version : Text
  pub tokenizer_version : Text
  pub approval_reference : Text

pub record WorkKey : Type 0 where
  pub chunk_id : ℕ
  pub input_hash : Text
  pub profile : Profile

-- A row of embedding_work_items.
pub record Work : Type 0 where
  pub id : ℕ
  pub work_key : Text
  pub key : WorkKey
  pub state : WorkState
  pub epoch : ℕ
  pub lease_until : Option ℕ
  pub reservation_id : Option ℕ
  pub embedding_id : Option ℕ

-- A component of a vector: zero, another finite number, or a value that is none.
pub data Component : Type 0 where
  null_component : Component
  component : ℕ → Component
  not_finite : Component

pub record Embedding : Type 0 where
  pub id : ℕ
  pub chunk_id : ℕ
  pub provider : Text
  pub model : Text
  pub profile_hash : Text
  pub dimensions : ℕ
  pub vector : List Component
  pub input_hash : Text

pub record Chunk : Type 0 where
  pub id : ℕ
  pub content_hash : Text

pub record EmbedDb : Type 0 where
  pub works : List Work
  pub embeddings : List Embedding
  pub chunks : List Chunk
  pub ledger : Ledger
  pub next_work : ℕ

-- SHA-256 over canonical JSON of a key and of a profile, and the text of an id.
pub record Hashing : Type 0 where
  pub hash_key : WorkKey → Text
  pub hash_profile : Profile → Text
  pub id_text : ℕ → Text

-- `${n}` of a number, on as much fuel as it has units.
unfoldable pub digits : ℕ → ℕ → Text → Text
digits Prim.Native.Nat.zero n acc = acc
digits (Prim.Native.Nat.suc fuel) n acc =
    let rest = digits fuel (n / 10) ((48 + n % 10) ∷ acc) in
    if n / 10 == 0 then (48 + n % 10) ∷ acc else rest

abbrev pub find_work : ℕ → List Work → Option Work
find_work id works = find (λ w. w.id == id) works

abbrev is_text : Text → Bool
is_text [] = false
is_text (c ∷ s) = true

-- `Number.isSafeInteger(d) && 1 <= d && d <= 16000`
abbrev pub in_dimensions : Option ℕ → Bool
in_dimensions none = false
in_dimensions (some n) = leb 1 n && leb n 16000

unfoldable pub valid_profile : Profile → Bool
valid_profile p =
    is_text p.provider
    && is_text p.model
    && is_text p.version
    && is_text p.price_version
    && is_text p.tokenizer_version
    && is_text p.approval_reference
    && in_dimensions (safe_nat p.dimensions)

abbrev pub set_work : ℕ → (Work → Work) → EmbedDb → EmbedDb
set_work id g db = record db { works = update_where (λ w. w.id == id) g db.works }

-- The reservation that a work item is bound to, if it is still reserved, is held as unknown.
abbrev pub hold_bound : Option ℕ → ℕ → EmbedDb → EmbedDb
hold_bound none now db = db
hold_bound (some id) now db = record db { ledger = hold_unknown id now db.ledger }

abbrev pub has_dimensions : ℕ → Num → Bool
has_dimensions n d = in_dimensions (safe_nat d) && safe_eq (safe_nat d) n
  where
    safe_eq : Option ℕ → ℕ → Bool
    safe_eq none n = false
    safe_eq (some m) n = m == n

abbrev pub claimed_by : ℕ → Work → Work
claimed_by until w = record w {
  state = WorkState.claimed;
  epoch = w.epoch + 1;
  lease_until = some until;
  reservation_id = none;
}

abbrev pub with_state : WorkState → Work → Work
with_state st w = record w { state = st }

abbrev pub completed_with : ℕ → Work → Work
completed_with id w = record w {
  state = WorkState.completed;
  embedding_id = some id;
  lease_until = none;
}

abbrev pub calling_with : ℕ → Work → Work
calling_with reservation w = record w {
  state = WorkState.calling;
  reservation_id = some reservation;
}

abbrev pub failed_work : Work → Work
failed_work w = record w { state = WorkState.failed; lease_until = none }

-- A work item that a worker is given, with the vector of one that is completed.
abbrev pub Claimed : Type 0
Claimed = Work × Option (List Component)

abbrev pub find_embedding : Option ℕ → List Embedding → Option Embedding
find_embedding none rows = none
find_embedding (some id) rows = find (λ e. e.id == id) rows

abbrev pub is_claimed : WorkState → Bool
is_claimed WorkState.claimed = true
is_claimed _ = false

abbrev pub is_calling : WorkState → Bool
is_calling WorkState.calling = true
is_calling _ = false

abbrev pub is_reserved : ReservationState → Bool
is_reserved reserved = true
is_reserved _ = false

-- The row has the lease of that epoch, and the lease holds.
abbrev pub holds : Work → ℕ → ℕ → Bool
holds w epoch now = w.epoch == epoch && not (has_expired w.lease_until now)

abbrev pub is_null : Component → Bool
is_null null_component = true
is_null _ = false

abbrev pub is_finite : Component → Bool
is_finite not_finite = false
is_finite _ = true

unfoldable pub valid_vector : List Component → Num → Bool
valid_vector v d = has_dimensions (length v) d && all is_finite v && any (λ c. not (is_null c)) v
