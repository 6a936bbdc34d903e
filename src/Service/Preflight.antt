-- ===== src/Service/Preflight.antt =====
-- What processChunk of packages/domain/src/embedding-service.ts is given and gives, and its first step, the
-- tests before anything is stored.
use tech_p.Base.{
  ℕ, Bool, Option, none, some, List, [], ◌∷◌, ltb, Num, nat, Text, eq_text, is_blank, Result, ok,
  ◌>>=◌, ◌>>◌, throw_if, need, if◌then◌else◌,
}
use tech_p.Budget.Ledger.{approval_required, invalid_usage, is_empty}
use tech_p.Collection.Store.Leasing.{lease_duration}
use tech_p.Embedding.Items.{Profile, Component}
use tech_p.Calls.Checks.{
  CallError, budget, unsupported_input, assert_profile, assert_rate, positive, estimate_tokens,
}
use tech_p.Calls.Guarded.{Usage}

-- EmbeddingChunkInput; an id is never empty.
pub record ChunkInput : Type 0 where
  pub chunk_id : ℕ
  pub input : Text
  pub input_hash : Text

pub record ServiceCaps : Type 0 where
  pub max_input : Num
  pub lease : Option Num

pub record ServiceOptions : Type 0 where
  pub scope_id : Text
  pub price_table : List (Text × Num)
  pub caps : Option ServiceCaps

pub data ChunkStatus : Type 0 where
  completed reused in_flight outcome_unknown failed : ChunkStatus

pub record ChunkResult : Type 0 where
  pub chunk_id : ℕ
  pub status : ChunkStatus
  pub work_id : Option ℕ
  pub vector : Option (List Component)
  pub error : Option CallError

-- What the provider does: an error that is not to be retried, any other error, or a vector with the
-- model, the dimensions and the usage of its metadata.
pub data ChunkOutcome : Type 0 where
  refused : ChunkOutcome
  lost : ChunkOutcome
  embedded : List Component → Text → Num → Usage → ChunkOutcome

-- What the query of checkWorkRights finds at the claim, at the call and at the end.
pub record RightsFound : Type 0 where
  pub at_claim : Bool
  pub at_call : Bool
  pub at_end : Bool

-- A call of processChunk.
pub record ChunkCall : Type 0 where
  pub chunk : ChunkInput
  pub profile : Profile
  pub rights : RightsFound
  pub outcome : ChunkOutcome
  pub now : ℕ

-- What the tests of a call find: the cap on tokens and the price.
pub record Approved : Type 0 where
  pub max_tokens : ℕ
  pub rate : Num
  pub lease : Num

-- `options.caps ?? { maxInputTokens: 8192, leaseMs: 30000 }`
abbrev pub caps_of : Option ServiceCaps → ServiceCaps
caps_of none = record { max_input = nat 8192; lease = some (nat 30000) }
caps_of (some caps) = caps

-- `caps.leaseMs ?? 30000`
abbrev pub lease_of : Option Num → Num
lease_of none = nat 30000
lease_of (some n) = n

-- `options.priceTable[profile.priceVersion]`
unfoldable pub price_of : Text → List (Text × Num) → Option Num
price_of version [] = none
price_of version ((v, rate) ∷ rest) = if eq_text v version then some rate else price_of version rest

-- Step 1, before anything is stored.
unfoldable pub preflight : ServiceOptions → ChunkInput → Profile → Result CallError Approved
unfolding price_of
preflight o chunk profile = do
  assert_profile profile
  throw_if (is_blank o.scope_id) (budget approval_required)
  cap ← need (positive (caps_of o.caps).max_input) (budget approval_required)
  rate ← need (price_of profile.price_version o.price_table) (budget approval_required)
  assert_rate rate >>= λ _. (do
    throw_if (is_empty chunk.input_hash) (budget invalid_usage)
    throw_if (is_blank chunk.input) unsupported_input
    estimated ← estimate_tokens chunk.input profile.tokenizer_version
    throw_if (ltb cap estimated) (budget invalid_usage)
    lease ← need (lease_duration (lease_of (caps_of o.caps).lease)) (budget invalid_usage)
    ok (record { max_tokens = cap; rate = rate; lease = nat lease }))
