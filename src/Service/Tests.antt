-- ===== src/Service/Tests.antt =====
-- Calls of packages/domain/src/embedding-service.ts on a small database, and each property of the service
-- at an input that it covers.
use tech_p.Base.{
  ◌+◌, ◌≡◌, refl, true, false, none, some, [], ◌∷◌, ◌++◌, map, find, any, all, update_where, sum_by,
  ◌==◌, arith, codes, eq_text, is_space, is_blank, nat, ok, err,
}
use tech_p.Budget.Ledger.{
  Reservation, reserved, settled, Scope, reserve, settle, lane_limit, exceeds,
}
use tech_p.Budget.Ledger.Closing.{is_open}
use tech_p.Embedding.Items.{Hashing, Profile, EmbedDb, component, valid_vector}
use tech_p.Embedding.Work.{claim_or_read, begin_call, complete_work}
use tech_p.Embedding.Rows.{IsSound}
use tech_p.Calls.Checks.{
  unsupported_input, assert_profile, assert_rate, words, estimate_tokens, token_units,
}
use tech_p.Service.Preflight.{ServiceOptions, ChunkCall, ChunkOutcome, ChunkResult, ChunkStatus}
use tech_p.Service.Chunk.{process_chunk, process_batch}
use tech_p.Service.Closed.{chunk_leaves_none_open}
use tech_p.Service.Holding.{Recorded}
use tech_p.Service.Recorded.{process_chunk-Recorded}
use tech_p.Service.Batches.{batch_isolates_errors}

abbrev hashing : Hashing
hashing = record {
  hash_key = λ k. k.chunk_id ∷ k.input_hash;
  hash_profile = λ p. p.model;
  id_text = λ n. (48 + n) ∷ [];
}

abbrev profile : Profile
profile = record {
  provider = codes "p";
  model = codes "m";
  version = codes "1";
  dimensions = nat 1;
  price_version = codes "1";
  tokenizer_version = codes "t";
  approval_reference = codes "DEC";
}

abbrev scope : Scope
scope = record {
  id = codes "s";
  approved = true;
  currency = codes "USD";
  max_daily_units = 1000;
  max_outstanding_units = 600;
  max_daily_tokens = 1000;
  lane_limits =
      (codes "ingestion_embedding", record { max_daily_units = 800; max_daily_tokens = 900 }) ∷ [];
  approved_model_profiles = codes "m" ∷ [];
  blocked = false;
}

-- The reservation of another attempt, open before a call and after it.
abbrev in_flight : Reservation
in_flight = record {
  id = 3;
  scope_id = codes "s";
  attempt_id = codes "z";
  lane = codes "ingestion_embedding";
  utc_day = 0;
  units = 4;
  tokens = 4;
  state = reserved;
  actual_units = none;
  actual_tokens = none;
  created_at = 1;
  updated_at = 1;
}

abbrev start : EmbedDb
start = record {
  works = [];
  embeddings = [];
  chunks = record { id = 7; content_hash = codes "h" } ∷ [];
  ledger = record { scopes = scope ∷ []; reservations = in_flight ∷ []; next_id = 4 };
  next_work = 1;
}

abbrev options : ServiceOptions
options = record {
  scope_id = codes "s";
  price_table = (codes "1", nat 1000) ∷ [];
  caps = some (record { max_input = nat 100; lease = none });
}

abbrev answer : ChunkOutcome
answer =
    ChunkOutcome.embedded (component 1 ∷ []) (codes "m") (nat 1)
      (record { input = nat 5; output = nat 0; total = nat 5 })

abbrev call : ChunkCall
call = record {
  chunk = record { chunk_id = 7; input = codes "some text"; input_hash = codes "h" };
  profile = profile;
  rights = record { at_claim = true; at_call = true; at_end = true };
  outcome = answer;
  now = 1000;
}

-- A chunk that the provider embeds is completed, and its reservation is settled at what it used.
embeds :
    (process_chunk hashing options call start).0
    ≡ ok (record {
      chunk_id = 7;
      status = ChunkStatus.completed;
      work_id = some 1;
      vector = some (component 1 ∷ []);
      error = none;
    })
unfolding process_chunk find any all update_where sum_by eq_text is_space is_blank assert_profile
    assert_rate estimate_tokens words token_units claim_or_read begin_call complete_work reserve
    settle valid_vector lane_limit exceeds
embeds = refl

pays :
    find (λ r. r.id == 4) (process_chunk hashing options call start).1.ledger.reservations
    ≡ some (record in_flight {
      id = 4;
      attempt_id = codes "1:1";
      units = 100;
      tokens = 100;
      state = settled;
      actual_units = some 5;
      actual_tokens = some 5;
      created_at = 1000;
      updated_at = 1000;
    })
unfolding process_chunk find any all update_where sum_by eq_text is_space is_blank assert_profile
    assert_rate estimate_tokens words token_units claim_or_read begin_call complete_work reserve
    settle valid_vector lane_limit exceeds
pays = refl

still_open : is_open 3 (process_chunk hashing options call start).1.ledger ≡ true
unfolding process_chunk find any all update_where sum_by eq_text is_space is_blank assert_profile
    assert_rate estimate_tokens words token_units claim_or_read begin_call complete_work reserve
    settle valid_vector lane_limit exceeds
still_open = refl

chunk_leaves_none_open_example : is_open 3 start.ledger ≡ true
chunk_leaves_none_open_example = chunk_leaves_none_open hashing options call start tt 3 still_open

start-IsSound : IsSound start
unfolding find
start-IsSound = record { keyed = λ k w e. ground arith; drawn = λ id w e. ground arith }

process_chunk-Recorded_example : Recorded (process_chunk hashing options call start)
process_chunk-Recorded_example = process_chunk-Recorded hashing options call start start-IsSound

-- The second chunk of a batch is blank.
abbrev blank : ChunkCall
blank = record call { chunk = record { chunk_id = 8; input = codes " "; input_hash = codes "i" } }

abbrev first_end : EmbedDb
first_end = (process_batch hashing options (call ∷ []) start).1

throws : process_chunk hashing options blank first_end ≡ (err unsupported_input, first_end)
unfolding process_chunk is_space is_blank assert_profile assert_rate eq_text
throws = refl

batch_isolates_errors_example :
    (process_batch hashing options (call ∷ blank ∷ call ∷ []) start ≡ (
      (process_batch hashing options (call ∷ []) start).0
          ++ record {
            chunk_id = 8;
            status = ChunkStatus.failed;
            work_id = none;
            vector = none;
            error = some unsupported_input;
          }
            ∷ (process_batch hashing options (call ∷ []) first_end).0,
      (process_batch hashing options (call ∷ []) first_end).1,
    ))
    × (map
          (λ (r : ChunkResult). r.chunk_id)
          (process_batch hashing options (call ∷ blank ∷ call ∷ []) start).0
        ≡ 7 ∷ 8 ∷ 7 ∷ [])
batch_isolates_errors_example =
    batch_isolates_errors hashing options (call ∷ []) blank (call ∷ []) start first_end
      unsupported_input throws
