-- ===== src/Embedding/Tests.antt =====
-- Runs of packages/database/src/embedding-work.ts on a small database, and each property of the work
-- items at an input that it covers.
use tech_p.Base.{
  ◌+◌, ◌≡◌, ◌≢◌, refl, true, false, none, some, List, [], ◌∷◌, find, any, update_where, arith,
  codes, eq_text, nat, ok,
}
use tech_p.Budget.Ledger.{Scope, Reservation, reserved, WorkState}
use tech_p.Embedding.Items.{Hashing, Profile, WorkKey, Work, EmbedDb, find_work}
use tech_p.Embedding.Work.{claim_or_read, begin_call}
use tech_p.Embedding.Rows.{IsSound}
use tech_p.Embedding.Runs.{WorkCall, work_calls, called_at_most_once, outcome_is_final}

abbrev hashing : Hashing
hashing = record {
  hash_key = λ k. k.chunk_id ∷ k.input_hash;
  hash_profile = λ p. p.model;
  id_text = λ n. (48 + n) ∷ [];
}

abbrev profile : Profile
profile = record {
  provider = codes "p";
  model = codes "m";
  version = codes "1";
  dimensions = nat 1;
  price_version = codes "1";
  tokenizer_version = codes "t";
  approval_reference = codes "DEC";
}

abbrev key : WorkKey
key = record { chunk_id = 7; input_hash = codes "h"; profile = profile }

abbrev scope : Scope
scope = record {
  id = codes "s";
  approved = true;
  currency = codes "USD";
  max_daily_units = 1000;
  max_outstanding_units = 600;
  max_daily_tokens = 1000;
  lane_limits = [];
  approved_model_profiles = codes "m" ∷ [];
  blocked = false;
}

-- The reservation of the attempt 0:1.
abbrev reservation : Reservation
reservation = record {
  id = 3;
  scope_id = codes "s";
  attempt_id = codes "0:1";
  lane = codes "ingestion_embedding";
  utc_day = 0;
  units = 4;
  tokens = 4;
  state = reserved;
  actual_units = none;
  actual_tokens = none;
  created_at = 5;
  updated_at = 5;
}

abbrev waiting : Work
waiting = record {
  id = 0;
  work_key = 7 ∷ codes "h";
  key = key;
  state = WorkState.claimed;
  epoch = 1;
  lease_until = some 2000;
  reservation_id = none;
  embedding_id = none;
}

abbrev claimed_db : EmbedDb
claimed_db = record {
  works = waiting ∷ [];
  embeddings = [];
  chunks = record { id = 7; content_hash = codes "h" } ∷ [];
  ledger = record { scopes = scope ∷ []; reservations = reservation ∷ []; next_id = 4 };
  next_work = 1;
}

-- A claim of the chunk in an empty table gives that row.
first_claim :
    claim_or_read hashing key 1000 (nat 1000) true (record claimed_db { works = []; next_work = 0 })
    ≡ ok (some (waiting, none), claimed_db)
unfolding claim_or_read find any update_where eq_text
first_claim = refl

claimed-IsSound : IsSound claimed_db
unfolding find eq_text
claimed-IsSound = record { keyed = λ k w e. ground arith; drawn = λ id w e. ground arith }

abbrev calling_db : EmbedDb
calling_db = record claimed_db {
  works = record waiting { state = WorkState.calling; reservation_id = some 3 } ∷ [];
}

begins : begin_call hashing 0 1 3 1500 true claimed_db ≡ ok calling_db
unfolding begin_call find any update_where eq_text
begins = refl

abbrev late : List WorkCall
late = WorkCall.unknown 0 1 1600 ∷ WorkCall.claim key 5000 (nat 1000) true ∷ []

called_at_most_once_example :
    begin_call hashing 0 2 3 5001 true (work_calls hashing late calling_db) ≢ ok calling_db
called_at_most_once_example =
    called_at_most_once hashing 0 1 3 1500 true claimed_db calling_db late 2 3 5001 true calling_db
      claimed-IsSound begins

abbrev done_work : Work
done_work = record waiting { state = WorkState.failed; lease_until = none }

abbrev done_db : EmbedDb
done_db = record claimed_db { works = done_work ∷ [] }

done-IsSound : IsSound done_db
unfolding find eq_text
done-IsSound = record { keyed = λ k w e. ground arith; drawn = λ id w e. ground arith }

done_found : find_work 0 done_db.works ≡ some done_work
unfolding find
done_found = refl

outcome_is_final_example : find_work 0 (work_calls hashing late done_db).works ≡ some done_work
outcome_is_final_example =
    outcome_is_final hashing late done_db 0 done_work done-IsSound done_found refl
