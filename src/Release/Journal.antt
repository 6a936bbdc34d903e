-- ===== src/Release/Journal.antt =====
-- createReleaseBudget of apps/api/src/release-budget.ts: the state that a journal of reservations and
-- settlements leaves.
use tech_p.Base.{
  ℕ, ◌+◌, Bool, true, false, not, ◌&&◌, ◌||◌, Option, List, [], ◌∷◌, leb, ltb, ◌==◌, find, any,
  keep_if, max_safe, Num, safe_nat, Text, Result, ok, ◌>>=◌, ◌>>◌, throw_if, need,
}
use tech_p.Budget.Ledger.Configuring.{is_sha256}

pub data ReleaseError : Type 0 where
  invalid_usage invalid_reservation invalid_journal journal_budget budget_exhausted
        history_unreconciled outcome_unknown concurrency_exceeded invalid_hash call_failed :
      ReleaseError

-- A usage as a value of JSON or of a provider has it, and one that is checked.
pub record RawUsage : Type 0 where
  pub micro_usd : Num
  pub embedding_calls : Num
  pub embedding_input : Num
  pub chat_calls : Num
  pub chat_input : Num
  pub chat_output : Num

pub record ReleaseUsage : Type 0 where
  pub micro_usd : ℕ
  pub embedding_calls : ℕ
  pub embedding_input : ℕ
  pub chat_calls : ℕ
  pub chat_input : ℕ
  pub chat_output : ℕ

pub data CallKind : Type 0 where
  embedding chat : CallKind

pub record ReleaseReservation : Type 0 where
  pub id : ℕ
  pub kind : CallKind
  pub request_hash : Text
  pub reserved : RawUsage

pub data ReleaseEvent : Type 0 where
  reserve : ReleaseReservation → ReleaseEvent
  settle : ℕ → RawUsage → ReleaseEvent

-- `pending` is a map from ids; the reservation of each entry is with what its check let through.
pub record ReleaseState : Type 0 where
  pub total : ReleaseUsage
  pub pending : List (ℕ × ReleaseUsage)
  pub used : List ℕ
  pub busy : Bool
  pub poisoned : Bool

-- usage
unfoldable pub usage : RawUsage → Result ReleaseError ReleaseUsage
usage r = do
  a ← need (safe_nat r.micro_usd) invalid_usage
  b ← need (safe_nat r.embedding_calls) invalid_usage
  c ← need (safe_nat r.embedding_input) invalid_usage
  d ← need (safe_nat r.chat_calls) invalid_usage
  e ← need (safe_nat r.chat_input) invalid_usage
  f ← need (safe_nat r.chat_output) invalid_usage
  ok (record {
    micro_usd = a;
    embedding_calls = b;
    embedding_input = c;
    chat_calls = d;
    chat_input = e;
    chat_output = f;
  })

abbrev pub added : ReleaseUsage → ReleaseUsage → ReleaseUsage
added u v = record {
  micro_usd = u.micro_usd + v.micro_usd;
  embedding_calls = u.embedding_calls + v.embedding_calls;
  embedding_input = u.embedding_input + v.embedding_input;
  chat_calls = u.chat_calls + v.chat_calls;
  chat_input = u.chat_input + v.chat_input;
  chat_output = u.chat_output + v.chat_output;
}

-- withinCaps
abbrev pub within_caps : ReleaseUsage → ReleaseUsage → Bool
within_caps u caps =
    leb u.micro_usd caps.micro_usd
    && leb u.embedding_calls caps.embedding_calls
    && leb u.embedding_input caps.embedding_input
    && leb u.chat_calls caps.chat_calls
    && leb u.chat_input caps.chat_input
    && leb u.chat_output caps.chat_output

abbrev pub all_safe : ReleaseUsage
all_safe = record {
  micro_usd = max_safe;
  embedding_calls = max_safe;
  embedding_input = max_safe;
  chat_calls = max_safe;
  chat_input = max_safe;
  chat_output = max_safe;
}

-- sum
unfoldable pub sum : ReleaseUsage → ReleaseUsage → Result ReleaseError ReleaseUsage
sum u v = do throw_if (not (within_caps (added u v) all_safe)) invalid_usage; ok (added u v)

abbrev pub valid_kind : CallKind → ReleaseUsage → Bool
valid_kind embedding u =
    u.embedding_calls == 1
    && ltb 0 u.embedding_input
    && u.chat_calls == 0
    && u.chat_input == 0
    && u.chat_output == 0
valid_kind chat u =
    u.chat_calls == 1
    && ltb 0 u.chat_input
    && ltb 0 u.chat_output
    && u.embedding_calls == 0
    && u.embedding_input == 0

-- validateReservation, with the usage that it lets through
unfoldable pub validate_reservation : CallKind → RawUsage → Result ReleaseError ReleaseUsage
unfolding usage
validate_reservation kind raw = do
  u ← usage raw
  throw_if (not (valid_kind kind u) || u.micro_usd == 0) invalid_reservation
  ok u

-- What a call may not use: more than it reserved, or another number of calls.
abbrev pub breaks : ReleaseUsage → ReleaseUsage → Bool
breaks actual held =
    not (within_caps actual held)
    || not (actual.chat_calls == held.chat_calls)
    || not (actual.embedding_calls == held.embedding_calls)

abbrev pub is_empty_list : List (ℕ × ReleaseUsage) → Bool
is_empty_list [] = true
is_empty_list (x ∷ xs) = false

abbrev pub lookup : ℕ → List (ℕ × ReleaseUsage) → Option (ℕ × ReleaseUsage)
lookup id entries = find (λ e. e.0 == id) entries

abbrev pub without : ℕ → List (ℕ × ReleaseUsage) → List (ℕ × ReleaseUsage)
without id entries = keep_if (λ e. not (e.0 == id)) entries

module _ (caps : ReleaseUsage) where
  -- One entry of the journal.
  unfoldable pub apply_event : ReleaseEvent → ReleaseState → Result ReleaseError ReleaseState
  unfolding usage sum validate_reservation
  apply_event (reserve r) s = do
    throw_if
        (any (λ n. n == r.id) s.used
          || not (is_empty_list s.pending)
          || not (is_sha256 r.request_hash))
        invalid_journal
    held ← validate_reservation r.kind r.reserved
    after ← sum s.total held
    throw_if (not (within_caps after caps)) journal_budget
    ok (record s { used = r.id ∷ s.used; pending = (r.id, held) ∷ s.pending })
  apply_event (settle id raw) s = do
    entry ← need (lookup id s.pending) invalid_journal
    actual ← usage raw
    throw_if (breaks actual entry.1) invalid_journal
    total ← sum s.total actual
    ok (record s { total = total; pending = without id s.pending })

  unfoldable pub replay : List ReleaseEvent → ReleaseState → Result ReleaseError ReleaseState
  unfolding apply_event
  replay [] s = ok s
  replay (e ∷ es) s = do s' ← apply_event e s; replay es s'

  -- assertReady. `reconciled` holds of a history that is reconciled, or of a run with an allowance.
  unfoldable pub assert_ready : Bool → ReleaseState → Result ReleaseError (Unit {0})
  assert_ready reconciled s = do
    throw_if (not (within_caps s.total caps)) budget_exhausted
    throw_if (not reconciled) history_unreconciled
    throw_if (s.poisoned || not (is_empty_list s.pending)) outcome_unknown

  -- The tests of `execute` before anything is written, and the usage that is reserved.
  unfoldable pub admit_call :
      Bool → CallKind → Text → RawUsage → ReleaseState → Result ReleaseError ReleaseUsage
  unfolding assert_ready usage sum validate_reservation
  admit_call reconciled kind hash raw s = do
    assert_ready reconciled s
    throw_if s.busy concurrency_exceeded
    reserved ← usage raw
    after ← sum s.total reserved
    throw_if (not (within_caps after caps)) budget_exhausted
    held ← validate_reservation kind raw
    throw_if (not (is_sha256 hash)) invalid_hash
    ok held
