-- ===== src/Release/Caps.antt =====
-- The calls of apps/api/src/release-budget.ts and the caps of a release run.
use mathlib.Core.Path.{subst}
use tech_p.Base.{
  ℕ, ◌≡◌, refl, sym, ◌∙◌, ap, Bool, true, not, ◌||◌, List, [], ◌∷◌, arith, ◌==◌, Bool-cases, inl,
  inr, Text, Result, ok, err, throw_if, bind-eq-ok, ok_injective, throw_if-eq-ok,
}
use tech_p.Budget.Ledger.Configuring.{is_sha256}
use tech_p.Release.Execute.{
  CallOutcome, reserve_not_written, call_threw, answered, settle_call, run_call, execute_admitted,
  execute,
}
use tech_p.Release.Journal.{
  ReleaseError, invalid_usage, invalid_reservation, budget_exhausted, history_unreconciled,
  outcome_unknown, concurrency_exceeded, invalid_hash, RawUsage, ReleaseUsage, CallKind,
  ReleaseReservation, ReleaseState, usage, added, within_caps, all_safe, sum, valid_kind,
  validate_reservation, breaks, is_empty_list, assert_ready, admit_call,
}

pub validate_reservation-eq-ok :
    (kind : CallKind) (raw : RawUsage) (held : ReleaseUsage)
    → validate_reservation kind raw ≡ ok held
    → usage raw ≡ ok held
unfolding validate_reservation
validate_reservation-eq-ok kind raw held e =
    let (u, f, e1) = bind-eq-ok (usage raw) _ e in
    let (_, _, e2) =
      bind-eq-ok (throw_if (not (valid_kind kind u) || u.micro_usd == 0) invalid_reservation) _
        e1 in
    f ∙ ap ok (ok_injective e2)

pub sum-eq-ok :
    (u v w : ReleaseUsage)
    → sum u v ≡ ok w
    → (added u v ≡ w) × (within_caps (added u v) all_safe ≡ true)
unfolding sum
sum-eq-ok u v w e =
    let (_, pass, e1) =
      bind-eq-ok (throw_if (not (within_caps (added u v) all_safe)) invalid_usage) _ e in
    let safe = throw_if-eq-ok (not (within_caps (added u v) all_safe)) invalid_usage pass in
    (ok_injective e1, ground arith)

-- What a call that is admitted has been tested for.
pub record Admitted (caps : ReleaseUsage) (kind : CallKind) (hash : Text) (raw : RawUsage)
    (s : ReleaseState) (held : ReleaseUsage) : Type 0 where
  pub idle : is_empty_list s.pending ≡ true
  pub counted : usage raw ≡ ok held
  pub valid : validate_reservation kind raw ≡ ok held
  pub fits : within_caps (added s.total held) caps ≡ true
  pub safe : within_caps (added s.total held) all_safe ≡ true
  pub hashed : is_sha256 hash ≡ true

pub admit_call-Admitted :
    (caps : ReleaseUsage) (reconciled : Bool) (kind : CallKind) (hash : Text) (raw : RawUsage)
    (s : ReleaseState) (held : ReleaseUsage)
    → admit_call caps reconciled kind hash raw s ≡ ok held
    → Admitted caps kind hash raw s held
unfolding admit_call assert_ready
admit_call-Admitted caps reconciled kind hash raw s held e =
    let (_, ready, e1) = bind-eq-ok (assert_ready caps reconciled s) _ e in
    let (_, _, r1) =
      bind-eq-ok (throw_if (not (within_caps s.total caps)) budget_exhausted) _ ready in
    let (_, _, r2) = bind-eq-ok (throw_if (not reconciled) history_unreconciled) _ r1 in
    let idle = throw_if-eq-ok (s.poisoned || not (is_empty_list s.pending)) outcome_unknown r2 in
    let (_, _, e2) = bind-eq-ok (throw_if s.busy concurrency_exceeded) _ e1 in
    let (u, f, e3) = bind-eq-ok (usage raw) _ e2 in
    let (after, g, e4) = bind-eq-ok (sum s.total u) _ e3 in
    let (_, within, e5) =
      bind-eq-ok (throw_if (not (within_caps after caps)) budget_exhausted) _ e4 in
    let (v, valid, e6) = bind-eq-ok (validate_reservation kind raw) _ e5 in
    let (_, hashed, e7) = bind-eq-ok (throw_if (not (is_sha256 hash)) invalid_hash) _ e6 in
    let this : v ≡ held = ok_injective e7 in
    let also : u ≡ v = ok_injective (sym f ∙ validate_reservation-eq-ok kind raw v valid) in
    let same : u ≡ held = also ∙ this in
    let (total, safe) = sum-eq-ok s.total u after g in
    let small = throw_if-eq-ok (not (within_caps after caps)) budget_exhausted within in
    let named = throw_if-eq-ok (not (is_sha256 hash)) invalid_hash hashed in
    let fits : within_caps after caps ≡ true = ground arith in
    record {
      idle = ground arith;
      counted = f ∙ ap ok same;
      valid = valid ∙ ap ok this;
      fits = subst (λ x. within_caps x caps ≡ true) (sym total ∙ ap (added s.total) same) fits;
      safe = subst (λ x. within_caps (added s.total x) all_safe ≡ true) same safe;
      hashed = ground arith;
    }

-- What is used within a reservation that fits, fits.
within_caps-le :
    (total actual held caps : ReleaseUsage)
    → within_caps (added total held) caps ≡ true
    → within_caps actual held ≡ true
    → within_caps (added total actual) caps ≡ true
within_caps-le total actual held caps h k = ground arith

settle_call-within :
    (m : Result ReleaseError ReleaseUsage) (raw : RawUsage) (written : Bool)
    (r : ReleaseReservation) (held caps : ReleaseUsage) (s : ReleaseState)
    → within_caps s.total caps ≡ true
    → within_caps (added s.total held) caps ≡ true
    → within_caps (settle_call m raw written r held s).state.total caps ≡ true
unfolding settle_call
settle_call-within (err e) raw written r held caps s h k = h
settle_call-within (ok actual) raw written r held caps s h k =
    elim (Bool-cases (breaks actual held || not written)) [
      | inl bad ↦ rw bad h
      | inr good ↦ elim (Bool-cases (within_caps (added s.total actual) all_safe)) [
        | inl safe ↦ rw (good, safe) (within_caps-le s.total actual held caps k (ground arith))
        | inr unsafe ↦ rw (good, unsafe) h
      ]
    ]

run_call-within :
    (outcome : CallOutcome) (r : ReleaseReservation) (held caps : ReleaseUsage) (s : ReleaseState)
    → within_caps s.total caps ≡ true
    → within_caps (added s.total held) caps ≡ true
    → within_caps (run_call outcome r held s).state.total caps ≡ true
unfolding run_call
run_call-within reserve_not_written r held caps s h k = h
run_call-within call_threw r held caps s h k = h
run_call-within (answered raw written) r held caps s h k =
    settle_call-within (usage raw) raw written r held caps
      (record s { pending = (r.id, held) ∷ s.pending }) h k

-- A call keeps the total within the caps, whatever is asked for, answered or lost.
pub execute-within :
    (caps : ReleaseUsage) (reconciled : Bool) (kind : CallKind) (hash : Text) (raw : RawUsage)
    (id : ℕ) (outcome : CallOutcome) (s : ReleaseState)
    → within_caps s.total caps ≡ true
    → within_caps (execute caps reconciled kind hash raw id outcome s).state.total caps ≡ true
unfolding execute execute_admitted
execute-within caps reconciled kind hash raw id outcome s h =
    go (admit_call caps reconciled kind hash raw s) refl
  where
    go :
        (m : Result ReleaseError ReleaseUsage)
        → admit_call caps reconciled kind hash raw s ≡ m
        → within_caps (execute_admitted m kind hash raw id outcome s).state.total caps ≡ true
    go (err e) f = h
    go (ok held) f =
        run_call-within outcome _ held caps s h
          (admit_call-Admitted caps reconciled kind hash raw s held f).fits

-- A call of a release run: whether the history is reconciled, the kind, the request, and what happens.
pub record ReleaseCall : Type 0 where
  pub reconciled : Bool
  pub kind : CallKind
  pub request_hash : Text
  pub reserved : RawUsage
  pub id : ℕ
  pub outcome : CallOutcome

unfoldable pub execute_all : ReleaseUsage → List ReleaseCall → ReleaseState → ReleaseState
execute_all caps [] s = s
execute_all caps (c ∷ cs) s =
    execute_all caps cs
      (execute caps c.reconciled c.kind c.request_hash c.reserved c.id c.outcome s).state

-- However many calls are made, and whatever is asked for, answered or lost, a total that is within the
-- six caps stays within them.
pub total_within_caps :
    (caps : ReleaseUsage) (cs : List ReleaseCall) (s : ReleaseState)
    → within_caps s.total caps ≡ true
    → within_caps (execute_all caps cs s).total caps ≡ true
unfolding execute_all
total_within_caps caps [] s h = h
total_within_caps caps (c ∷ cs) s h =
    total_within_caps caps cs
      (execute caps c.reconciled c.kind c.request_hash c.reserved c.id c.outcome s).state
      (execute-within caps c.reconciled c.kind c.request_hash c.reserved c.id c.outcome s h)
