-- ===== src/Release/Replay.antt =====
-- The journal of apps/api/src/release-budget.ts after a call, and the run that replays it.
use tech_p.Base.{
  ℕ, ◌≡◌, ◌≢◌, refl, Bool, true, false, not, ◌||◌, List, [], ◌∷◌, arith, any, find, ◌==◌,
  Bool-cases, inl, inr, Text, Result, ok, err, throw_if, bind-eq-ok, throw_if-eq-ok,
}
use tech_p.Release.Execute.{
  CallOutcome, reserve_not_written, call_threw, answered, settle_call, run_call, execute_admitted,
  execute,
}
use tech_p.Release.Journal.{
  ReleaseError, outcome_unknown, budget_exhausted, history_unreconciled, call_failed, RawUsage,
  ReleaseUsage, CallKind, ReleaseReservation, ReleaseEvent, ReleaseState, usage, added, within_caps,
  all_safe, sum, breaks, without, apply_event, replay, assert_ready, admit_call,
}
use tech_p.Release.Caps.{Admitted, admit_call-Admitted}

-- The reservation of a call that is admitted is taken by the journal.
abbrev held_state : ℕ → ReleaseUsage → ReleaseState → ReleaseState
held_state id held s = record s { used = id ∷ s.used; pending = (id, held) ∷ s.pending }

sum_safe : (u v : ReleaseUsage) → within_caps (added u v) all_safe ≡ true → sum u v ≡ ok (added u v)
unfolding sum
sum_safe u v h = rw h refl

apply_reserve :
    (caps : ReleaseUsage) (kind : CallKind) (hash : Text) (raw : RawUsage) (id : ℕ)
    (held : ReleaseUsage) (s : ReleaseState)
    → Admitted caps kind hash raw s held
    → any (λ n. n == id) s.used ≡ false
    → apply_event caps
        (ReleaseEvent.reserve
          (record { id = id; kind = kind; request_hash = hash; reserved = raw }))
        s
      ≡ ok (held_state id held s)
unfolding apply_event
apply_reserve caps kind hash raw id held s a fresh =
    rw (fresh, a.idle, a.hashed, a.valid, sum_safe s.total held a.safe, a.fits) refl

apply_settle :
    (caps : ReleaseUsage) (raw : RawUsage) (id : ℕ) (actual held : ReleaseUsage) (s : ReleaseState)
    → usage raw ≡ ok actual
    → breaks actual held ≡ false
    → within_caps (added s.total actual) all_safe ≡ true
    → apply_event caps (ReleaseEvent.settle id raw) (held_state id held s)
      ≡ ok (record (held_state id held s) {
        total = added s.total actual;
        pending = without id ((id, held) ∷ s.pending);
      })
unfolding apply_event find
apply_settle caps raw id actual held s u good safe =
    rw (same, u, good, sum_safe s.total actual safe) refl
  where
    same : (id == id) ≡ true
    same = ground arith

settled_replays :
    (caps : ReleaseUsage) (m : Result ReleaseError ReleaseUsage) (kind : CallKind) (hash : Text)
    (raw used : RawUsage) (written : Bool) (id : ℕ) (held : ReleaseUsage) (s : ReleaseState)
    → usage used ≡ m
    → Admitted caps kind hash raw s held
    → any (λ n. n == id) s.used ≡ false
    → (settle_call m used written
        (record { id = id; kind = kind; request_hash = hash; reserved = raw })
        held
        (record s { pending = (id, held) ∷ s.pending })).result
      ≡ ok tt
    → replay caps
        (settle_call m used written
          (record { id = id; kind = kind; request_hash = hash; reserved = raw })
          held
          (record s { pending = (id, held) ∷ s.pending })).events
        s
      ≡ ok
          (record (settle_call m used written
            (record { id = id; kind = kind; request_hash = hash; reserved = raw })
            held
            (record s { pending = (id, held) ∷ s.pending })).state { used = id ∷ s.used })
unfolding settle_call replay
settled_replays caps (err x) kind hash raw used written id held s u a fresh e = cc
settled_replays caps (ok actual) kind hash raw used written id held s u a fresh e =
    elim (Bool-cases (breaks actual held || not written)) [
      | inl bad ↦
          let no : Path (Result ReleaseError (Unit {0})) (err call_failed) (ok tt) = rw bad at e in
          cc
      | inr good ↦ elim (Bool-cases (within_caps (added s.total actual) all_safe)) [
        | inr unsafe ↦
            let no : Path (Result ReleaseError (Unit {0})) (err call_failed) (ok tt) =
              rw (good, unsafe) at e in
            cc
        | inl safe ↦
            rw
              (
                good,
                safe,
                apply_reserve caps kind hash raw id held s a fresh,
                apply_settle caps used id actual held s u (ground arith) safe,
              )
              refl
      ]
    ]

module _ (caps : ReleaseUsage) (reconciled : Bool) (kind : CallKind) (hash : Text) (raw : RawUsage)
    (id : ℕ) (outcome : CallOutcome) (s : ReleaseState) where
  abbrev request : ReleaseReservation
  request = record { id = id; kind = kind; request_hash = hash; reserved = raw }

  run_replays :
      (o : CallOutcome) (held : ReleaseUsage)
      → Admitted caps kind hash raw s held
      → any (λ n. n == id) s.used ≡ false
      → (run_call o request held s).result ≡ ok tt
      → replay caps (run_call o request held s).events s
        ≡ ok (record (run_call o request held s).state { used = id ∷ s.used })
  unfolding run_call
  run_replays reserve_not_written held a fresh e = cc
  run_replays call_threw held a fresh e = cc
  run_replays (answered used written) held a fresh e =
      settled_replays caps (usage used) kind hash raw used written id held s refl a fresh e

  -- After a call that returns, replaying the entries that it wrote takes the state before it to the
  -- state that it left: the same total and the same reservations, with its id among those used. The id
  -- has to be new.
  pub execute_replays :
      any (λ n. n == id) s.used ≡ false
      → (execute caps reconciled kind hash raw id outcome s).result ≡ ok tt
      → replay caps (execute caps reconciled kind hash raw id outcome s).events s
        ≡ ok (record (execute caps reconciled kind hash raw id outcome s).state {
          used = id ∷ s.used;
        })
  unfolding execute execute_admitted
  execute_replays fresh = go (admit_call caps reconciled kind hash raw s) refl
    where
      go :
          (m : Result ReleaseError ReleaseUsage)
          → admit_call caps reconciled kind hash raw s ≡ m
          → (execute_admitted m kind hash raw id outcome s).result ≡ ok tt
          → replay caps (execute_admitted m kind hash raw id outcome s).events s
            ≡ ok (record (execute_admitted m kind hash raw id outcome s).state {
              used = id ∷ s.used;
            })
      go (err x) f e = cc
      go (ok held) f e =
          run_replays outcome held (admit_call-Admitted caps reconciled kind hash raw s held f)
            fresh e

  -- A run that restarts on a journal with a reservation in it and no settlement is not ready.
  held_not_ready :
      (held : ReleaseUsage) (b : Bool) → assert_ready caps b (held_state id held s) ≢ ok tt
  unfolding assert_ready
  held_not_ready held b e =
      let (_, _, e1) =
        bind-eq-ok (throw_if (not (within_caps s.total caps)) budget_exhausted) _ e in
      let (_, _, e2) = bind-eq-ok (throw_if (not b) history_unreconciled) _ e1 in
      let open_call = throw_if-eq-ok (s.poisoned || true) outcome_unknown e2 in ground arith

  -- Replaying the lone reservation of a call.
  replay_reserve :
      (held : ReleaseUsage)
      → Admitted caps kind hash raw s held
      → any (λ n. n == id) s.used ≡ false
      → replay caps (ReleaseEvent.reserve request ∷ []) s ≡ ok (held_state id held s)
  unfolding replay
  replay_reserve held a fresh = rw (apply_reserve caps kind hash raw id held s a fresh) refl

  -- What is replayed of a call that failed with a reservation in the journal.
  abbrev Fenced : List ReleaseEvent → Type 0
  Fenced events =
      (s' : ReleaseState) × (replay caps events s ≡ ok s')
      × ((b : Bool) → assert_ready caps b s' ≢ ok tt)

  Fenced-reserve :
      (held : ReleaseUsage)
      → Admitted caps kind hash raw s held
      → any (λ n. n == id) s.used ≡ false
      → Fenced (ReleaseEvent.reserve request ∷ [])
  Fenced-reserve held a fresh =
      (held_state id held s, replay_reserve held a fresh, held_not_ready held)

  within_safe :
      (actual held : ReleaseUsage)
      → within_caps (added s.total held) all_safe ≡ true
      → within_caps actual held ≡ true
      → within_caps (added s.total actual) all_safe ≡ true
  within_safe actual held h k = ground arith

  Fenced-settle :
      (m : Result ReleaseError ReleaseUsage) (used : RawUsage) (written : Bool)
      (held : ReleaseUsage)
      → Admitted caps kind hash raw s held
      → any (λ n. n == id) s.used ≡ false
      → (settle_call m used written request held
          (record s { pending = (id, held) ∷ s.pending })).result
        ≢ ok tt
      → Fenced
          (settle_call m used written request held
            (record s { pending = (id, held) ∷ s.pending })).events
  unfolding settle_call
  Fenced-settle (err x) used written held a fresh e = Fenced-reserve held a fresh
  Fenced-settle (ok actual) used written held a fresh e =
      elim (Bool-cases (breaks actual held || not written)) [
        | inl bad ↦ rw bad (Fenced-reserve held a fresh)
        | inr good ↦
            let safe = within_safe actual held a.safe (ground arith) in
            absurd (e (rw (good, safe) refl))
      ]

  -- A call with a new id that fails after its reservation went into the journal blocks every run that
  -- restarts on that journal: the replay succeeds, and the run is not ready, whether or not the history is reconciled.
  pub lost_call_blocks :
      any (λ n. n == id) s.used ≡ false
      → (execute caps reconciled kind hash raw id outcome s).result ≢ ok tt
      → (execute caps reconciled kind hash raw id outcome s).events ≢ []
      → (s' : ReleaseState) × (replay caps
            (execute caps reconciled kind hash raw id outcome s).events
            s
          ≡ ok s')
        × ((b : Bool) → assert_ready caps b s' ≢ ok tt)
  unfolding execute execute_admitted
  lost_call_blocks fresh = go (admit_call caps reconciled kind hash raw s) refl
    where
      by_outcome :
          (o : CallOutcome) (held : ReleaseUsage)
          → Admitted caps kind hash raw s held
          → (run_call o request held s).result ≢ ok tt
          → (run_call o request held s).events ≢ []
          → Fenced (run_call o request held s).events
      by_outcome reserve_not_written held a e some_event = absurd (some_event refl)
      by_outcome call_threw held a e some_event = Fenced-reserve held a fresh
      by_outcome (answered used written) held a e some_event =
          Fenced-settle (usage used) used written held a fresh e

      go :
          (m : Result ReleaseError ReleaseUsage)
          → admit_call caps reconciled kind hash raw s ≡ m
          → (execute_admitted m kind hash raw id outcome s).result ≢ ok tt
          → (execute_admitted m kind hash raw id outcome s).events ≢ []
          → Fenced (execute_admitted m kind hash raw id outcome s).events
      go (err x) f e some_event = absurd (some_event refl)
      go (ok held) f e some_event =
          by_outcome outcome held (admit_call-Admitted caps reconciled kind hash raw s held f) e
            some_event
