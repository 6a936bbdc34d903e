-- ===== src/Worker/Accounting.antt =====
-- What a cycle of the dispatcher in apps/worker/src/partition-runtime.ts counts.
use mathlib.Core.Path.{subst}
use tech_p.Base.{
  ℕ, ◌+◌, ◌≤◌, ◌≡◌, refl, ap, Bool, true, false, Option, none, some, List, [], ◌∷◌, map, arith,
  length, Num, safe_nat, Text, Result, ok, err, need, bind-eq-ok, ok_injective,
}
use tech_p.Collection.Model.{CollectionError, invalid_state, CollectionMode, Delivery}
use tech_p.Collection.Page.{CursorCodec}
use tech_p.Collection.Store.{Db}
use tech_p.Collection.Store.Leasing.{lease_duration}
use tech_p.Collection.Store.Outbox.{claim_deliveries, in_limit, picked, first_n, taken}
use tech_p.Worker.Dispatch.{
  Dispatcher, Handled, CycleResult, reckon, dispatch_by, dispatch_all, after_claims, dispatch_batch,
  Cycle,
}

length-first_n : (n : ℕ) (ds : List Delivery) → length (first_n n ds) ≤ n
unfolding first_n
length-first_n Prim.Native.Nat.zero ds = omega arith
length-first_n (Prim.Native.Nat.suc n) [] = omega arith
length-first_n (Prim.Native.Nat.suc n) (d ∷ ds) = let rest = length-first_n n ds in omega arith

length-picked :
    (lane : Option CollectionMode) (now n : ℕ) (db : Db) → length (picked lane now n db) ≤ n
unfolding picked
length-picked lane now n db = length-first_n n _

length-taken : (until : ℕ) (ds : List Delivery) → length (map (taken until) ds) ≡ length ds
length-taken until [] = refl
length-taken until (d ∷ ds) = let rest = length-taken until ds in omega arith

in_limit-le :
    (o : Option ℕ) (n : ℕ)
    → need {Err = CollectionError} (in_limit o) invalid_state ≡ ok n
    → n ≤ 100
in_limit-le none n e = absurd cc
in_limit-le (some m) n e = ground arith

claim_deliveries-le :
    (now : ℕ) (limit lease_ms : Num) (lane : Option CollectionMode) (db : Db) (ds : List Delivery)
    (db' : Db)
    → claim_deliveries now limit lease_ms lane db ≡ ok (ds, db')
    → length ds ≤ 100
unfolding claim_deliveries
claim_deliveries-le now limit lease_ms lane db ds db' e =
    let (n, admits, e1) = bind-eq-ok (need (in_limit (safe_nat limit)) invalid_state) _ e in
    let (lease, _, e2) = bind-eq-ok (need (lease_duration lease_ms) invalid_state) _ e1 in
    let most = in_limit-le (safe_nat limit) n admits in
    let same = length-taken (now + lease) (picked lane now n db) in
    let few = length-picked lane now n db in
    let here = ap (λ (x : List Delivery × Db). length x.0) (ok_injective e2) in omega arith

-- Of deliveries and what became of each: how many were processed, how many had no handler, and the ids and
-- messages of those that threw.
unfoldable pub processed_among : List (Delivery × Handled) → ℕ
processed_among [] = 0
processed_among ((d, Handled.processed) ∷ fs) = processed_among fs + 1
processed_among ((d, _) ∷ fs) = processed_among fs

unfoldable pub unhandled_among : List (Delivery × Handled) → ℕ
unhandled_among [] = 0
unhandled_among ((d, Handled.unhandled) ∷ fs) = unhandled_among fs + 1
unhandled_among ((d, _) ∷ fs) = unhandled_among fs

unfoldable pub thrown_among : List (Delivery × Handled) → List (ℕ × Text)
thrown_among [] = []
thrown_among ((d, Handled.threw message) ∷ fs) = (d.id, message) ∷ thrown_among fs
thrown_among ((d, _) ∷ fs) = thrown_among fs

among-sum :
    (fs : List (Delivery × Handled))
    → processed_among fs + length (thrown_among fs) + unhandled_among fs ≡ length fs
unfolding processed_among unhandled_among thrown_among
among-sum [] = refl
among-sum ((d, Handled.processed) ∷ fs) = let rest = among-sum fs in omega arith
among-sum ((d, Handled.unhandled) ∷ fs) = let rest = among-sum fs in omega arith
among-sum ((d, Handled.threw message) ∷ fs) = let rest = among-sum fs in omega arith

length-deliveries :
    (fs : List (Delivery × Handled)) → length (map (λ (f : Delivery × Handled). f.0) fs) ≡ length fs
length-deliveries [] = refl
length-deliveries (f ∷ fs) = let rest = length-deliveries fs in omega arith

abbrev result_or : CycleResult → Result CollectionError CycleResult → CycleResult
result_or r (err e) = r
result_or r (ok result) = result

abbrev is_ok : Result CollectionError CycleResult → Bool
is_ok (err e) = false
is_ok (ok result) = true

module _ (codec : CursorCodec) (o : Dispatcher) where
  -- Each delivery is dispatched in the tables that the one before it left.
  abbrev pub Dispatched : Option CollectionMode → List (Delivery × Handled) → Db → Db → Type 0
  Dispatched lane [] db end = db ≡ end
  Dispatched lane ((d, h) ∷ fs) db end =
      (db' : Db) × (dispatch_by codec o o.enqueue lane d db ≡ (h, db')) × Dispatched lane fs db' end

  -- What a cycle counts of what became of its deliveries.
  abbrev Counts : List (Delivery × Handled) → CycleResult → Type 0
  Counts fs result =
      (result.processed_count ≡ processed_among fs) × (result.failures ≡ thrown_among fs)

  reckon-Counts :
      (d : Delivery) (h : Handled) (fs : List (Delivery × Handled)) (result : CycleResult)
      → Counts fs result
      → Counts ((d, h) ∷ fs) (reckon d.id h result)
  unfolding reckon processed_among thrown_among
  reckon-Counts d Handled.processed fs result (p, f) = (ap (λ n. n + 1) p, f)
  reckon-Counts d Handled.unhandled fs result c = c
  reckon-Counts d (Handled.threw message) fs result (p, f) =
      (p, ap (λ (l : List (ℕ × Text)). (d.id, message) ∷ l) f)

  dispatch_all-Dispatched :
      (lane : Option CollectionMode) (ds : List Delivery) (db : Db)
      → (fs : List (Delivery × Handled)) × (map (λ (f : Delivery × Handled). f.0) fs ≡ ds)
        × Dispatched lane fs db (dispatch_all codec o lane ds db).1
        × Counts fs (dispatch_all codec o lane ds db).0
  unfolding dispatch_all processed_among thrown_among
  dispatch_all-Dispatched lane [] db = ([], refl, refl, (refl, refl))
  dispatch_all-Dispatched lane (d ∷ ds) db =
      let (handled, db') = dispatch_by codec o o.enqueue lane d db in
      let (fs, same, done, counts) = dispatch_all-Dispatched lane ds db' in
      (
        (d, handled) ∷ fs,
        ap (λ (l : List Delivery). d ∷ l) same,
        (db', refl, done),
        reckon-Counts d handled fs (dispatch_all codec o lane ds db').0 counts,
      )

  abbrev Batch : Option CollectionMode → List Delivery → Db → CycleResult → Db → Type 0
  Batch lane ds mid result end =
      (fs : List (Delivery × Handled)) × (map (λ (f : Delivery × Handled). f.0) fs ≡ ds)
      × Dispatched lane fs mid end
      × (result.claimed_count ≡ length ds)
      × (result.processed_count ≡ processed_among fs)
      × (result.failures ≡ thrown_among fs)

  after_claims-Batch :
      (lane : Option CollectionMode) (db end : Db) (result : CycleResult)
      (m : Result CollectionError (List Delivery × Db))
      → after_claims codec o lane db m ≡ (ok result, end)
      → (ds : List Delivery) × (mid : Db) × (m ≡ ok (ds, mid)) × Batch lane ds mid result end
  unfolding after_claims
  after_claims-Batch lane db end result (err e) h =
      let clash : false ≡ true = ap (λ (x : Cycle). is_ok x.0) h in absurd cc
  after_claims-Batch lane db end result (ok (ds, mid)) h =
      let (fs, same, done, (processes, throws)) = dispatch_all-Dispatched lane ds mid in
      (
        ds,
        mid,
        refl,
        subst (λ (x : Cycle). Batch lane ds mid (result_or result x.0) x.1) h
            (fs, same, done, refl, processes, throws),
      )

  -- A batch that returns is accounted for. Its deliveries are those claimed for it, at most a hundred, and each
  -- is dispatched, in their order, in the tables that the one before it left. It counts those that were
  -- claimed and those that were processed, and lists the id and the message of each that threw, in order; with
  -- those without a handler these are all.
  pub batch_is_accounted :
      (lane : Option CollectionMode) (now : ℕ) (db end : Db) (result : CycleResult)
      → dispatch_batch codec o lane now db ≡ (ok result, end)
      → (ds : List Delivery) × (mid : Db) × (fs : List (Delivery × Handled)) × (claim_deliveries now
            o.batch_limit o.lease_ms lane db
          ≡ ok (ds, mid))
        × (length ds ≤ 100)
        × (map (λ (f : Delivery × Handled). f.0) fs ≡ ds)
        × Dispatched lane fs mid end
        × (result.claimed_count ≡ length ds)
        × (result.processed_count ≡ processed_among fs)
        × (result.failures ≡ thrown_among fs)
        × (result.processed_count + length result.failures + unhandled_among fs
            ≡ result.claimed_count)
  unfolding dispatch_batch
  batch_is_accounted lane now db end result e =
      let (ds, mid, claims, (fs, same, done, claimed, processes, throws)) =
        after_claims-Batch lane db end result
          (claim_deliveries now o.batch_limit o.lease_ms lane db) e in
      let few = claim_deliveries-le now o.batch_limit o.lease_ms lane db ds mid claims in
      let sum = among-sum fs in
      let count = length-deliveries fs in
      let all_of = ap length same in
      let listed = ap length throws in
      (ds, mid, fs, claims, few, same, done, claimed, processes, throws, omega arith)
