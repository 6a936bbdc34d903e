-- ===== src/Service/Closed.antt =====
-- What a call of processChunk of packages/domain/src/embedding-service.ts leaves reserved in the ledger.
use mathlib.Core.Path.{subst}
use tech_p.Base.{
  ℕ, ◌≤◌, ◌≡◌, refl, sym, ◌∙◌, ap, true, false, Option, none, some, List, arith, ◌==◌, ==_iff,
  max_safe, Bool-cases, inl, inr, All, nat, at, Text, codes, Result, ok, err,
}
use tech_p.Budget.Ledger.{BudgetError, WorkState, Ledger, Reservation, reserve}
use tech_p.Budget.Ledger.Closing.{is_open, reserve-opens}
use tech_p.Budget.Ledger.Releasing.{Granted, reserve-Granted, reserve-safe}
use tech_p.Embedding.Items.{Hashing, Work, Component, EmbedDb, Claimed}
use tech_p.Embedding.Work.{begin_call, mark_failed, attempt_id, claim_or_read}
use tech_p.Calls.Checks.{CallError, token_units}
use tech_p.Service.Preflight.{
  ServiceOptions, ChunkInput, ChunkCall, ChunkOutcome, refused, lost, embedded, Approved, preflight,
}
use tech_p.Service.Chunk.{
  release_bound, refused_reply, after_provider, unsent, after_begin, after_reserve, reserve_units,
  by_state, after_claim, key_of, after_preflight, process_chunk,
}
use tech_p.Service.Opened.{
  Opens, same-Opens, mark_failed-ledger, put_in_doubt-closes, claim_or_read-Opens,
  begin_call-ledger,
}
use tech_p.Service.Unsent.{
  BoundDrawn, Unsent, NotBound, NotBound-Unsent, BoundDrawn-NotBound, claim_or_read-BoundDrawn,
  refused-Unsent,
}
use tech_p.Service.Settling.{
  released_or, release_bound-Opens, release_bound-closes, settle_tokens-closes, settle_tokens-Opens,
  charged_tokens-le,
}

module _ (hashing : Hashing) where
  refused_reply-db :
      (chunk : ChunkInput) (w : Work) (db : EmbedDb) (m : Result BudgetError EmbedDb)
      → released_or db m ≡ (refused_reply hashing chunk w db m).1
  unfolding refused_reply
  refused_reply-db chunk w db (ok db') = refl
  refused_reply-db chunk w db (err e) = refl

  unsent-db :
      (e : BudgetError) (db : EmbedDb) (m : Result BudgetError EmbedDb)
      → released_or db m ≡ (unsent hashing e db m).1
  unfolding unsent
  unsent-db e db (ok db') = refl
  unsent-db e db (err x) = refl

  -- Whatever the provider does, the reservation of a call that has begun is closed.
  after_provider-closes :
      (outcome : ChunkOutcome) (call : ChunkCall) (a : Approved) (w : Work) (r units : ℕ)
      (db : EmbedDb)
      → token_units (nat a.max_tokens) a.rate ≡ ok units
      → units ≤ max_safe
      → a.max_tokens ≤ max_safe
      → All (Unsent r) (mark_failed w.id w.epoch db).works
      → is_open r (after_provider hashing outcome call a w r db).1.ledger ≡ false
  unfolding after_provider
  after_provider-closes refused call a w r units db e su st unsent_works =
      let marked = mark_failed w.id w.epoch db in
      ap (λ (d : EmbedDb). is_open r d.ledger)
        (sym (refused_reply-db call.chunk w marked (release_bound r call.now marked)))
      ∙ release_bound-closes r call.now marked unsent_works
  after_provider-closes lost call a w r units db e su st unsent_works =
      (put_in_doubt-closes w r call.now db).0
  after_provider-closes (embedded vector model dimensions usage) call a w r units db e su st
        unsent_works =
      settle_tokens-closes hashing call a.rate w vector r units a.max_tokens db _ e su st
        (charged_tokens-le call a.max_tokens vector model dimensions usage)

  after_provider-Opens :
      (outcome : ChunkOutcome) (call : ChunkCall) (a : Approved) (w : Work) (r : ℕ) (db : EmbedDb)
      → Opens db (after_provider hashing outcome call a w r db).1
  unfolding after_provider
  after_provider-Opens refused call a w r db =
      let marked = mark_failed w.id w.epoch db in
      subst (Opens db) (refused_reply-db call.chunk w marked (release_bound r call.now marked))
        (λ n h.
          same-Opens db marked (mark_failed-ledger w.id w.epoch db) n
            (release_bound-Opens r call.now marked n h))
  after_provider-Opens lost call a w r db = (put_in_doubt-closes w r call.now db).1
  after_provider-Opens (embedded vector model dimensions usage) call a w r db =
      settle_tokens-Opens hashing call a.rate w vector r db _

  after_begin-Opens :
      (call : ChunkCall) (a : Approved) (w : Work) (r : ℕ) (db : EmbedDb)
      (m : Result BudgetError EmbedDb)
      → ((db' : EmbedDb) → m ≡ ok db' → db.ledger ≡ db'.ledger)
      → Opens db (after_begin hashing call a w r db m).1
  unfolding after_begin
  after_begin-Opens call a w r db (err e) same n h =
      subst (Opens db) (unsent-db e db (release_bound r call.now db))
        (release_bound-Opens r call.now db) n h
  after_begin-Opens call a w r db (ok db') same n h =
      same-Opens db db' (same db' refl) n (after_provider-Opens call.outcome call a w r db' n h)

  -- A reservation that was drawn for this call is closed, whether or not the call begins.
  after_begin-closes :
      (call : ChunkCall) (a : Approved) (w : Work) (r units : ℕ) (db : EmbedDb)
      (m : Result BudgetError EmbedDb)
      → begin_call hashing w.id w.epoch r call.now call.rights.at_call db ≡ m
      → token_units (nat a.max_tokens) a.rate ≡ ok units
      → units ≤ max_safe
      → a.max_tokens ≤ max_safe
      → All (NotBound r) db.works
      → is_open r (after_begin hashing call a w r db m).1.ledger ≡ false
  unfolding after_begin
  after_begin-closes call a w r units db (err x) h e su st free =
      ap (λ (d : EmbedDb). is_open r d.ledger) (sym (unsent-db x db (release_bound r call.now db)))
      ∙ release_bound-closes r call.now db (NotBound-Unsent r db.works free)
  after_begin-closes call a w r units db (ok db') h e su st free =
      after_provider-closes call.outcome call a w r units db' e su st
        (refused-Unsent hashing r w.id w.epoch call.now call.rights.at_call db db' h free)

  begun-Opens :
      (call : ChunkCall) (a : Approved) (w : Work) (r : ℕ) (db : EmbedDb)
      → Opens db
          (after_begin hashing call a w r db
            (begin_call hashing w.id w.epoch r call.now call.rights.at_call db)).1
  begun-Opens call a w r db =
      after_begin-Opens call a w r db _
        (λ db' e. begin_call-ledger hashing w.id w.epoch r call.now call.rights.at_call db db' e)

  after_reserve-Opens :
      (o : ServiceOptions) (call : ChunkCall) (a : Approved) (w : Work) (units : ℕ) (db : EmbedDb)
      (m : Result BudgetError (Reservation × Ledger))
      → reserve o.scope_id
          (attempt_id hashing w.id w.epoch)
          (codes "ingestion_embedding")
          (nat units)
          (nat a.max_tokens)
          (at call.now)
          db.ledger
        ≡ m
      → token_units (nat a.max_tokens) a.rate ≡ ok units
      → BoundDrawn db
      → Opens db (after_reserve hashing call a w db m).1
  unfolding after_reserve
  after_reserve-Opens o call a w units db (err e) h priced bound n open_now = open_now
  after_reserve-Opens o call a w units db (ok (r, ledger)) h priced bound n open_now =
      elim (reserve-Granted o.scope_id attempt lane (nat units) (nat a.max_tokens) (at call.now)
        db.ledger r ledger h) [
          | Granted.old same ↦ same-Opens db paid same n (begun-Opens call a w r.id paid n open_now)
          | Granted.fresh drawn _ ↦ elim (Bool-cases (n == r.id)) [
            | inl this ↦
                let closed = fresh_closed drawn in
                let mine : n ≡ r.id = (==_iff n r.id).0 this in
                let still : is_open r.id end.ledger ≡ true =
                  ap (λ k. is_open k end.ledger) (sym mine) ∙ open_now in
                cc
            | inr other ↦
                reserve-opens o.scope_id attempt lane (nat units) (nat a.max_tokens) (at call.now)
                  db.ledger r ledger h n (λ same. ground arith)
                  (begun-Opens call a w r.id paid n open_now)
          ]
        ]
    where
      attempt : Text
      attempt = attempt_id hashing w.id w.epoch

      lane : Text
      lane = codes "ingestion_embedding"

      paid : EmbedDb
      paid = record db { ledger = ledger }

      end : EmbedDb
      end =
          (after_begin hashing call a w r.id paid
            (begin_call hashing w.id w.epoch r.id call.now call.rights.at_call paid)).1

      fresh_closed : r.id ≡ db.ledger.next_id → is_open r.id end.ledger ≡ false
      fresh_closed drawn =
          let (su, st) =
            reserve-safe o.scope_id attempt lane units a.max_tokens (at call.now) db.ledger r ledger
              h in
          after_begin-closes call a w r.id units paid _ refl priced su st
            (subst (λ k. All (NotBound k) db.works) (sym drawn) (BoundDrawn-NotBound db bound))

  reserve_units-Opens :
      (o : ServiceOptions) (call : ChunkCall) (a : Approved) (w : Work) (db : EmbedDb)
      (m : Result CallError ℕ)
      → token_units (nat a.max_tokens) a.rate ≡ m
      → BoundDrawn db
      → Opens db (reserve_units hashing o call a w db m).1
  unfolding reserve_units
  reserve_units-Opens o call a w db (err e) priced bound n open_now = open_now
  reserve_units-Opens o call a w db (ok units) priced bound n open_now =
      after_reserve-Opens o call a w units db _ refl priced bound n open_now

  by_state-Opens :
      (st : WorkState) (o : ServiceOptions) (call : ChunkCall) (a : Approved) (w : Work)
      (vector : Option (List Component)) (db : EmbedDb)
      → BoundDrawn db
      → Opens db (by_state hashing st o call a w vector db).1
  unfolding by_state
  by_state-Opens WorkState.claimed o call a w vector db bound =
      reserve_units-Opens o call a w db _ refl bound
  by_state-Opens _ o call a w vector db bound = λ n open_now. open_now

  after_claim-Opens :
      (o : ServiceOptions) (call : ChunkCall) (a : Approved) (db : EmbedDb)
      (m : Result BudgetError (Option Claimed × EmbedDb))
      → claim_or_read hashing (key_of call) call.now a.lease call.rights.at_claim db ≡ m
      → BoundDrawn db
      → Opens db (after_claim hashing o call a db m).1
  unfolding after_claim
  after_claim-Opens o call a db (err e) h bound n open_now = open_now
  after_claim-Opens o call a db (ok (none, db')) h bound n open_now =
      claim_or_read-Opens hashing (key_of call) call.now a.lease call.rights.at_claim db none db' h
        n open_now
  after_claim-Opens o call a db (ok (some (w, vector), db')) h bound n open_now =
      claim_or_read-Opens hashing (key_of call) call.now a.lease call.rights.at_claim db
        (some (w, vector)) db' h n
        (by_state-Opens w.state o call a w vector db'
          (claim_or_read-BoundDrawn hashing (key_of call) call.now a.lease call.rights.at_claim db
            (some (w, vector)) db' h bound)
          n open_now)

  -- Processing a chunk leaves no reservation open that was not open before it, whatever the provider
  -- does, whatever it reports and wherever the call throws, in tables in which every work item is bound
  -- to a reservation that was drawn, if no other transaction comes in between.
  pub chunk_leaves_none_open :
      (o : ServiceOptions) (call : ChunkCall) (db : EmbedDb)
      → BoundDrawn db
      → (n : ℕ) → is_open n (process_chunk hashing o call db).1.ledger ≡ true
      → is_open n db.ledger ≡ true
  unfolding process_chunk
  chunk_leaves_none_open o call db bound = go (preflight o call.chunk call.profile)
    where
      go : (m : Result CallError Approved) → Opens db (after_preflight hashing o call db m).1
      go (err e) n open_now = open_now
      go (ok a) n open_now = after_claim-Opens o call a db _ refl bound n open_now
