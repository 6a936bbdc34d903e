-- ===== src/Service/Settling.antt =====
-- The settlement and the release of a reservation in packages/domain/src/embedding-service.ts.
use mathlib.Core.Path.{subst}
use tech_p.Base.{
  ℕ, ◌≤◌, ◌≡◌, refl, sym, ◌∙◌, ap, false, Option, none, some, List, arith, max_safe, Bool-cases,
  inl, inr, All, Num, nat, Text, Result, ok, err, ◌>>=◌,
}
use tech_p.Budget.Ledger.{BudgetError, Ledger, settle, release_unsent}
use tech_p.Budget.Ledger.Closing.{is_open, settle-closes, settle-refuses}
use tech_p.Budget.Ledger.Releasing.{after, release_unsent-opens, release_unsent-closes}
use tech_p.Embedding.Items.{Hashing, Work, Component, EmbedDb}
use tech_p.Embedding.Work.{complete_work}
use tech_p.Calls.Checks.{CallError, token_units}
use tech_p.Calls.Prices.{token_units-le}
use tech_p.Calls.Guarded.{Usage}
use tech_p.Service.Preflight.{ChunkInput, ChunkCall}
use tech_p.Service.Chunk.{
  bound_state, release_bound, charged_tokens, finish, settled, settle_units, settle_tokens,
}
use tech_p.Service.Opened.{
  Opens, same-Opens, mark_outcome_unknown-Opens, put_in_doubt-closes, complete_work-ledger,
}
use tech_p.Service.Unsent.{Unsent, bound_state-Unsent}

-- The database after a release: one that throws leaves it as it was.
abbrev pub released_or : EmbedDb → Result BudgetError EmbedDb → EmbedDb
released_or db (ok db') = db'
released_or db (err e) = db

release_bound-after :
    (r now : ℕ) (db : EmbedDb)
    → (released_or db (release_bound r now db)).ledger
      ≡ after db.ledger (release_unsent r (bound_state r db) now db.ledger)
unfolding release_bound
release_bound-after r now db = go (release_unsent r (bound_state r db) now db.ledger)
  where
    go :
        (m : Result BudgetError Ledger)
        → (released_or db (m >>= λ ledger. ok (record db { ledger = ledger }))).ledger
          ≡ after db.ledger m
    go (ok ledger) = refl
    go (err e) = refl

pub release_bound-Opens :
    (r now : ℕ) (db : EmbedDb) → Opens db (released_or db (release_bound r now db))
release_bound-Opens r now db n h =
    release_unsent-opens r (bound_state r db) now db.ledger n
      (ap (is_open n) (sym (release_bound-after r now db)) ∙ h)

pub release_bound-closes :
    (r now : ℕ) (db : EmbedDb)
    → All (Unsent r) db.works
    → is_open r (released_or db (release_bound r now db)).ledger ≡ false
release_bound-closes r now db h =
    ap (is_open r) (release_bound-after r now db)
    ∙ release_unsent-closes r (bound_state r db) now db.ledger (bound_state-Unsent r db h)

stays_closed :
    (r : ℕ) (db db' : EmbedDb)
    → is_open r db.ledger ≡ false
    → Opens db db'
    → is_open r db'.ledger ≡ false
stays_closed r db db' closed kept = elim (Bool-cases (is_open r db'.ledger)) [
  | inl open_now ↦ let before = kept r open_now in cc
  | inr shut ↦ shut
]

pub charged_tokens-le :
    (call : ChunkCall) (most : ℕ) (vector : List Component) (model : Text) (dimensions : Num)
    (usage : Usage) (t : ℕ)
    → charged_tokens call.profile most vector model dimensions usage ≡ some t
    → t ≤ most
unfolding charged_tokens
charged_tokens-le call most vector model dimensions usage t e = ground arith

module _ (hashing : Hashing) where
  finish-Opens :
      (chunk : ChunkInput) (w : Work) (vector : List Component) (now : ℕ) (db : EmbedDb)
      (m : Result BudgetError EmbedDb)
      → ((db' : EmbedDb) → m ≡ ok db' → db.ledger ≡ db'.ledger)
      → Opens db (finish hashing chunk w vector now db m).1
  unfolding finish
  finish-Opens chunk w vector now db (ok db') same = same-Opens db db' (same db' refl)
  finish-Opens chunk w vector now db (err e) same = mark_outcome_unknown-Opens w.id w.epoch now db

  paid-Opens :
      (call : ChunkCall) (w : Work) (vector : List Component) (paid : EmbedDb)
      → Opens paid
          (finish hashing call.chunk w vector call.now paid
            (complete_work hashing w.id w.epoch vector call.now call.rights.at_end paid)).1
  paid-Opens call w vector paid =
      finish-Opens call.chunk w vector call.now paid
        (complete_work hashing w.id w.epoch vector call.now call.rights.at_end paid)
        (λ db' e.
          complete_work-ledger hashing w.id w.epoch vector call.now call.rights.at_end paid db' e)

  settled-Opens :
      (call : ChunkCall) (w : Work) (vector : List Component) (r : ℕ) (units tokens : Num)
      (db : EmbedDb) (m : Result BudgetError Ledger)
      → settle r units tokens call.now db.ledger ≡ m
      → Opens db (settled hashing call w vector db m).1
  unfolding settled
  settled-Opens call w vector r units tokens db (err e) h n open_now = open_now
  settled-Opens call w vector r units tokens db (ok ledger) h n open_now =
      (settle-closes r units tokens call.now db.ledger ledger h).1 n
        (paid-Opens call w vector (record db { ledger = ledger }) n open_now)

  -- The settlement of a reservation, in amounts that are safe integers, closes it.
  settled-closes :
      (call : ChunkCall) (w : Work) (vector : List Component) (r u t : ℕ) (db : EmbedDb)
      (m : Result BudgetError Ledger)
      → settle r (nat u) (nat t) call.now db.ledger ≡ m
      → u ≤ max_safe
      → t ≤ max_safe
      → is_open r (settled hashing call w vector db m).1.ledger ≡ false
  unfolding settled
  settled-closes call w vector r u t db (err e) h su st =
      settle-refuses r u t (nat u) (nat t) call.now db.ledger e (ground arith) (ground arith) h
  settled-closes call w vector r u t db (ok ledger) h su st =
      let paid = record db { ledger = ledger } in
      let closed = (settle-closes r (nat u) (nat t) call.now db.ledger ledger h).0 in
      stays_closed r paid
        (finish hashing call.chunk w vector call.now paid
          (complete_work hashing w.id w.epoch vector call.now call.rights.at_end paid)).1
        closed (paid-Opens call w vector paid)

  -- The caps on what the provider reports keep the settlement below the reservation.
  pub settle_tokens-closes :
      (call : ChunkCall) (rate : Num) (w : Work) (vector : List Component) (r units most : ℕ)
      (db : EmbedDb) (o : Option ℕ)
      → token_units (nat most) rate ≡ ok units
      → units ≤ max_safe
      → most ≤ max_safe
      → ((t : ℕ) → o ≡ some t → t ≤ most)
      → is_open r (settle_tokens hashing call rate w r vector db o).1.ledger ≡ false
  unfolding settle_tokens settle_units
  settle_tokens-closes call rate w vector r units most db none e su st fits =
      (put_in_doubt-closes w r call.now db).0
  settle_tokens-closes call rate w vector r units most db (some t) e su st fits =
      let small = fits t refl in
      let (u, priced, less) = token_units-le t most rate units e small in
      subst (λ m. is_open r (settle_units hashing call w r vector t db m).1.ledger ≡ false)
        (sym priced) (settled-closes call w vector r u t db _ refl (omega arith) (omega arith))

  settle_units-Opens :
      (call : ChunkCall) (w : Work) (vector : List Component) (r t : ℕ) (db : EmbedDb)
      (m : Result CallError ℕ)
      → Opens db (settle_units hashing call w r vector t db m).1
  unfolding settle_units
  settle_units-Opens call w vector r t db (err e) n open_now = open_now
  settle_units-Opens call w vector r t db (ok u) n open_now =
      settled-Opens call w vector r (nat u) (nat t) db _ refl n open_now

  pub settle_tokens-Opens :
      (call : ChunkCall) (rate : Num) (w : Work) (vector : List Component) (r : ℕ) (db : EmbedDb)
      (o : Option ℕ)
      → Opens db (settle_tokens hashing call rate w r vector db o).1
  unfolding settle_tokens
  settle_tokens-Opens call rate w vector r db none n open_now =
      (put_in_doubt-closes w r call.now db).1 n open_now
  settle_tokens-Opens call rate w vector r db (some t) n open_now =
      settle_units-Opens call w vector r t db (token_units (nat t) rate) n open_now
