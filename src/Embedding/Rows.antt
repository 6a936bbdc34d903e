-- ===== src/Embedding/Rows.antt =====
-- The table of work items of packages/database/src/embedding-work.ts: its ids and its work keys.
use mathlib.Core.Option
use tech_p.Base.{
  ℕ, ◌+◌, ◌<◌, ◌≡◌, refl, sym, ◌∙◌, ap, Bool, true, Option, none, some, List, [], ◌∷◌, ◌++◌, arith,
  find, any, ◌==◌, Text, eq_text, Bool-cases, Option-cases, inl, inr, if◌then◌else◌,
  find-update_where, find-append, find-append_old,
}
use tech_p.Embedding.Items.{Hashing, WorkKey, Work, EmbedDb, find_work, set_work}
use tech_p.Embedding.Work.{insert_work}

abbrev pub find_key : Text → List Work → Option Work
find_key k ws = find (λ w. eq_text w.work_key k) ws

-- A row that is found by its work key is the row of its id, and every id was drawn.
pub record IsSound (db : EmbedDb) : Type 0 where
  pub keyed :
      (k : Text) (w : Work) → find_key k db.works ≡ some w → find_work w.id db.works ≡ some w
  pub drawn : (id : ℕ) (w : Work) → find_work id db.works ≡ some w → id < db.next_work

find-last :
    (p : Work → Bool) (ws : List Work) (v w : Work)
    → find p ws ≡ none
    → find p (ws ++ v ∷ []) ≡ some w
    → (v ≡ w) × (p v ≡ true)
unfolding find
find-last p [] v w e f = elim (Bool-cases (p v)) [
  | inl hit ↦ let g : some v ≡ some w = rw hit at f in let same : v ≡ w = cc in (same, hit)
  | inr miss ↦ let g : none ≡ some w = rw miss at f in cc
]
find-last p (u ∷ us) v w e f = elim (Bool-cases (p u)) [
  | inl hit ↦ let g : some u ≡ none = rw hit at e in cc
  | inr miss ↦ find-last p us v w (rw miss at e) (rw miss at f)
]

-- A row with an id not drawn yet goes in at the end.
append-IsSound :
    (db : EmbedDb) (v : Work) (n : ℕ)
    → v.id ≡ db.next_work
    → db.next_work < n
    → IsSound db
    → IsSound (record db { works = db.works ++ v ∷ []; next_work = n })
append-IsSound db v n fresh more s = record { keyed = keyed; drawn = drawn }
  where
    absent : find_work v.id db.works ≡ none
    absent = elim (Option-cases (find_work v.id db.works)) [
      | inl no_row ↦ no_row
      | inr (w, e) ↦ let small = s.drawn v.id w e in ground arith
    ]

    at_end : find_work v.id (db.works ++ v ∷ []) ≡ some v
    at_end = find-append (λ w. w.id == v.id) db.works v absent (ground arith)

    keyed :
        (k : Text) (w : Work)
        → find_key k (db.works ++ v ∷ []) ≡ some w
        → find_work w.id (db.works ++ v ∷ []) ≡ some w
    keyed k w e = elim (Option-cases (find_key k db.works)) [
      | inl no_row ↦
          let (same, _) = find-last (λ u. eq_text u.work_key k) db.works v w no_row e in
          ap (λ (u : Work). find_work u.id (db.works ++ v ∷ [])) (sym same)
          ∙ (at_end ∙ ap some same)
      | inr (u, f) ↦
          let there = find-append_old (λ x. eq_text x.work_key k) db.works (v ∷ []) u f in
          let same : some u ≡ some w = sym there ∙ e in
          let this : u ≡ w = cc in
          find-append_old (λ x. x.id == w.id) db.works (v ∷ []) w (s.keyed k w (f ∙ ap some this))
    ]

    drawn : (id : ℕ) (w : Work) → find_work id (db.works ++ v ∷ []) ≡ some w → id < n
    drawn id w e = elim (Option-cases (find_work id db.works)) [
      | inl no_row ↦
          let (_, hit) = find-last (λ u. u.id == id) db.works v w no_row e in ground arith
      | inr (u, f) ↦ let small = s.drawn id u f in omega arith
    ]

pub insert_work-IsSound :
    (hashing : Hashing) (key : WorkKey) (db : EmbedDb)
    → IsSound db
    → IsSound (insert_work hashing key db)
unfolding insert_work
insert_work-IsSound hashing key db s =
    elim (Bool-cases (any (λ (w : Work). eq_text w.work_key (hashing.hash_key key)) db.works)) [
      | inl old ↦ rw old s
      | inr new ↦ rw new (append-IsSound db _ (db.next_work + 1) refl (omega arith) s)
    ]

change : ℕ → (Work → Work) → Work → Work
change id g w = if w.id == id then g w else w

-- An update that leaves both keys alone.
pub set_work-IsSound :
    (id : ℕ) (g : Work → Work) (db : EmbedDb)
    → ((w : Work) → (g w).id ≡ w.id)
    → ((w : Work) → (g w).work_key ≡ w.work_key)
    → IsSound db
    → IsSound (set_work id g db)
unfolding change
set_work-IsSound id g db same_id same_key s = record { keyed = keyed; drawn = drawn }
  where
    changed_id : (w : Work) → (change id g w).id ≡ w.id
    changed_id w = ground (arith, same_id w)

    by_id :
        (n : ℕ)
        → find_work n (set_work id g db).works ≡ Option.map (change id g) (find_work n db.works)
    by_id n =
        find-update_where (λ w. w.id == n) (λ w. w.id == id) g db.works
          (λ w. ap (λ k. k == n) (same_id w))

    by_name :
        (k : Text)
        → find_key k (set_work id g db).works ≡ Option.map (change id g) (find_key k db.works)
    by_name k =
        find-update_where (λ w. eq_text w.work_key k) (λ w. w.id == id) g db.works
          (λ w. ap (λ t. eq_text t k) (same_key w))

    keyed :
        (k : Text) (w : Work)
        → find_key k (set_work id g db).works ≡ some w
        → find_work w.id (set_work id g db).works ≡ some w
    keyed k w e = elim (Option-cases (find_key k db.works)) [
      | inl no_row ↦
          let no : none ≡ some w = sym (by_name k ∙ ap (Option.map (change id g)) no_row) ∙ e in cc
      | inr (u, f) ↦
          let both : some (change id g u) ≡ some w =
            sym (by_name k ∙ ap (Option.map (change id g)) f) ∙ e in
          let this : change id g u ≡ w = cc in
          let ids : w.id ≡ u.id = ap (λ (x : Work). x.id) (sym this) ∙ changed_id u in
          ap (λ n. find_work n (set_work id g db).works) ids
          ∙ (by_id u.id ∙ (ap (Option.map (change id g)) (s.keyed k u f) ∙ ap some this))
    ]

    drawn : (n : ℕ) (w : Work) → find_work n (set_work id g db).works ≡ some w → n < db.next_work
    drawn n w e = elim (Option-cases (find_work n db.works)) [
      | inl no_row ↦
          let no : none ≡ some w = sym (by_id n ∙ ap (Option.map (change id g)) no_row) ∙ e in cc
      | inr (u, f) ↦ s.drawn n u f
    ]
