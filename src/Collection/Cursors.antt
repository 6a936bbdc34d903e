-- ===== src/Collection/Cursors.antt =====
-- The page cursors of packages/domain/src/collection-state.ts: encodePageCursor and decodePageCursor.
use tech_p.Base.{
  ℕ, ◌≡◌, sym, ◌∙◌, ap, Bool, true, not, ◌&&◌, Option, some, Bool-cases, inl, inr, arith, Text,
  eq_text, eq_text_refl, eq_text_sound, is_some, ◌==◌, ok, err, throw_if, throw_if-eq-ok, need,
  bind-eq-ok, ok_injective, need-eq-ok,
}
use tech_p.Collection.Model.{invalid_window, invalid_cursor, PartitionPlan}
use tech_p.Collection.Page.{
  CursorCodec, CursorBody, valid_window, validate_window, natural_key, encode_page_cursor,
  decode_page_cursor, check_body,
}

some_injective : {b c : CursorBody} → some b ≡ some c → b ≡ c
some_injective h = cc

module _ (codec : CursorCodec) where
  natural_key-eq-ok :
      (plan : PartitionPlan) (key : Text)
      → natural_key codec plan ≡ ok key
      → (is_some (valid_window plan.window) ≡ true) × (codec.plan_key plan ≡ key)
  unfolding natural_key validate_window
  natural_key-eq-ok plan key e =
      let (_, pass, e1) =
        bind-eq-ok (throw_if (not (is_some (valid_window plan.window))) invalid_window) _ e in
      let shut = throw_if-eq-ok (not (is_some (valid_window plan.window))) invalid_window pass in
      (ground arith, ok_injective e1)

  -- What `check_body` tests.
  abbrev agrees : PartitionPlan → ℕ → CursorBody → Bool
  agrees plan version b =
      is_some (valid_window plan.window)
      && eq_text b.key (codec.plan_key plan)
      && b.version == version

  check_body-eq-ok :
      (plan : PartitionPlan) (version : ℕ) (b : CursorBody) (v : Text)
      → check_body codec plan version b ≡ ok v
      → (b.key ≡ codec.plan_key plan) × (b.version ≡ version) × (b.value ≡ v)
  unfolding check_body
  check_body-eq-ok plan version b v h = elim (Bool-cases (agrees plan version b)) [
    | inl fits ↦ (
      eq_text_sound b.key (codec.plan_key plan) (ground arith),
      ground arith,
      ok_injective (rw fits at h),
    )
    | inr differs ↦ let no_value : err invalid_cursor ≡ ok v = rw differs at h in cc
  ]

  -- A cursor that is written for a partition and a version reads back as the value it was written
  -- with.
  pub decode_encode :
      (plan : PartitionPlan) (version : ℕ) (value cursor : Text)
      → encode_page_cursor codec plan version value ≡ ok cursor
      → decode_page_cursor codec plan (some cursor) version ≡ ok (some value)
  unfolding encode_page_cursor decode_page_cursor check_body
  decode_encode plan version value cursor e =
      let (key, keyed, e1) = bind-eq-ok (natural_key codec plan) _ e in
      let (valid, same) = natural_key-eq-ok plan key keyed in
      let body : CursorBody = record { key = key; version = version; value = value } in
      let read_back : codec.read cursor ≡ some body =
        ap codec.read (sym (ok_injective e1)) ∙ codec.read-write body in
      let matches : eq_text key (codec.plan_key plan) ≡ true = rw same (eq_text_refl key) in
      rw read_back (rw valid (rw matches (ground arith)))

  -- If a cursor that was written for one plan and version is accepted for another, then the plans have
  -- the same key, the versions are the same, and the value that is read is the one that was written.
  pub encode_elsewhere :
      (plan other : PartitionPlan) (version written : ℕ) (value cursor : Text) (got : Option Text)
      → encode_page_cursor codec other written value ≡ ok cursor
      → decode_page_cursor codec plan (some cursor) version ≡ ok got
      → (codec.plan_key other ≡ codec.plan_key plan) × (written ≡ version) × (got ≡ some value)
  unfolding encode_page_cursor decode_page_cursor
  encode_elsewhere plan other version written value cursor got e d =
      let (key, keyed, e1) = bind-eq-ok (natural_key codec other) _ e in
      let (_, same) = natural_key-eq-ok other key keyed in
      let body : CursorBody = record { key = key; version = written; value = value } in
      let read_back : codec.read cursor ≡ some body =
        ap codec.read (sym (ok_injective e1)) ∙ codec.read-write body in
      let (b, found, d1) = bind-eq-ok (need (codec.read cursor) invalid_cursor) _ d in
      let (v, checked, d2) = bind-eq-ok (check_body codec plan version b) _ d1 in
      let this : b ≡ body =
        some_injective (sym (need-eq-ok (codec.read cursor) invalid_cursor found) ∙ read_back) in
      let (k, w, x) = check_body-eq-ok plan version b v checked in
      (
        same ∙ ap (λ (y : CursorBody). y.key) (sym this) ∙ k,
        ap (λ (y : CursorBody). y.version) (sym this) ∙ w,
        sym (ok_injective d2) ∙ ap some (sym x ∙ ap (λ (y : CursorBody). y.value) this),
      )
