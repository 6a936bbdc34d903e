-- ===== src/Collection/Page.antt =====
-- Windows, page cursors and page results: validateCollectionWindow, encodePageCursor, decodePageCursor
-- and validatePageResult of packages/domain/src/collection-state.ts.
use tech_p.Base.{
  ℕ, ◌≡◌, Bool, true, false, not, ◌&&◌, ◌||◌, Option, none, some, Date, at, invalid, Text, eq_text,
  length, all, if◌then◌else◌, Result, ok, err, ◌>>=◌, ◌>>◌, throw_if, need, [], ◌∷◌, leb, ltb, ◌==◌,
  safe_nat, is_some,
}
use tech_p.Collection.Model.{
  CollectionError, invalid_window, invalid_cursor, invalid_page, CollectionWindow, PartitionPlan,
  PageResult, PageDisposition, continue, complete, deferred, partial,
}

-- The end points of a window that is valid: two valid dates in order.
unfoldable pub valid_window : CollectionWindow → Option (ℕ × ℕ)
valid_window w = ordered w.from w.to
  where
    ordered : Date → Date → Option (ℕ × ℕ)
    ordered (at from) (at to) = if ltb from to then some (from, to) else none
    ordered _ _ = none

unfoldable pub validate_window : CollectionWindow → Result CollectionError (Unit {0})
unfolding valid_window
validate_window w = throw_if (not (is_some (valid_window w))) invalid_window

-- What the text of a cursor holds: the natural key of its partition, a version and a value.
pub record CursorBody : Type 0 where
  pub key : Text
  pub version : ℕ
  pub value : Text

-- JSON in base64url, and SHA-256 over the canonical JSON of a plan. `read` gives the body of a text that
-- parses to an object of three keys, a text, a number and a text.
pub record CursorCodec : Type 0 where
  pub write : CursorBody → Text
  pub read : Text → Option CursorBody
  pub plan_key : PartitionPlan → Text
  pub read-write : (b : CursorBody) → read (write b) ≡ some b

module _ (codec : CursorCodec) where
  open codec use {write, read, plan_key}

  -- partitionNaturalKey
  unfoldable pub natural_key : PartitionPlan → Result CollectionError Text
  natural_key plan = do validate_window plan.window; ok (plan_key plan)

  unfoldable pub encode_page_cursor : PartitionPlan → ℕ → Text → Result CollectionError Text
  unfolding natural_key
  encode_page_cursor plan version value = do
    key ← natural_key plan
    ok (write (record { key = key; version = version; value = value }))

  -- A cursor that does not match its partition and version is rejected. Whatever goes wrong in the
  -- `try`, the window included, is reported as invalid_cursor.
  unfoldable pub check_body : PartitionPlan → ℕ → CursorBody → Result CollectionError Text
  check_body plan version b =
      if is_some (valid_window plan.window) && eq_text b.key (plan_key plan) && b.version == version
      then ok b.value
      else err invalid_cursor

  unfoldable pub decode_page_cursor :
      PartitionPlan → Option Text → ℕ → Result CollectionError (Option Text)
  unfolding check_body
  decode_page_cursor plan none version = ok none
  decode_page_cursor plan (some cursor) version = do
    body ← need (read cursor) invalid_cursor
    value ← check_body plan version body
    ok (some value)

-- `/^[a-z][a-z0-9_]{0,127}$/u`
abbrev pub is_reason_start : ℕ → Bool
is_reason_start c = leb b'a' c && leb c b'z'

abbrev pub is_reason_char : ℕ → Bool
is_reason_char c = is_reason_start c || (leb b'0' c && leb c b'9') || c == b'_'

unfoldable pub is_reason : Text → Bool
is_reason [] = false
is_reason (c ∷ cs) = is_reason_start c && all is_reason_char cs && leb (length cs) 127

-- A text that is there and is not empty.
abbrev pub is_truthy : Option Text → Bool
is_truthy none = false
is_truthy (some []) = false
is_truthy (some _) = true

abbrev pub same_cursor : Option Text → Option Text → Bool
same_cursor none none = true
same_cursor (some a) (some b) = eq_text a b
same_cursor _ _ = false

abbrev pub too_long : Option Text → Bool
too_long none = false
too_long (some s) = ltb 16384 (length s)

abbrev pub bad_retry : Option Date → Bool
bad_retry (some invalid) = true
bad_retry _ = false

abbrev pub bad_reason : Option Text → Bool
bad_reason none = false
bad_reason (some s) = not (is_reason s)

abbrev pub lacks_part : PageDisposition → Option Text → PageResult → Bool
lacks_part continue cursor r = not (is_truthy r.next_cursor) || same_cursor r.next_cursor cursor
lacks_part complete cursor r = false
lacks_part deferred cursor r = not (is_some r.retry_at)
lacks_part partial cursor r = not (is_truthy r.reason)

-- The counts of a valid result.
unfoldable pub validate_page_result : Option Text → PageResult → Result CollectionError (ℕ × ℕ)
validate_page_result cursor r = do
  throw_if (too_long r.next_cursor) invalid_cursor
  throw_if (bad_retry r.retry_at) invalid_page
  throw_if (bad_reason r.reason) invalid_page
  throw_if (lacks_part r.disposition cursor r) invalid_page
  requests ← need (safe_nat r.requests) invalid_page
  bytes ← need (safe_nat r.bytes) invalid_page
  ok (requests, bytes)
