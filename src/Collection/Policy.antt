-- ===== src/Collection/Policy.antt =====
-- Who may be collected, and with what rights an item is kept: assertCollectableTarget of
-- packages/domain/src/collection-state.ts and the rights of `commitPage` in
-- packages/database/src/collection-state.ts.
use tech_p.Base.{
  ◌≡◌, Bool, true, false, not, ◌&&◌, ◌||◌, Option, none, some, Date, at, invalid, Text, eq_text,
  codes, if◌then◌else◌, Result, ok, err, ◌>>=◌, ◌>>◌, throw_if, [],
}
use tech_p.Collection.Model.{
  TargetPolicy, TargetRevision, CollectionError, policy_blocked, invalid_page, Meta, absent, null,
  flag, text, ItemRights, DeclaredRights, undeclared, declared, not_an_object, ItemUrl, not_text,
  unparsable, parsed,
}

abbrev pub is_reviewed : Option Date → Bool
is_reviewed none = false
is_reviewed (some (at ms)) = true
is_reviewed (some invalid) = false

unfoldable pub is_collectable : TargetRevision → Bool
is_collectable t =
    t.enabled
    && t.policy.approved
    && t.policy.fetch
    && t.policy.store
    && t.capability.can_collect
    && is_reviewed t.capability.reviewed_at

unfoldable pub assert_collectable : TargetRevision → Result CollectionError (Unit {0})
unfolding is_collectable
assert_collectable t = throw_if (not (is_collectable t)) policy_blocked

-- One permission: an item may narrow it, and may not widen it.
unfoldable pub narrow : Bool → Meta → Result CollectionError Bool
narrow held absent = ok held
narrow held (flag b) = ok (held && b)
narrow held _ = err invalid_page

abbrev pub is_true : Meta → Bool
is_true (flag b) = b
is_true _ = false

abbrev pub eq_license : Option Text → Option Text → Bool
eq_license none none = true
eq_license (some a) (some b) = eq_text a b
eq_license _ _ = false

-- A licence of its own takes away what only the target's licence allows.
abbrev pub relicense : Option Text → TargetPolicy → TargetPolicy
relicense license p = if eq_license license p.license_id then p else record p {
  license_id = license;
  embed = false;
  model_input = false;
  display_excerpt = false;
}

unfoldable pub apply_license : Meta → TargetPolicy → Result CollectionError TargetPolicy
apply_license absent p = ok p
apply_license null p = ok (relicense none p)
apply_license (text id) p = ok (relicense (some id) p)
apply_license _ p = err invalid_page

unfoldable pub narrow_all : ItemRights → TargetPolicy → Result CollectionError TargetPolicy
unfolding narrow
narrow_all r p = do
  approved ← narrow p.approved r.approved
  fetch ← narrow p.fetch r.fetch
  store ← narrow p.store r.store
  embed ← narrow p.embed r.embed
  model_input ← narrow p.model_input r.model_input
  display_excerpt ← narrow p.display_excerpt r.display_excerpt
  ok (record p {
    approved = approved;
    fetch = fetch;
    store = store;
    embed = embed;
    model_input = model_input;
    display_excerpt = display_excerpt;
    verbatim_only = is_true r.verbatim_only || p.verbatim_only;
  })

-- The rights that an item is stored with.
unfoldable pub item_rights : DeclaredRights → TargetPolicy → Result CollectionError TargetPolicy
unfolding narrow_all apply_license
item_rights undeclared p = do throw_if (not (p.approved && p.fetch && p.store)) policy_blocked; ok p
item_rights not_an_object p = err invalid_page
item_rights (declared r) p = do
  narrowed ← narrow_all r p
  rights ← apply_license r.license_id narrowed
  throw_if (not (rights.approved && rights.fetch && rights.store)) policy_blocked
  ok rights

-- The address of an item: http or https, with no credentials in it.
unfoldable pub check_url : ItemUrl → Result CollectionError (Unit {0})
check_url not_text = err invalid_page
check_url unparsable = err invalid_page
check_url (parsed protocol user password) =
    throw_if
      (not (eq_text protocol (codes "http:") || eq_text protocol (codes "https:"))
        || not (eq_text user [])
        || not (eq_text password []))
      invalid_page

-- `p` allows no more than `q`.
pub record Narrower (p q : TargetPolicy) : Type 0 where
  pub approved : p.approved ≡ true → q.approved ≡ true
  pub fetch : p.fetch ≡ true → q.fetch ≡ true
  pub store : p.store ≡ true → q.store ≡ true
  pub embed : p.embed ≡ true → q.embed ≡ true
  pub model_input : p.model_input ≡ true → q.model_input ≡ true
  pub display_excerpt : p.display_excerpt ≡ true → q.display_excerpt ≡ true
  pub verbatim_only : q.verbatim_only ≡ true → p.verbatim_only ≡ true
