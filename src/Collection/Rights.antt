-- ===== src/Collection/Rights.antt =====
-- The rights of an item in `commitPage` of packages/database/src/collection-state.ts: the
-- policy of a target and what an item declares about itself.
use mathlib.Core.Path.{subst}
use tech_p.Base.{
  ◌≡◌, Bool, true, not, ◌&&◌, Bool-cases, inl, inr, Option, none, some, arith, Text, ok, throw_if,
  throw_if-eq-ok, bind-eq-ok, ok_injective,
}
use tech_p.Collection.Model.{
  TargetPolicy, policy_blocked, Meta, absent, null, flag, text, other, ItemRights, DeclaredRights,
  undeclared, declared, not_an_object,
}
use tech_p.Collection.Policy.{
  Narrower, narrow, narrow_all, apply_license, relicense, item_rights, eq_license,
}

narrow_sound : (held : Bool) (m : Meta) (b : Bool) → narrow held m ≡ ok b → b ≡ true → held ≡ true
unfolding narrow
narrow_sound held absent b e h = ground (arith, ok_injective e)
narrow_sound held (flag f) b e h = let same : (held && f) ≡ b = ok_injective e in ground arith
narrow_sound held null b e h = cc
narrow_sound held (text s) b e h = cc
narrow_sound held other b e h = cc

pub Narrower-refl : (p : TargetPolicy) → Narrower p p
Narrower-refl p = ground arith

Narrower-trans : (p q r : TargetPolicy) → Narrower p q → Narrower q r → Narrower p r
Narrower-trans p q r a b = record {
  approved = λ h. b.approved (a.approved h);
  fetch = λ h. b.fetch (a.fetch h);
  store = λ h. b.store (a.store h);
  embed = λ h. b.embed (a.embed h);
  model_input = λ h. b.model_input (a.model_input h);
  display_excerpt = λ h. b.display_excerpt (a.display_excerpt h);
  verbatim_only = λ h. a.verbatim_only (b.verbatim_only h);
}

relicense-Narrower : (l : Option Text) (p : TargetPolicy) → Narrower (relicense l p) p
relicense-Narrower l p = elim (Bool-cases (eq_license l p.license_id)) [
  | inl same ↦ rw same (Narrower-refl p)
  | inr own ↦ rw own (record {
    approved = λ h. h;
    fetch = λ h. h;
    store = λ h. h;
    embed = λ h. cc;
    model_input = λ h. cc;
    display_excerpt = λ h. cc;
    verbatim_only = λ h. h;
  })
]

apply_license-Narrower : (m : Meta) (p q : TargetPolicy) → apply_license m p ≡ ok q → Narrower q p
unfolding apply_license
apply_license-Narrower absent p q e = subst (λ x. Narrower x p) (ok_injective e) (Narrower-refl p)
apply_license-Narrower null p q e =
    subst (λ x. Narrower x p) (ok_injective e) (relicense-Narrower none p)
apply_license-Narrower (text id) p q e =
    subst (λ x. Narrower x p) (ok_injective e) (relicense-Narrower (some id) p)
apply_license-Narrower (flag b) p q e = cc
apply_license-Narrower other p q e = cc

narrow_all-Narrower : (r : ItemRights) (p q : TargetPolicy) → narrow_all r p ≡ ok q → Narrower q p
unfolding narrow_all
narrow_all-Narrower r p q e =
    let (approved, a1, e1) = bind-eq-ok (narrow p.approved r.approved) _ e in
    let (fetch, a2, e2) = bind-eq-ok (narrow p.fetch r.fetch) _ e1 in
    let (store, a3, e3) = bind-eq-ok (narrow p.store r.store) _ e2 in
    let (embed, a4, e4) = bind-eq-ok (narrow p.embed r.embed) _ e3 in
    let (model_input, a5, e5) = bind-eq-ok (narrow p.model_input r.model_input) _ e4 in
    let (display_excerpt, a6, e6) = bind-eq-ok (narrow p.display_excerpt r.display_excerpt) _ e5 in
    subst (λ x. Narrower x p) (ok_injective e6)
      (record {
        approved = narrow_sound p.approved r.approved approved a1;
        fetch = narrow_sound p.fetch r.fetch fetch a2;
        store = narrow_sound p.store r.store store a3;
        embed = narrow_sound p.embed r.embed embed a4;
        model_input = narrow_sound p.model_input r.model_input model_input a5;
        display_excerpt = narrow_sound p.display_excerpt r.display_excerpt display_excerpt a6;
        verbatim_only = λ h. ground arith;
      })

-- The rights that are found for an item allow no more than its target's policy, whatever the item declares,
-- and approve it, its fetch and its storage.
pub item_rights_narrow :
    (d : DeclaredRights) (p q : TargetPolicy)
    → item_rights d p ≡ ok q
    → Narrower q p × (q.approved ≡ true) × (q.fetch ≡ true) × (q.store ≡ true)
unfolding item_rights
item_rights_narrow undeclared p q e =
    let (_, pass, e1) =
      bind-eq-ok (throw_if (not (p.approved && p.fetch && p.store)) policy_blocked) _ e in
    let open_rights = throw_if-eq-ok (not (p.approved && p.fetch && p.store)) policy_blocked pass in
    subst (λ x. Narrower x p × (x.approved ≡ true) × (x.fetch ≡ true) × (x.store ≡ true))
      (ok_injective e1) (Narrower-refl p, ground arith, ground arith, ground arith)
item_rights_narrow not_an_object p q e = cc
item_rights_narrow (declared r) p q e =
    let (n, first, e1) = bind-eq-ok (narrow_all r p) _ e in
    let (l, second, e2) = bind-eq-ok (apply_license r.license_id n) _ e1 in
    let (_, pass, e3) =
      bind-eq-ok (throw_if (not (l.approved && l.fetch && l.store)) policy_blocked) _ e2 in
    let open_rights = throw_if-eq-ok (not (l.approved && l.fetch && l.store)) policy_blocked pass in
    subst (λ x. Narrower x p × (x.approved ≡ true) × (x.fetch ≡ true) × (x.store ≡ true))
      (ok_injective e3)
      (
        Narrower-trans l n p (apply_license-Narrower r.license_id n l second)
            (narrow_all-Narrower r p n first),
        ground arith,
        ground arith,
        ground arith,
      )
