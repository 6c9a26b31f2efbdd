-- ===== src/Helper/States.antt =====
-- What states the helper of labztna/network_helper.py can be in.
use ztna_lab.Base.{
  pair_key, ℕ, ◌+◌, Bool, true, false, none, some, [], if◌then◌else◌, Result, ok, err, ◌≡◌, refl,
  arith, ◌⊎◌, inl, inr, Bool-cases, ap, sym, ◌∙◌, ◌>>=◌, >>=-eq-ok,
}
use ztna_lab.Json.{Json, Fields}
use ztna_lab.Auth.{Externals}
use ztna_lab.Addresses.{AddressLibrary}
use ztna_lab.Manifest.{
  ManifestError, ManifestVerifier, ManifestBinding, verify_envelope, require_manifest_binding,
}
use ztna_lab.Manifest.Binding.{IsBoundTo, require_manifest_binding-IsBoundTo}
use ztna_lab.Manifest.Verified
use ztna_lab.Manifest.Verified.{verify_envelope-IsVerified}
use ztna_lab.Routeplan.{RoutePlan}
use ztna_lab.Routeplan.Build.{PlanError, build_from}
use ztna_lab.Helper.{
  entry_key, NetworkState, NetworkChange, NetworkHelper, HelperError, target, is_applied, change,
  raised_manifest, raised_plan, verified_plan, new_helper, applied, apply, preview, no_change,
  delta, nothing, rollback, item_order, sorted_by, tuple_eq_refl,
}

-- Any calls that change the state.
pub data Step (x : Externals) (a : AddressLibrary) (h k : NetworkHelper) : Type 0 where
  applying : (now : ℕ) (envelope : Json) → (apply x a now envelope h).0 ≡ k → Step x a h k
  rolling_back : (rollback h).0 ≡ k → Step x a h k

pub data Reach (x : Externals) (a : AddressLibrary) (h : NetworkHelper)
    : NetworkHelper → Type 0 where
  here : Reach x a h h
  next : {k l : NetworkHelper} → Reach x a h k → Step x a k l → Reach x a h l

abbrev pub IsIdle : NetworkState → Type 0
IsIdle s = (s.virtual_ip ≡ none) × (s.routes ≡ []) × (s.fake_dns ≡ [])

-- The state is that of a plan which is built from a manifest: one that was verified at some time,
-- and that is bound to the helper's session and resource.
pub record IsVerified (x : Externals) (a : AddressLibrary) (v : ManifestVerifier)
    (b : ManifestBinding) (s : NetworkState) : Type 0 where
  pub now : ℕ
  pub envelope : Json
  pub manifest : Fields
  pub plan : RoutePlan
  pub verified : Verified.IsVerified x v now envelope manifest
  pub bound : IsBoundTo b manifest
  pub planned : build_from a manifest ≡ ok plan
  pub virtual_ip : s.virtual_ip ≡ some plan.virtual_ip
  pub routes : s.routes ≡ plan.routes
  pub fake_dns : s.fake_dns ≡ sorted_by item_order plan.fake_dns

pub record IsHelper (x : Externals) (a : AddressLibrary) (v : ManifestVerifier)
    (b : ManifestBinding) (h : NetworkHelper) : Type 0 where
  pub same_verifier : h.verifier ≡ v
  pub same_binding : h.binding ≡ b
  pub state_held : IsIdle h.state ⊎ IsVerified x a v b h.state

module _ (x : Externals) (a : AddressLibrary) (v : ManifestVerifier) (b : ManifestBinding) where
  verified_for :
      (now : ℕ) (envelope : Json) (h : NetworkHelper)
      → h.verifier ≡ v
      → h.binding ≡ b
      → verified_plan x a now envelope h ≡ verified_plan x a now envelope (new_helper v b)
  unfolding verified_plan
  verified_for now envelope h ev eb = rw (ev, eb) refl

  -- What the helper has checked of a plan.
  IsChecked : ℕ → Json → RoutePlan → Type 0
  IsChecked now envelope plan =
      (manifest : Fields) × Verified.IsVerified x v now envelope manifest
      × (require_manifest_binding manifest b ≡ ok tt)
      × (build_from a manifest ≡ ok plan)

  raised_manifest-eq-ok :
      (r : Result ManifestError Fields) (m : Fields) → raised_manifest r ≡ ok m → r ≡ ok m
  raised_manifest-eq-ok (ok n) m h = cc h
  raised_manifest-eq-ok (err e) m h = cc h

  raised_plan-eq-ok :
      (r : Result PlanError RoutePlan) (p : RoutePlan) → raised_plan r ≡ ok p → r ≡ ok p
  raised_plan-eq-ok (ok q) p h = cc h
  raised_plan-eq-ok (err e) p h = cc h

  verified_plan-IsChecked :
      (now : ℕ) (envelope : Json) (plan : RoutePlan)
      → verified_plan x a now envelope (new_helper v b) ≡ ok plan
      → IsChecked now envelope plan
  unfolding verified_plan IsChecked
  verified_plan-IsChecked now envelope plan h =
      let verified = verify_envelope x v now envelope in
      let (m, held, built) =
        >>=-eq-ok
          (raised_manifest
            (verified >>= λ manifest. require_manifest_binding manifest b >>= λ _. ok manifest))
          (λ manifest. raised_plan (build_from a manifest)) h in
      let (n, accepted, rest) =
        >>=-eq-ok verified (λ manifest. require_manifest_binding manifest b >>= λ _. ok manifest)
          (raised_manifest-eq-ok _ m held) in
      let (u, bound, same) = >>=-eq-ok (require_manifest_binding n b) (λ _. ok n) rest in
      let n_m : n ≡ m = cc same in
      (
        n,
        verify_envelope-IsVerified x v now envelope n accepted,
        bound,
        raised_plan-eq-ok (build_from a n) plan
            (ap (λ (k : Fields). raised_plan (build_from a k)) n_m ∙ built),
      )

  changed-held :
      (now : ℕ) (envelope : Json) (s : NetworkState) (plan : RoutePlan)
      → verified_plan x a now envelope (new_helper v b) ≡ ok plan
      → IsIdle s ⊎ IsVerified x a v b s
      → IsIdle (change s plan).after ⊎ IsVerified x a v b (change s plan).after
  unfolding change delta target IsChecked
  changed-held now envelope s plan e h = elim (Bool-cases (is_applied s plan)) [
    | inl same ↦ rw same h
    | inr other ↦
        let (manifest, verified, bound, planned) = verified_plan-IsChecked now envelope plan e in
        rw other (
          inr (record {
            now = now;
            envelope = envelope;
            manifest = manifest;
            plan = plan;
            verified = verified;
            bound = require_manifest_binding-IsBoundTo b manifest bound;
            planned = planned;
            virtual_ip = refl;
            routes = refl;
            fake_dns = refl;
          }))
  ]

  applied-IsHelper :
      (now : ℕ) (envelope : Json) (h : NetworkHelper) (r : Result HelperError RoutePlan)
      → verified_plan x a now envelope (new_helper v b) ≡ r
      → IsHelper x a v b h
      → IsHelper x a v b (applied h r).0
  applied-IsHelper now envelope h (err e) q w = w
  applied-IsHelper now envelope h (ok plan) q w = record {
    same_verifier = w.same_verifier;
    same_binding = w.same_binding;
    state_held = changed-held now envelope h.state plan q w.state_held;
  }

  apply-IsHelper :
      (now : ℕ) (envelope : Json) (h : NetworkHelper)
      → IsHelper x a v b h
      → IsHelper x a v b (apply x a now envelope h).0
  unfolding apply
  apply-IsHelper now envelope h w =
      applied-IsHelper now envelope h _
        (sym (verified_for now envelope h w.same_verifier w.same_binding)) w

  rollback-IsHelper : (h : NetworkHelper) → IsHelper x a v b h → IsHelper x a v b (rollback h).0
  unfolding rollback
  rollback-IsHelper h w =
      elim (Bool-cases (nothing h.state.virtual_ip h.state.routes h.state.fake_dns)) [
        | inl empty ↦ rw empty w
        | inr full ↦ rw full (record {
          same_verifier = w.same_verifier;
          same_binding = w.same_binding;
          state_held = inl (refl, refl, refl);
        })
      ]

  Step-IsHelper : (h k : NetworkHelper) → Step x a h k → IsHelper x a v b h → IsHelper x a v b k
  Step-IsHelper h k (applying now envelope e) w = rw (← e) (apply-IsHelper now envelope h w)
  Step-IsHelper h k (rolling_back e) w = rw (← e) (rollback-IsHelper h w)

  reached :
      (h : NetworkHelper) {k : NetworkHelper}
      → Reach x a h k
      → IsHelper x a v b h
      → IsHelper x a v b k
  reached h here w = w
  reached h (next r s) w = Step-IsHelper _ _ s (reached h r w)

  -- After any calls on a new helper, nothing is applied, or what is applied is the plan that is
  -- built from a manifest that was verified at some time, that names the session, the address, the
  -- device and the lease generation of the helper's binding, and that lists its resource.
  pub Reach-IsHelper : (k : NetworkHelper) → Reach x a (new_helper v b) k → IsHelper x a v b k
  Reach-IsHelper k r =
      reached (new_helper v b) r
        (record { same_verifier = refl; same_binding = refl; state_held = inl (refl, refl, refl) })

target-is_applied : (n : ℕ) (plan : RoutePlan) → is_applied (target n plan) plan ≡ true
unfolding is_applied target
target-is_applied n plan =
    ground (arith, tuple_eq_refl plan.routes, tuple_eq_refl (sorted_by item_order plan.fake_dns))

after-is_applied :
    (s t : NetworkState) (plan : RoutePlan) (b : Bool)
    → is_applied s plan ≡ b
    → is_applied t plan ≡ true
    → is_applied (if b then no_change s else delta s t).after plan ≡ true
unfolding delta
after-is_applied s t plan true e h = e
after-is_applied s t plan false e h = h

-- A plan asks for no change of the state that it leaves.
change-change :
    (s : NetworkState) (plan : RoutePlan)
    → change (change s plan).after plan ≡ no_change (change s plan).after
unfolding change
change-change s plan =
    let applied_then =
      after-is_applied s (target (s.generation + 1) plan) plan (is_applied s plan) refl
        (target-is_applied (s.generation + 1) plan) in
    ap
      (λ (c : Bool).
        if c
        then no_change (change s plan).after
        else delta (change s plan).after (target ((change s plan).after.generation + 1) plan))
      applied_then

applied-applied :
    (h : NetworkHelper) (r : Result HelperError RoutePlan) (c : NetworkChange)
    → (applied h r).1 ≡ ok c
    → applied (applied h r).0 r ≡ ((applied h r).0, ok (no_change (applied h r).0.state))
applied-applied h (err e) c done = cc done
applied-applied h (ok plan) c done =
    ap (λ (d : NetworkChange). (record h { state = d.after }, ok d)) (change-change h.state plan)

module _ (x : Externals) (a : AddressLibrary) (now : ℕ) (envelope : Json) where
  same_plan :
      (h : NetworkHelper) (r : Result HelperError RoutePlan)
      → verified_plan x a now envelope (applied h r).0 ≡ verified_plan x a now envelope h
  unfolding verified_plan
  same_plan h (err e) = refl
  same_plan h (ok plan) = refl

  preview-applied :
      (h : NetworkHelper) (r : Result HelperError RoutePlan)
      → (r >>= λ plan. ok (change h.state plan)) ≡ (applied h r).1
  preview-applied h (err e) = refl
  preview-applied h (ok plan) = refl

  -- `preview` gives what `apply` gives; and where `apply` succeeds, a second call on the same
  -- envelope at the same time succeeds, and changes nothing.
  pub preview-apply :
      (h : NetworkHelper)
      → (preview x a now envelope h ≡ (apply x a now envelope h).1)
        × ((c : NetworkChange)
            → (apply x a now envelope h).1 ≡ ok c
            → apply x a now envelope (apply x a now envelope h).0
              ≡ ((apply x a now envelope h).0, ok (no_change (apply x a now envelope h).0.state)))
  unfolding preview apply
  preview-apply h =
      let r = verified_plan x a now envelope h in
      (preview-applied h r, λ c done. rw (same_plan h r) (applied-applied h r c done))
