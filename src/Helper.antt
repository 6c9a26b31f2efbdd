-- ===== src/Helper.antt =====
-- `DryRunNetworkHelper` of labztna/network_helper.py. A method is one step, since it holds the lock;
-- the clock of the manifest's verifier is an argument.
pub mod States
use ztna_lab.Base.{
  text_key, pair_key, ℕ, ◌+◌, Bool, true, false, not, ◌&&◌, ◌||◌, Option, none, some, List, [], ◌∷◌,
  ◌++◌, ltb, ◌==◌, if◌then◌else◌, contains, Text, text_eq, codes, Eq, ◌≡◌, ◌↔◌, refl, arith,
  text_eq_iff, Result, ok, err, ◌>>=◌,
}
use ztna_lab.Base.Dict.{Dict}
use ztna_lab.Json.{Json, Fields}
use ztna_lab.Auth.{Externals}
use ztna_lab.Addresses.{network_beq, network_beq_iff, Network, AddressLibrary}
use ztna_lab.Manifest.{
  ManifestError, ManifestVerifier, ManifestBinding, verify_envelope, require_manifest_binding,
}
use ztna_lab.Gateway.{dotted}
use ztna_lab.Gateway.Packets.{decimal}
use ztna_lab.Routeplan.{RouteEntry, RoutePlan}
use ztna_lab.Routeplan.Build.{PlanError, build_from}

pub record NetworkState : Type 0 where
  pub generation : ℕ
  pub virtual_ip : Option ℕ
  pub routes : List RouteEntry
  pub fake_dns : List (Text × Text)

pub record NetworkChange : Type 0 where
  pub before : NetworkState
  pub after : NetworkState
  pub added_routes : List RouteEntry
  pub removed_routes : List RouteEntry
  pub added_dns : List (Text × Text)
  pub removed_dns : List (Text × Text)

pub record NetworkHelper : Type 0 where
  pub verifier : ManifestVerifier
  pub binding : ManifestBinding
  pub state : NetworkState

pub data HelperError : Type 0 where
  manifest_error : ManifestError → HelperError
  plan_error : PlanError → HelperError

unfoldable pub entry_beq : RouteEntry → RouteEntry → Bool
entry_beq r s =
    network_beq r.prefix s.prefix
    && (text_eq r.resource_id s.resource_id && text_eq r.next_hop s.next_hop)

pub entry_beq_iff : (r s : RouteEntry) → (entry_beq r s ≡ true) ↔ (r ≡ s)
unfolding entry_beq
entry_beq_iff r s = ground (
  arith,
  network_beq_iff r.prefix s.prefix,
  text_eq_iff r.resource_id s.resource_id,
  text_eq_iff r.next_hop s.next_hop,
)

instance abbrev pub entry_key : Eq RouteEntry
entry_key = record { beq = entry_beq; beq_iff = entry_beq_iff }

-- Equality of tuples.
module _ {ℓ} {A : Type ℓ} ⦃e : Eq A⦄ where
  unfoldable pub tuple_eq : List A → List A → Bool
  tuple_eq [] [] = true
  tuple_eq (x ∷ xs) (y ∷ ys) = e.beq x y && tuple_eq xs ys
  tuple_eq _ _ = false

  pub tuple_eq_refl : (xs : List A) → tuple_eq xs xs ≡ true
  unfolding tuple_eq
  tuple_eq_refl [] = refl
  tuple_eq_refl (x ∷ xs) = ground (arith, e.beq_iff x x, tuple_eq_refl xs)

  -- `set(xs) - set(ys)`, in the order of the first list.
  unfoldable pub difference : List A → List A → List A
  difference [] ys = []
  difference (x ∷ xs) ys =
      let rest = difference xs ys in if contains x ys || contains x xs then rest else x ∷ rest

-- `s < t` for texts.
unfoldable pub text_lt : Text → Text → Bool
text_lt s [] = false
text_lt [] (c ∷ t) = true
text_lt (a ∷ s) (b ∷ t) = ltb a b || ((a == b) && text_lt s t)

unfoldable pub pair_lt : Text × Text → Text × Text → Bool
pair_lt p q = text_lt p.0 q.0 || (text_eq p.0 q.0 && text_lt p.1 q.1)

-- `sorted`, which is stable, by a key that is a pair of texts.
module _ {A : Type 0} (key : A → Text × Text) where
  unfoldable pub insert_by : A → List A → List A
  insert_by x [] = x ∷ []
  insert_by x (y ∷ ys) =
      let later = y ∷ insert_by x ys in if pair_lt (key y) (key x) then later else x ∷ y ∷ ys

  unfoldable pub sorted_by : List A → List A
  sorted_by [] = []
  sorted_by (x ∷ xs) = insert_by x (sorted_by xs)

-- The text of a network.
unfoldable pub network_text : Network → Text
network_text n = dotted n.base ++ (b'/' ∷ decimal n.prefixlen)

abbrev pub entry_order : RouteEntry → Text × Text
entry_order r = (network_text r.prefix, r.resource_id)

abbrev pub item_order : Text × Text → Text × Text
item_order p = p

-- `_delta`
unfoldable pub delta : NetworkState → NetworkState → NetworkChange
delta before after = record {
  before = before;
  after = after;
  added_routes = sorted_by entry_order (difference after.routes before.routes);
  removed_routes = sorted_by entry_order (difference before.routes after.routes);
  added_dns = sorted_by item_order (difference after.fake_dns before.fake_dns);
  removed_dns = sorted_by item_order (difference before.fake_dns after.fake_dns);
}

abbrev pub no_change : NetworkState → NetworkChange
no_change s = record {
  before = s;
  after = s;
  added_routes = [];
  removed_routes = [];
  added_dns = [];
  removed_dns = [];
}

-- The state that a plan asks for.
unfoldable pub target : ℕ → RoutePlan → NetworkState
target generation plan = record {
  generation = generation;
  virtual_ip = some plan.virtual_ip;
  routes = plan.routes;
  fake_dns = sorted_by item_order plan.fake_dns;
}

abbrev pub has_ip : Option ℕ → ℕ → Bool
has_ip (some a) b = a == b
has_ip none b = false

unfoldable pub is_applied : NetworkState → RoutePlan → Bool
is_applied before plan =
    has_ip before.virtual_ip plan.virtual_ip
    && (tuple_eq before.routes plan.routes
        && tuple_eq before.fake_dns (sorted_by item_order plan.fake_dns))

-- `_change`
unfoldable pub change : NetworkState → RoutePlan → NetworkChange
change before plan =
    if is_applied before plan
    then no_change before
    else delta before (target (before.generation + 1) plan)

abbrev pub raised_manifest : {A : Type 0} → Result ManifestError A → Result HelperError A
raised_manifest (ok a) = ok a
raised_manifest (err e) = err (manifest_error e)

abbrev pub raised_plan : {A : Type 0} → Result PlanError A → Result HelperError A
raised_plan (ok a) = ok a
raised_plan (err e) = err (plan_error e)

-- `_verified_plan`
unfoldable pub verified_plan :
    Externals → AddressLibrary → ℕ → Json → NetworkHelper → Result HelperError RoutePlan
verified_plan x a now envelope h =
    raised_manifest (
      verify_envelope x h.verifier now envelope >>= λ manifest.
      require_manifest_binding manifest h.binding >>= λ _. ok manifest)
    >>= λ manifest. raised_plan (build_from a manifest)

abbrev pub new_helper : ManifestVerifier → ManifestBinding → NetworkHelper
new_helper v b = record {
  verifier = v;
  binding = b;
  state = record { generation = 0; virtual_ip = none; routes = []; fake_dns = [] };
}

-- `preview`
unfoldable pub preview :
    Externals → AddressLibrary → ℕ → Json → NetworkHelper → Result HelperError NetworkChange
preview x a now envelope h = verified_plan x a now envelope h >>= λ plan. ok (change h.state plan)

abbrev pub applied :
    NetworkHelper → Result HelperError RoutePlan → NetworkHelper × Result HelperError NetworkChange
applied h (err e) = (h, err e)
applied h (ok plan) = let c = change h.state plan in (record h { state = c.after }, ok c)

-- `apply`
unfoldable pub apply :
    Externals
    → AddressLibrary
    → ℕ
    → Json
    → NetworkHelper
    → NetworkHelper × Result HelperError NetworkChange
apply x a now envelope h = applied h (verified_plan x a now envelope h)

-- Nothing is applied.
abbrev pub nothing : Option ℕ → List RouteEntry → List (Text × Text) → Bool
nothing none [] [] = true
nothing _ _ _ = false

-- `rollback`
unfoldable pub rollback : NetworkHelper → NetworkHelper × NetworkChange
rollback h =
    let before = h.state in
    let after : NetworkState = record {
      generation = before.generation + 1;
      virtual_ip = none;
      routes = [];
      fake_dns = [];
    } in
    if nothing before.virtual_ip before.routes before.fake_dns
    then (h, no_change before)
    else (record h { state = after }, delta before after)
