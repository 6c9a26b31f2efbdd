-- ===== src/Routeplan/Build/Routes.antt =====
-- The routes that `build_route_plan` of labztna/routeplan.py collects.
use ztna_lab.Base.{
  true, Option, none, some, List, [], ◌∷◌, ◌++◌, map, ◌≡◌, refl, ap, arith, All, All-append,
  Bool-cases, inl, inr, Text, text_eq, Result, ok, err, ◌>>=◌, Eq,
}
use ztna_lab.Base.Dict
use ztna_lab.Base.Dict.{Dict, DistinctKeys, DistinctKeys-put}
use ztna_lab.Json.{Items, no_item, item}
use ztna_lab.Addresses.{network_key, Network, IpNetwork, net4, net6, AddressLibrary}
use ztna_lab.Routeplan.{RouteEntry}
use ztna_lab.Routeplan.Build.{
  PlanError, Collected, no_routes, is_permitted, add_owned, add_network, parse_prefix, add_prefixes,
  parse_resource, add_parsed, add_resources,
}

abbrev pub owned : RouteEntry → Network × Text
owned r = (r.prefix, r.resource_id)

abbrev pub prefix_of : RouteEntry → Network
prefix_of r = r.prefix

-- The three variables of the loop agree: every route has its own permitted prefix.
pub record IsCollected (c : Collected) : Type 0 where
  pub owners_are : c.owners ≡ map owned c.routes
  pub networks_are : c.route_networks ≡ map prefix_of c.routes
  pub distinct : DistinctKeys c.owners
  pub permitted : All (λ r. is_permitted r.prefix ≡ true) c.routes

abbrev Keeps : Result PlanError Collected → Type 0
Keeps (ok c) = IsCollected c
Keeps (err e) = Unit

Keeps->>= :
    (m : Result PlanError Collected) (f : Collected → Result PlanError Collected)
    → Keeps m
    → ((c : Collected) → IsCollected c → Keeps (f c))
    → Keeps (m >>= f)
Keeps->>= (ok c) f h next = next c h
Keeps->>= (err e) f h next = tt

Keeps-any :
    {A : Type 0} (m : Result PlanError A) (f : A → Result PlanError Collected)
    → ((a : A) → Keeps (f a))
    → Keeps (m >>= f)
Keeps-any (ok a) f next = next a
Keeps-any (err e) f next = tt

put_new {ℓ κ} :
    {K : Type ℓ} {V : Type κ} ⦃e : Eq K⦄ (k : K) (v : V) (m : Dict K V)
    → Dict.get k m ≡ none
    → Dict.put k v m ≡ m ++ (k, v) ∷ []
unfolding Dict.get Dict.put
put_new k v [] h = refl
put_new ⦃e⦄ k v ((j, w) ∷ m) h = elim (Bool-cases (e.beq j k)) [
  | inl same ↦ ground (arith, same)
  | inr other ↦ ground (arith, put_new k v m)
]

map-snoc {ℓ κ} :
    {A : Type ℓ} {B : Type κ} (f : A → B) (xs : List A) (x : A)
    → map f (xs ++ x ∷ []) ≡ map f xs ++ f x ∷ []
map-snoc f [] x = refl
map-snoc f (y ∷ xs) x = ap (◌∷◌ (f y)) (map-snoc f xs x)

module _ (resource_id hop : Text) where
  add_owned-Keeps :
      (n : Network) (o : Option Text) (c : Collected)
      → is_permitted n ≡ true
      → Dict.get n c.owners ≡ o
      → IsCollected c
      → Keeps (add_owned resource_id hop n o c)
  unfolding add_owned
  add_owned-Keeps n (some owner) c p e h = elim (Bool-cases (text_eq owner resource_id)) [
    | inl same ↦ rw same h
    | inr other ↦ rw other tt
  ]
  add_owned-Keeps n none c p e h =
      let r : RouteEntry = record { prefix = n; resource_id = resource_id; next_hop = hop } in
      record {
        owners_are =
            rw (put_new n resource_id c.owners e, h.owners_are, map-snoc owned c.routes r) refl;
        networks_are = rw (h.networks_are, map-snoc prefix_of c.routes r) refl;
        distinct = DistinctKeys-put n resource_id c.owners h.distinct;
        permitted = All-append _ c.routes (r ∷ []) h.permitted (p, tt);
      }

  add_network-Keeps :
      (n : IpNetwork) (c : Collected) → IsCollected c → Keeps (add_network resource_id hop n c)
  unfolding add_network
  add_network-Keeps net6 c h = tt
  add_network-Keeps (net4 n) c h = elim (Bool-cases (is_permitted n)) [
    | inl p ↦ rw p (add_owned-Keeps n _ c p refl h)
    | inr no_p ↦ rw no_p tt
  ]

  add_prefixes-Keeps :
      (a : AddressLibrary) (items : Items) (c : Collected)
      → IsCollected c
      → Keeps (add_prefixes a resource_id hop items c)
  unfolding add_prefixes
  add_prefixes-Keeps a no_item c h = h
  add_prefixes-Keeps a (item j rest) c h =
      Keeps->>= (parse_prefix a j >>= λ n. add_network resource_id hop n c)
        (add_prefixes a resource_id hop rest)
        (Keeps-any (parse_prefix a j) (λ n. add_network resource_id hop n c)
          (λ n. add_network-Keeps n c h))
        (λ c' h'. add_prefixes-Keeps a rest c' h')

add_resources-Keeps :
    (a : AddressLibrary) (hop : Text) (items : Items) (c : Collected)
    → IsCollected c
    → Keeps (add_resources a hop items c)
unfolding add_resources add_parsed
add_resources-Keeps a hop no_item c h = h
add_resources-Keeps a hop (item j rest) c h =
    Keeps->>= (parse_resource j >>= λ p. add_parsed a hop p c) (add_resources a hop rest)
      (Keeps-any (parse_resource j) (λ p. add_parsed a hop p c)
        (λ p. add_prefixes-Keeps p.0 hop a p.1 c h))
      (λ c' h'. add_resources-Keeps a hop rest c' h')

kept : {r : Result PlanError Collected} {c : Collected} → Keeps r → r ≡ ok c → IsCollected c
kept {r} {c} k e = let k' : Keeps (ok c) = rw e at k in k'

pub add_resources-IsCollected :
    (a : AddressLibrary) (hop : Text) (items : Items) (c : Collected)
    → add_resources a hop items no_routes ≡ ok c
    → IsCollected c
add_resources-IsCollected a hop items c e =
    kept
      (add_resources-Keeps a hop items no_routes
        (record { owners_are = refl; networks_are = refl; distinct = tt; permitted = tt }))
      e
