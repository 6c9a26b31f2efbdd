-- ===== src/Routeplan/Build/Plans.antt =====
-- What a plan that `build_route_plan` of labztna/routeplan.py makes has passed.
use ztna_lab.Base.{
  ℕ, ◌^◌, ◌<◌, true, false, not, map, Option, none, some, ◌≡◌, arith, All, Text, ok, ◌>>=◌,
  >>=-eq-ok, passed, or_raise,
}
use ztna_lab.Base.Dict.{DistinctKeys}
use ztna_lab.Json.{Json, Fields, as_fields}
use ztna_lab.Addresses.{
  network_key, IpAddress, ipv4, ipv6, AddressLibrary, in_network, has_route, covers_entire_ipv4,
}
use ztna_lab.Addresses.Covers.{covers_entire_ipv4-has_route}
use ztna_lab.Routeplan.{RoutePlan}
use ztna_lab.Routeplan.Build.{
  not_object, Collected, lab_pool, is_permitted, no_routes, add_resources, no_tunnel,
  plan_resources, plan_routes, plan_dns, plan_ip, plan_of, plan_with, plan_at, plan_from,
  plan_session, build_from, build_route_plan,
}
use ztna_lab.Routeplan.Build.Routes.{owned, prefix_of, IsCollected, add_resources-IsCollected}
use ztna_lab.Routeplan.Build.Names.{IsNames, plan_dns-IsNames}

pub record IsPlan (a : AddressLibrary) (plan : RoutePlan) : Type 0 where
  pub pooled : in_network plan.virtual_ip lab_pool ≡ true
  -- No network has two owners, or two routes.
  pub owned_once : DistinctKeys (map owned plan.routes)
  pub permitted : All (λ r. is_permitted r.prefix ≡ true) plan.routes
  -- Some address is in none of the networks.
  pub split : ¬ ((t : ℕ) → t < 2 ^ 32 → has_route t (map prefix_of plan.routes) ≡ true)
  pub names : IsNames a plan.fake_dns

plan_ip-pooled : (o : Option IpAddress) (n : ℕ) → plan_ip o ≡ ok n → in_network n lab_pool ≡ true
unfolding plan_ip
plan_ip-pooled none n h = cc h
plan_ip-pooled (some (ipv6 m)) n h = cc h
plan_ip-pooled (some (ipv4 m)) n h =
    let (inside, same) = passed (in_network m lab_pool) _ _ h in
    let e : m ≡ n = cc same in rw (← e) inside

no_tunnel-split :
    (c d : Collected) → no_tunnel c ≡ ok d → (c ≡ d) × (covers_entire_ipv4 c.route_networks ≡ false)
no_tunnel-split c d h =
    let (open_set, same) = passed (not (covers_entire_ipv4 c.route_networks)) _ _ h in
    (cc same, ground arith)

plan_routes-IsCollected :
    (a : AddressLibrary) (hop : Text) (manifest : Fields) (c : Collected)
    → plan_routes a hop manifest ≡ ok c
    → IsCollected c × (covers_entire_ipv4 c.route_networks ≡ false)
unfolding plan_routes
plan_routes-IsCollected a hop manifest c h =
    let (raw, _, rest) =
      >>=-eq-ok (plan_resources manifest) (λ raw. add_resources a hop raw no_routes >>= no_tunnel)
        h in
    let (d, added, checked) = >>=-eq-ok (add_resources a hop raw no_routes) no_tunnel rest in
    let (same, partial) = no_tunnel-split d c checked in
    rw (← same) (add_resources-IsCollected a hop raw d added, partial)

-- A plan that is built has its virtual address in the pool of the lab, and its routes are permitted
-- networks, each once and with one owner, which leave some address out; its names are well formed,
-- each once and with an address of the pool of fake addresses.
pub build_route_plan-IsPlan :
    (a : AddressLibrary) (manifest : Json) (plan : RoutePlan)
    → build_route_plan a manifest ≡ ok plan
    → IsPlan a plan
unfolding build_route_plan
build_route_plan-IsPlan a j plan h =
    let (m, _, h1) = >>=-eq-ok (or_raise not_object (as_fields j)) (build_from a) h in
    let (hop, _, h2) = >>=-eq-ok (plan_session m) (plan_from a m) h1 in
    let (ip, at, h3) = >>=-eq-ok (plan_ip (a.ip_address hop)) (plan_at a m hop) h2 in
    let (c, routed, h4) = >>=-eq-ok (plan_routes a hop m) (plan_with a m ip) h3 in
    let (d, named, same) = >>=-eq-ok (plan_dns a m) (λ d. ok (plan_of m ip c d)) h4 in
    let e : plan_of m ip c d ≡ plan = cc same in
    let (collected, partial) = plan_routes-IsCollected a hop m c routed in
    rw (← e) (record {
      pooled = plan_ip-pooled _ ip at;
      owned_once = rw (← collected.owners_are) collected.distinct;
      permitted = collected.permitted;
      split = λ all.
          let full =
            (covers_entire_ipv4-has_route c.route_networks).1
              (λ t lt. rw collected.networks_are (all t lt)) in
          cc (full, partial);
      names = plan_dns-IsNames a m d named;
    })
