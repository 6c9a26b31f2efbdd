-- ===== src/Routeplan/Build.antt =====
-- `build_route_plan` of labztna/routeplan.py.
pub mod Routes
pub mod Names
pub mod Plans
use ztna_lab.Base.{
  text_key, ℕ, Bool, false, not, ◌&&◌, ◌||◌, Option, none, some, List, [], ◌∷◌, ◌++◌, leb, ltb,
  ◌==◌, if◌then◌else◌, length, Text, codes, text_eq, Result, ok, err, ◌>>=◌, ◌>>?◌, or_raise,
}
use ztna_lab.Base.Dict
use ztna_lab.Base.Dict.{Dict}
use ztna_lab.Json.{
  Json, boolean, Items, no_item, item, Fields, no_field, field, as_text, is_int, as_fields, is_text,
  object_in, array_in, or_null,
}
use ztna_lab.Json
use ztna_lab.Auth.{is_some}
use ztna_lab.Addresses.{
  network_key, Network, IpAddress, ipv4, ipv6, IpNetwork, net4, net6, AddressLibrary, in_network,
  is_multicast, is_unspecified, covers_entire_ipv4,
}
use ztna_lab.Dnsmap.{canonical, has_forbidden}
use ztna_lab.Routeplan.{RouteEntry, RoutePlan}

-- One constructor for each `raise ManifestError`.
pub data PlanError : Type 0 where
  not_object unsupported_version not_split_tunnel missing_session ip_not_text : PlanError
  invalid_ip ip_outside_pool missing_resources invalid_resource invalid_resource_id : PlanError
  invalid_routes prefix_not_text invalid_prefix prefix_not_permitted : PlanError
  ambiguous_ownership full_tunnel invalid_dns_map invalid_dns_address : PlanError
  dns_outside_pool invalid_dns_name : PlanError

-- 100.64.0.0/24 and 198.18.0.0/24
abbrev pub lab_pool : Network
lab_pool = record { base = 1681915904; prefixlen = 24 }

abbrev pub fake_dns_pool : Network
fake_dns_pool = record { base = 3323068416; prefixlen = 24 }

-- The variables of the loop over the resources.
pub record Collected : Type 0 where
  pub routes : List RouteEntry
  pub route_networks : List Network
  pub owners : Dict Network Text

unfoldable pub is_permitted : Network → Bool
is_permitted n = not (n.prefixlen == 0 || is_unspecified n || is_multicast n)

unfoldable pub add_owned :
    Text → Text → Network → Option Text → Collected → Result PlanError Collected
add_owned resource_id hop n (some owner) c =
    if not (text_eq owner resource_id) then err ambiguous_ownership else ok c
add_owned resource_id hop n none c = ok (record {
  routes = c.routes ++ (record { prefix = n; resource_id = resource_id; next_hop = hop }) ∷ [];
  route_networks = c.route_networks ++ n ∷ [];
  owners = Dict.put n resource_id c.owners;
})

unfoldable pub add_network : Text → Text → IpNetwork → Collected → Result PlanError Collected
add_network resource_id hop net6 c = err prefix_not_permitted
add_network resource_id hop (net4 n) c =
    if not (is_permitted n)
    then err prefix_not_permitted
    else add_owned resource_id hop n (Dict.get n c.owners) c

unfoldable pub parse_prefix : AddressLibrary → Json → Result PlanError IpNetwork
parse_prefix a j = or_raise prefix_not_text (as_text (some j)) >>= λ prefix.
    or_raise invalid_prefix (a.ip_network prefix)

-- The loop over the prefixes.
unfoldable pub add_prefixes :
    AddressLibrary → Text → Text → Items → Collected → Result PlanError Collected
add_prefixes a resource_id hop no_item c = ok c
add_prefixes a resource_id hop (item j rest) c =
    (parse_prefix a j >>= λ n. add_network resource_id hop n c)
    >>= add_prefixes a resource_id hop rest

-- `resource.get("routes", [])`, where it is a list.
abbrev pub routes_in : Option Json → Option Items
routes_in none = some no_item
routes_in (some j) = array_in (some j)

abbrev pub short_id : Option Text → Option Text
short_id o = o >>? λ t. if leb 1 (length t) && leb (length t) 128 then some t else none

-- The id of a resource and its routes.
unfoldable pub parse_resource : Json → Result PlanError (Text × Items)
parse_resource j = or_raise invalid_resource (as_fields j) >>= λ resource.
    or_raise invalid_resource_id (short_id (as_text (Json.lookup (codes "id") resource))) >>= λ rid.
    or_raise invalid_routes (routes_in (Json.lookup (codes "routes") resource)) >>= λ raw_routes.
    ok (rid, raw_routes)

unfoldable pub add_parsed :
    AddressLibrary → Text → Text × Items → Collected → Result PlanError Collected
add_parsed a hop (resource_id, raw_routes) c = add_prefixes a resource_id hop raw_routes c

-- The loop over the resources.
unfoldable pub add_resources :
    AddressLibrary → Text → Items → Collected → Result PlanError Collected
add_resources a hop no_item c = ok c
add_resources a hop (item j rest) c =
    (parse_resource j >>= λ p. add_parsed a hop p c) >>= add_resources a hop rest

-- The fake names: the values are texts, each the text of an address of the pool.
unfoldable pub dns_texts : Fields → Result PlanError (Dict Text Text)
dns_texts no_field = ok []
dns_texts (field domain j rest) = or_raise invalid_dns_map (as_text (some j)) >>= λ value.
    dns_texts rest >>= λ d. ok ((domain, value) ∷ d)

unfoldable pub check_fake_ip : Option IpAddress → Result PlanError (Unit {0})
check_fake_ip none = err invalid_dns_address
check_fake_ip (some (ipv6 n)) = err dns_outside_pool
check_fake_ip (some (ipv4 n)) =
    if not (in_network n fake_dns_pool) then err dns_outside_pool else ok tt

unfoldable pub check_fake_ips : AddressLibrary → Dict Text Text → Result PlanError (Unit {0})
check_fake_ips a [] = ok tt
check_fake_ips a ((domain, value) ∷ d) =
    check_fake_ip (a.ip_address value) >>= λ _. check_fake_ips a d

-- Whether `canonical_domain` is fit for a new name.
unfoldable pub is_new_name : Text → Dict Text Text → Bool
is_new_name name d = not (
    text_eq name [] || (ltb 253 (length name) || (has_forbidden name || is_some (Dict.get name d))))

unfoldable pub normalize_dns :
    AddressLibrary → Dict Text Text → Dict Text Text → Result PlanError (Dict Text Text)
normalize_dns a [] normalized = ok normalized
normalize_dns a ((domain, value) ∷ d) normalized =
    let name = canonical a.lower domain in
    let rest = normalize_dns a d (Dict.put name value normalized) in
    if not (is_new_name name normalized) then err invalid_dns_name else rest

-- `manifest.get("dns", {})`, where it is a `dict`.
abbrev pub dns_in : Option Json → Option Fields
dns_in none = some no_field
dns_in (some j) = as_fields j

unfoldable pub raw_dns : Fields → Result PlanError (Dict Text Text)
raw_dns manifest =
    or_raise invalid_dns_map (dns_in (Json.lookup (codes "dns") manifest)) >>= dns_texts

unfoldable pub checked_dns : AddressLibrary → Dict Text Text → Result PlanError (Dict Text Text)
checked_dns a d = check_fake_ips a d >>= λ _. normalize_dns a d []

unfoldable pub plan_dns : AddressLibrary → Fields → Result PlanError (Dict Text Text)
plan_dns a manifest = raw_dns manifest >>= checked_dns a

-- The number of the virtual address, which is in the pool.
unfoldable pub plan_ip : Option IpAddress → Result PlanError ℕ
plan_ip none = err invalid_ip
plan_ip (some (ipv6 n)) = err ip_outside_pool
plan_ip (some (ipv4 n)) = if not (in_network n lab_pool) then err ip_outside_pool else ok n

abbrev pub nonempty : Option Items → Option Items
nonempty (some (item j rest)) = some (item j rest)
nonempty _ = none

abbrev pub no_routes : Collected
no_routes = record { routes = []; route_networks = []; owners = [] }

abbrev pub no_tunnel : Collected → Result PlanError Collected
no_tunnel c = if not (not (covers_entire_ipv4 c.route_networks)) then err full_tunnel else ok c

unfoldable pub plan_resources : Fields → Result PlanError Items
plan_resources manifest =
    or_raise missing_resources (nonempty (array_in (Json.lookup (codes "resources") manifest)))

unfoldable pub plan_routes : AddressLibrary → Text → Fields → Result PlanError Collected
plan_routes a hop manifest =
    plan_resources manifest >>= λ raw. add_resources a hop raw no_routes >>= no_tunnel

abbrev pub is_true_value : Option Json → Bool
is_true_value (some (boolean b)) = b
is_true_value _ = false

-- The manifest's checks up to the text of the virtual address.
unfoldable pub plan_session : Fields → Result PlanError Text
plan_session manifest =
    if not (is_int 1 (Json.lookup (codes "version") manifest))
    then err unsupported_version
    else if not (
        is_true_value (Json.lookup (codes "split_tunnel") manifest)
        && is_text (codes "client-memory-only") (Json.lookup (codes "route_installation") manifest))
    then err not_split_tunnel
    else or_raise missing_session (object_in (Json.lookup (codes "session") manifest))
      >>= λ session. or_raise ip_not_text (as_text (Json.lookup (codes "virtual_ip") session))

abbrev pub plan_of : Fields → ℕ → Collected → Dict Text Text → RoutePlan
plan_of manifest virtual_ip c d = record {
  version = or_null (Json.lookup (codes "version") manifest);
  virtual_ip = virtual_ip;
  routes = c.routes;
  fake_dns = d;
}

abbrev pub plan_with : AddressLibrary → Fields → ℕ → Collected → Result PlanError RoutePlan
plan_with a manifest virtual_ip c =
    plan_dns a manifest >>= λ d. ok (plan_of manifest virtual_ip c d)

abbrev pub plan_at : AddressLibrary → Fields → Text → ℕ → Result PlanError RoutePlan
plan_at a manifest hop virtual_ip = plan_routes a hop manifest >>= plan_with a manifest virtual_ip

abbrev pub plan_from : AddressLibrary → Fields → Text → Result PlanError RoutePlan
plan_from a manifest hop = plan_ip (a.ip_address hop) >>= plan_at a manifest hop

-- `build_route_plan`, on a `dict` and on any value.
unfoldable pub build_from : AddressLibrary → Fields → Result PlanError RoutePlan
build_from a manifest = plan_session manifest >>= plan_from a manifest

unfoldable pub build_route_plan : AddressLibrary → Json → Result PlanError RoutePlan
unfolding build_from
build_route_plan a j = or_raise not_object (as_fields j) >>= build_from a
