-- ===== src/Policy/Resources.antt =====
-- The validation of `ResourceDefinition` and `ResourceRegistry` of labztna/policy.py.
use ztna_lab.Base.{
  text_key, ℕ, Bool, true, false, not, ◌&&◌, ◌||◌, Option, none, some, List, [], ◌∷◌, ◌++◌, leb,
  ltb, ◌==◌, if◌then◌else◌, length, Text, text_eq, Result, ok, err, ◌>>=◌,
}
use ztna_lab.Base.Dict
use ztna_lab.Addresses.{
  Network, IpNetwork, net4, net6, AddressLibrary, is_multicast, covers_entire_ipv4,
}
use ztna_lab.Dnsmap.{has_forbidden}
use ztna_lab.Netguard.{is_loopback, is_resource_id}
use ztna_lab.Policy.{ResourceDefinition, ResourceRegistry}

-- One constructor for each `raise`.
pub data ResourceError : Type 0 where
  not_loopback bad_port invalid_resource_id invalid_route route_not_permitted : ResourceError
  full_tunnel invalid_domain duplicate_id no_resource : ResourceError

-- The arguments of a definition, with the texts of its routes.
pub record RawResource : Type 0 where
  pub resource_id : Text
  pub host : Text
  pub port : ℕ
  pub domains : List Text
  pub routes : List Text
  pub actions : List Text

unfoldable pub checked_route : Option IpNetwork → Result ResourceError Network
checked_route none = err invalid_route
checked_route (some net6) = err route_not_permitted
checked_route (some (net4 n)) =
    if not (not (n.prefixlen == 0 || is_multicast n)) then err route_not_permitted else ok n

-- The loop over the routes: `parsed_routes`.
unfoldable pub parsed_routes : AddressLibrary → List Text → Result ResourceError (List Network)
parsed_routes a [] = ok []
parsed_routes a (route ∷ routes) =
    checked_route (a.ip_network route) >>= λ n. parsed_routes a routes >>= λ ns. ok (n ∷ ns)

unfoldable pub are_domains : List Text → Bool
are_domains [] = true
are_domains (domain ∷ domains) =
    not (text_eq domain [] || (ltb 253 (length domain) || has_forbidden domain))
    && are_domains domains

abbrev pub definition_of : RawResource → List Network → ResourceDefinition
definition_of r networks = record {
  resource_id = r.resource_id;
  host = r.host;
  port = r.port;
  domains = r.domains;
  routes = networks;
  actions = r.actions;
}

abbrev pub routed_definition : RawResource → List Network → Result ResourceError ResourceDefinition
routed_definition r networks =
    if not (not (covers_entire_ipv4 networks))
    then err full_tunnel
    else if not (are_domains r.domains)
    then err invalid_domain
    else ok (definition_of r networks)

-- `ResourceDefinition.__post_init__`
unfoldable pub define_resource :
    AddressLibrary → RawResource → Result ResourceError ResourceDefinition
define_resource a r =
    if not (is_loopback r.host)
    then err not_loopback
    else if not (leb 1 r.port && leb r.port 65535)
    then err bad_port
    else if not (is_resource_id r.resource_id)
    then err invalid_resource_id
    else parsed_routes a r.routes >>= routed_definition r

-- The loop of `ResourceRegistry.__init__`.
abbrev pub enter :
    ResourceDefinition
    → Option ResourceDefinition
    → ResourceRegistry
    → Result ResourceError ResourceRegistry
enter r (some other) table = err duplicate_id
enter r none table = ok (Dict.put r.resource_id r table)

unfoldable pub registered :
    List ResourceDefinition → ResourceRegistry → Result ResourceError ResourceRegistry
registered [] table = ok table
registered (r ∷ rs) table = enter r (Dict.get r.resource_id table) table >>= registered rs

unfoldable pub all_routes : List ResourceDefinition → List Network
all_routes [] = []
all_routes (r ∷ rs) = r.routes ++ all_routes rs

abbrev pub is_empty : ResourceRegistry → Bool
is_empty [] = true
is_empty (e ∷ table) = false

abbrev pub sealed :
    List ResourceDefinition → ResourceRegistry → Result ResourceError ResourceRegistry
sealed rs table =
    if not (not (is_empty table))
    then err no_resource
    else if not (not (covers_entire_ipv4 (all_routes rs)))
    then err full_tunnel
    else ok table

-- `ResourceRegistry.__init__`
unfoldable pub new_registry : List ResourceDefinition → Result ResourceError ResourceRegistry
new_registry rs = registered rs [] >>= sealed rs
