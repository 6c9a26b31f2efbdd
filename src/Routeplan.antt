-- ===== src/Routeplan.antt =====
-- labztna/routeplan.py: `RoutePlan` with its lookup, and `build_route_plan`. An IPv4 address or
-- network that the library has parsed and printed again is kept as its number, or its numbers.
pub mod Build
pub mod Lookup
use ztna_lab.Base.{ℕ, ltb, List, [], ◌∷◌, if◌then◌else◌, Option, none, some, Text, Bool}
use ztna_lab.Base.Dict.{Dict}
use ztna_lab.Json.{Json}
use ztna_lab.Addresses.{Network, IpAddress, ipv4, ipv6, in_network}

pub record RouteEntry : Type 0 where
  pub prefix : Network
  pub resource_id : Text
  pub next_hop : Text

-- The version is a value that is equal to 1.
pub record RoutePlan : Type 0 where
  pub version : Json
  pub virtual_ip : ℕ
  pub routes : List RouteEntry
  pub fake_dns : Dict Text Text

-- The loop of `lookup`.
unfoldable pub matches : ℕ → List RouteEntry → List RouteEntry
matches target [] = []
matches target (r ∷ routes) =
    let rest = matches target routes in if in_network target r.prefix then r ∷ rest else rest

-- `max(matches, key=...)`, from the best so far: of equal prefixes the first.
unfoldable pub longest : RouteEntry → List RouteEntry → RouteEntry
longest best [] = best
longest best (r ∷ routes) =
    longest (if ltb best.prefix.prefixlen r.prefix.prefixlen then r else best) routes

unfoldable pub longest_of : List RouteEntry → Option RouteEntry
longest_of [] = none
longest_of (r ∷ routes) = some (longest r routes)

-- `RoutePlan.lookup` on an address that is parsed; every route of a plan is an IPv4 network.
unfoldable pub lookup : IpAddress → RoutePlan → Option RouteEntry
lookup (ipv4 target) plan = longest_of (matches target plan.routes)
lookup (ipv6 target) plan = none
