-- ===== src/Dnsmap.antt =====
-- `FakeDNSMap` of labztna/dnsmap.py. An address is its number, as in the pool of sessions, and
-- `str.lower`, which reads the tables of Unicode, is an argument. A method is one step.
pub mod Names
use ztna_lab.Base.{
  text_key, nat_eq, ℕ, ◌-◌, ◌^◌, ◌%◌, Bool, true, false, not, ◌||◌, Option, none, some, List, [],
  ◌∷◌, ltb, ◌==◌, if◌then◌else◌, length, Text, text_eq, rstrip_by, Result, ok, err,
}
use ztna_lab.Base.Dict
use ztna_lab.Base.Dict.{Dict}
use ztna_lab.Ipam.{hosts}

pub data DnsError : Type 0 where
  strict_network bad_network invalid_domain dns_pool_exhausted : DnsError

pub record FakeDnsMap : Type 0 where
  pub addresses : List ℕ
  pub mapping : Dict Text ℕ

-- `__init__`, for the network that `ip_network` makes of its text with `strict=True`.
unfoldable pub init : ℕ → ℕ → Result DnsError FakeDnsMap
init base prefixlen =
    if not (base % 2 ^ (32 - prefixlen) == 0)
    then err strict_network
    else if ltb prefixlen 24 || ltb 30 prefixlen
    then err bad_network
    else ok (record { addresses = hosts base prefixlen; mapping = [] })

-- A blank, a slash, a backslash, a carriage return or a line feed.
unfoldable pub is_forbidden : ℕ → Bool
is_forbidden c = c == 32 || c == 47 || c == 92 || c == 13 || c == 10

unfoldable pub has_forbidden : Text → Bool
has_forbidden [] = false
has_forbidden (c ∷ t) = is_forbidden c || has_forbidden t

-- `domain.lower().rstrip(".")`
unfoldable pub canonical : (Text → Text) → Text → Text
canonical lower domain = rstrip_by (λ c. c == 46) (lower domain)

register_new : Text → List ℕ → FakeDnsMap → FakeDnsMap × Result DnsError ℕ
register_new domain [] m = (m, err dns_pool_exhausted)
register_new domain (address ∷ rest) m =
    (record { addresses = rest; mapping = Dict.put domain address m.mapping }, ok address)

register_found : Text → Option ℕ → FakeDnsMap → FakeDnsMap × Result DnsError ℕ
register_found domain (some address) m = (m, ok address)
register_found domain none m = register_new domain m.addresses m

register_checked : Text → Bool → FakeDnsMap → FakeDnsMap × Result DnsError ℕ
register_checked domain true m = (m, err invalid_domain)
register_checked domain false m = register_found domain (Dict.get domain m.mapping) m

unfoldable pub register : (Text → Text) → Text → FakeDnsMap → FakeDnsMap × Result DnsError ℕ
unfolding register_checked register_found register_new
register lower domain m =
    let name = canonical lower domain in
    register_checked name (text_eq name [] || ltb 253 (length name) || has_forbidden name) m

unfoldable pub resolve : (Text → Text) → Text → FakeDnsMap → Option ℕ
resolve lower domain m = Dict.get (canonical lower domain) m.mapping
