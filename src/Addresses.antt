-- ===== src/Addresses.antt =====
-- IPv4 networks, as labztna/policy.py, labztna/routeplan.py and labztna/gateway.py use those of the
-- `ipaddress` library. Its parsers, and `str.lower` with the tables of Unicode, are the fields of
-- `AddressLibrary`, with `none` for a `ValueError`.
pub mod Covers
use ztna_lab.Base.{
  ℕ, zero, suc, ◌+◌, ◌-◌, ◌^◌, ◌/◌, Bool, true, false, not, ◌&&◌, ◌||◌, Option, List, [], ◌∷◌, leb,
  ltb, ◌==◌, if◌then◌else◌, Text, Eq, ◌≡◌, ◌↔◌, refl, arith,
}

-- An IPv4 network: its first address and the length of its prefix.
pub record Network : Type 0 where
  pub base : ℕ
  pub prefixlen : ℕ

unfoldable pub network_beq : Network → Network → Bool
network_beq m n = m.base == n.base && m.prefixlen == n.prefixlen

pub network_beq_iff : (m n : Network) → (network_beq m n ≡ true) ↔ (m ≡ n)
unfolding network_beq
network_beq_iff m n = ground arith

instance abbrev pub network_key : Eq Network
network_key = record { beq = network_beq; beq_iff = network_beq_iff }

pub data IpAddress : Type 0 where
  ipv4 : ℕ → IpAddress
  ipv6 : ℕ → IpAddress

pub data IpNetwork : Type 0 where
  net4 : Network → IpNetwork
  net6 : IpNetwork

pub record AddressLibrary : Type 0 where
  pub ip_address : Text → Option IpAddress
  -- With `strict=False`, which clears the bits after the prefix.
  pub ip_network : Text → Option IpNetwork
  pub lower : Text → Text

-- `address in network`
unfoldable pub in_network : ℕ → Network → Bool
in_network a n = a / 2 ^ (32 - n.prefixlen) == n.base / 2 ^ (32 - n.prefixlen)

-- An address that lies in one of the networks.
unfoldable pub has_route : ℕ → List Network → Bool
has_route a [] = false
has_route a (n ∷ networks) = in_network a n || has_route a networks

-- `network.broadcast_address`
unfoldable pub broadcast : Network → ℕ
broadcast n = n.base + 2 ^ (32 - n.prefixlen) - 1

-- `network.is_multicast`: the first and the last address are in 224.0.0.0/4.
unfoldable pub is_multicast : Network → Bool
unfolding broadcast
is_multicast n = n.base / 2 ^ 28 == 14 && broadcast n / 2 ^ 28 == 14

-- `network.is_unspecified`: the first and the last address are 0.0.0.0.
unfoldable pub is_unspecified : Network → Bool
unfolding broadcast
is_unspecified n = n.base == 0 && broadcast n == 0

-- A block of 2 ^ k addresses is number `q` of its size. A network that contains all of it, and a
-- network of it that is smaller.
unfoldable pub has_whole : ℕ → ℕ → List Network → Bool
has_whole k q [] = false
has_whole k q (n ∷ networks) =
    (leb k (32 - n.prefixlen) && q / 2 ^ (32 - n.prefixlen - k) == n.base / 2 ^ (32 - n.prefixlen))
    || has_whole k q networks

unfoldable pub has_part : ℕ → ℕ → List Network → Bool
has_part k q [] = false
has_part k q (n ∷ networks) =
    (ltb (32 - n.prefixlen) k && n.base / 2 ^ k == q) || has_part k q networks

-- Whether `collapse_addresses` of the networks, which merges halves and drops what is contained in
-- another, keeps a network with the block in it.
unfoldable pub collapses : ℕ → ℕ → List Network → Bool
collapses zero q networks = has_whole 0 q networks
collapses (suc k) q networks =
    let halves = collapses k (q + q) networks && collapses k (q + q + 1) networks in
    if has_whole (suc k) q networks
    then true
    else if has_part (suc k) q networks
    then halves
    else false

-- `covers_entire_ipv4`: the collapsed networks have one with a prefix of length 0.
unfoldable pub covers_entire_ipv4 : List Network → Bool
covers_entire_ipv4 networks = collapses 32 0 networks
