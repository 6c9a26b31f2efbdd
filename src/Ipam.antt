-- ===== src/Ipam.antt =====
-- `VirtualIPPool` of labztna/ipam.py. An IPv4 address is its number; the code keeps some of them
-- as their dotted text, which stands for the same number.
pub mod Leases
use ztna_lab.Base.{
  text_key, nat_eq, ℕ, zero, suc, ◌+◌, ◌-◌, ◌^◌, ◌%◌, Bool, true, false, not, ◌||◌, Option, none,
  some, List, [], ◌∷◌, ◌++◌, ltb, ◌==◌, if◌then◌else◌, contains, Text, Result, ok, err,
}
use ztna_lab.Base.Dict
use ztna_lab.Base.Dict.{Dict}

pub data PoolError : Type 0 where
  host_bits_set bad_prefix pool_exhausted : PoolError

pub record Pool : Type 0 where
  pub available : List ℕ
  pub allocated : Dict Text ℕ
  pub released : List ℕ

-- `n` addresses from `first` on.
unfoldable pub address_range : ℕ → ℕ → List ℕ
address_range first zero = []
address_range first (suc n) = first ∷ address_range (first + 1) n

-- `parsed.hosts()` of an IPv4 network with a prefix of 30 bits at most.
unfoldable pub hosts : ℕ → ℕ → List ℕ
unfolding address_range
hosts base prefixlen = address_range (base + 1) (2 ^ (32 - prefixlen) - 2)

-- `__init__`, for the network that `ip_network` makes of its text with `strict=True`.
unfoldable pub init : ℕ → ℕ → Result PoolError Pool
init base prefixlen =
    if not (base % 2 ^ (32 - prefixlen) == 0)
    then err host_bits_set
    else if ltb prefixlen 24 || ltb 30 prefixlen
    then err bad_prefix
    else ok (record { available = hosts base prefixlen; allocated = []; released = [] })

-- `set.discard`
unfoldable pub discard : ℕ → List ℕ → List ℕ
discard a [] = []
discard a (x ∷ xs) = let rest = discard a xs in if x == a then rest else x ∷ rest

allocate_new : Text → List ℕ → Pool → Pool × Result PoolError ℕ
allocate_new session_id [] p = (p, err pool_exhausted)
allocate_new session_id (address ∷ rest) p = (
  record {
    available = rest;
    allocated = Dict.put session_id address p.allocated;
    released = discard address p.released;
  },
  ok address,
)

allocate_found : Text → Option ℕ → Pool → Pool × Result PoolError ℕ
allocate_found session_id (some address) p = (p, ok address)
allocate_found session_id none p = allocate_new session_id p.available p

unfoldable pub allocate : Text → Pool → Pool × Result PoolError ℕ
unfolding allocate_found allocate_new discard
allocate session_id p = allocate_found session_id (Dict.get session_id p.allocated) p

release_found : Text → Option ℕ → Pool → Pool
release_found session_id none p = p
release_found session_id (some address) p =
    let p' : Pool = record p { allocated = Dict.remove session_id p.allocated } in
    if contains address p.released
    then p'
    else record p' { available = p.available ++ address ∷ []; released = address ∷ p.released }

unfoldable pub release : Text → Pool → Pool
unfolding release_found
release session_id p = release_found session_id (Dict.get session_id p.allocated) p
