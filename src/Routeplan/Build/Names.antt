-- ===== src/Routeplan/Build/Names.antt =====
-- The fake names that `build_route_plan` of labztna/routeplan.py collects.
use ztna_lab.Base.{
  text_key, ℕ, ◌≤◌, true, false, Option, none, some, [], ◌∷◌, ◌≡◌, refl, sym, arith, All, length,
  Bool-cases, inl, inr, Text, text_eq_iff, ok, >>=-eq-ok, passed, Eq,
}
use ztna_lab.Base.Dict
use ztna_lab.Base.Dict.{Dict, DistinctKeys, DistinctKeys-put}
use ztna_lab.Json.{Fields}
use ztna_lab.Addresses.{IpAddress, ipv4, ipv6, AddressLibrary, in_network}
use ztna_lab.Dnsmap.{has_forbidden, canonical}
use ztna_lab.Routeplan.Build.{
  fake_dns_pool, check_fake_ip, check_fake_ips, is_new_name, normalize_dns, plan_dns, raw_dns,
  checked_dns,
}

-- A text that is the text of an address of the pool.
pub record IsFake (a : AddressLibrary) (value : Text) : Type 0 where
  pub address : ℕ
  pub parsed : a.ip_address value ≡ some (ipv4 address)
  pub pooled : in_network address fake_dns_pool ≡ true

pub record IsName (name : Text) : Type 0 where
  pub nonempty : 1 ≤ length name
  pub short : length name ≤ 253
  pub clean : has_forbidden name ≡ false

-- The names of a plan: each once, well formed, with an address of the pool.
pub record IsNames (a : AddressLibrary) (d : Dict Text Text) : Type 0 where
  pub distinct : DistinctKeys d
  pub named : All (λ e. IsName e.0 × IsFake a e.1) d

All-put {ℓ κ ι} :
    {K : Type ℓ} {V : Type κ} ⦃e : Eq K⦄ (P : K × V → Type ι) (k : K) (v : V) (m : Dict K V)
    → P (k, v)
    → All P m
    → Dict.get k m ≡ none
    → All P (Dict.put k v m)
unfolding Dict.put Dict.get
All-put P k v [] p all new = (p, tt)
All-put ⦃e⦄ P k v ((j, w) ∷ m) p all new = elim (Bool-cases (e.beq j k)) [
  | inl same ↦ absurd (ground (arith, same))
  | inr other ↦ rw other (all.0, All-put P k v m p all.1 (ground (arith, other)))
]

module _ (a : AddressLibrary) where
  value-IsFake :
      (value : Text) (o : Option IpAddress)
      → a.ip_address value ≡ o
      → check_fake_ip o ≡ ok tt
      → IsFake a value
  unfolding check_fake_ip
  value-IsFake value none e h = cc h
  value-IsFake value (some (ipv6 n)) e h = cc h
  value-IsFake value (some (ipv4 n)) e h = record {
    address = n;
    parsed = e;
    pooled = (passed _ _ _ h).0;
  }

  All-IsFake : (d : Dict Text Text) → check_fake_ips a d ≡ ok tt → All (λ e. IsFake a e.1) d
  unfolding check_fake_ips
  All-IsFake [] h = tt
  All-IsFake ((domain, value) ∷ d) h =
      let (u, checked, rest) = >>=-eq-ok (check_fake_ip (a.ip_address value)) _ h in
      (value-IsFake value _ refl checked, All-IsFake d rest)

  new-IsName :
      (name : Text) (d : Dict Text Text)
      → is_new_name name d ≡ true
      → IsName name × (Dict.get name d ≡ none)
  unfolding is_new_name
  new-IsName [] d h = ground (arith, text_eq_iff [] [])
  new-IsName (c ∷ t) d h =
      (record { nonempty = omega arith; short = ground arith; clean = ground arith }, ground arith)

  normalize_dns-IsNames :
      (d n r : Dict Text Text)
      → All (λ e. IsFake a e.1) d
      → IsNames a n
      → normalize_dns a d n ≡ ok r
      → IsNames a r
  unfolding normalize_dns
  normalize_dns-IsNames [] n r f h e = let same : n ≡ r = cc e in rw (sym same) h
  normalize_dns-IsNames ((domain, value) ∷ d) n r f h e =
      let name = canonical a.lower domain in
      let (fresh, rest) = passed (is_new_name name n) _ _ e in
      let (good, new) = new-IsName name n fresh in
      normalize_dns-IsNames d (Dict.put name value n) r f.1
        (record {
          distinct = DistinctKeys-put name value n h.distinct;
          named = All-put _ name value n (good, f.0) h.named new;
        })
        rest

pub plan_dns-IsNames :
    (a : AddressLibrary) (j : Fields) (r : Dict Text Text) → plan_dns a j ≡ ok r → IsNames a r
unfolding plan_dns checked_dns
plan_dns-IsNames a j r e =
    let (d, _, made) = >>=-eq-ok (raw_dns j) (checked_dns a) e in
    let (u, checked, normal) = >>=-eq-ok (check_fake_ips a d) (λ _. normalize_dns a d []) made in
    normalize_dns-IsNames a d [] r (All-IsFake a d checked) (record { distinct = tt; named = tt })
      normal
