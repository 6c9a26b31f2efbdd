-- ===== src/Addresses/Covers.antt =====
-- `covers_entire_ipv4` of labztna/policy.py holds exactly for the networks that contain every
-- address.
use ztna_lab.Base.{
  ℕ, zero, suc, ◌+◌, ◌-◌, ◌*◌, ◌^◌, ◌/◌, ◌<◌, ◌≤◌, true, List, [], ◌∷◌, leb, ◌==◌, ◌≡◌, ◌↔◌, ◌⊎◌,
  inl, inr, refl, ap, sym, ◌∙◌, arith, Bool-cases, leb→le,
}
use native.Mathlib.Nat.{pow-suc, div-div-eq-div-mul, div-one, mul-div_cancel, one-le-pow}
use ztna_lab.Addresses.{
  Network, in_network, has_route, has_whole, has_part, collapses, covers_entire_ipv4,
}

half : (a k : ℕ) → a / 2 ^ suc k ≡ a / 2 ^ k / 2
half a k = rw (pow-suc 2 k) (sym (div-div-eq-div-mul a (2 ^ k) 2))

shift : (a i j : ℕ) → a / 2 ^ (i + j) ≡ a / 2 ^ i / 2 ^ j
shift a i zero = let e : i + 0 ≡ i = omega arith in rw e (sym (div-one (a / 2 ^ i)))
shift a i (suc j) =
    let e : i + suc j ≡ suc (i + j) = omega arith in
    rw e (half a (i + j) ∙ ap (λ (t : ℕ). t / 2) (shift a i j) ∙ sym (half (a / 2 ^ i) j))

first_of : (q k : ℕ) → q * 2 ^ k / 2 ^ k ≡ q
first_of q k = mul-div_cancel q (one-le-pow k 2 (omega arith))

-- The cut of an address at `h` bits goes through the cut at fewer bits.
shift_to : (a k h : ℕ) → k ≤ h → a / 2 ^ h ≡ a / 2 ^ k / 2 ^ (h - k)
shift_to a k h le =
    let e : h ≡ k + (h - k) = omega arith in ap (λ (t : ℕ). a / 2 ^ t) e ∙ shift a k (h - k)

-- A network that contains a block contains its addresses.
has_whole-has_route :
    (k q a : ℕ) (ns : List Network)
    → a / 2 ^ k ≡ q
    → has_whole k q ns ≡ true
    → has_route a ns ≡ true
unfolding has_whole has_route in_network
has_whole-has_route k q a [] e h = h
has_whole-has_route k q a (n ∷ ns) e h = elim (Bool-cases (has_whole k q ns)) [
  | inl rest ↦ ground (arith, has_whole-has_route k q a ns e rest)
  | inr no_more ↦
      let le : k ≤ 32 - n.prefixlen = ground arith in
      ground (arith, shift_to a k (32 - n.prefixlen) le)
]

-- A network with an address of a block contains the block, or is a part of it.
has_route-block :
    (k q a : ℕ) (ns : List Network)
    → a / 2 ^ k ≡ q
    → has_route a ns ≡ true
    → (has_whole k q ns ≡ true) ⊎ (has_part k q ns ≡ true)
unfolding has_whole has_part has_route in_network
has_route-block k q a [] e h = inl h
has_route-block k q a (n ∷ ns) e h = elim (Bool-cases (in_network a n)) [
  | inr other ↦ elim (has_route-block k q a ns e (ground arith)) [
    | inl w ↦ inl (ground arith)
    | inr p ↦ inr (ground arith)
  ]
  | inl here ↦ elim (Bool-cases (leb k (32 - n.prefixlen))) [
    | inl le ↦ inl (ground (arith, shift_to a k (32 - n.prefixlen) (leb→le _ _ le)))
    | inr gt ↦
        let lt : 32 - n.prefixlen < k = ground arith in
        inr (
          ground (
            arith,
            shift_to a (32 - n.prefixlen) k (omega arith),
            shift_to n.base (32 - n.prefixlen) k (omega arith),
          ))
  ]
]

no_part : (q : ℕ) (ns : List Network) → has_part 0 q ns ≡ true → ⊥
unfolding has_part
no_part q [] h = cc h
no_part q (n ∷ ns) h = ground (arith, no_part q ns)

collapses-has_route :
    (k q a : ℕ) (ns : List Network)
    → collapses k q ns ≡ true
    → a / 2 ^ k ≡ q
    → has_route a ns ≡ true
unfolding collapses
collapses-has_route zero q a ns h e = has_whole-has_route 0 q a ns e h
collapses-has_route (suc k) q a ns h e = elim (Bool-cases (has_whole (suc k) q ns)) [
  | inl whole ↦ has_whole-has_route (suc k) q a ns e whole
  | inr none ↦
      let both : (collapses k (q + q) ns ≡ true) × (collapses k (q + q + 1) ns ≡ true) =
        ground arith in
      elim (Bool-cases (a / 2 ^ k == q + q)) [
        | inl left ↦ collapses-has_route k (q + q) a ns both.0 (ground arith)
        | inr right ↦
            collapses-has_route k (q + q + 1) a ns both.1 (ground (arith, half a k, right))
      ]
]

has_route-collapses :
    (k q : ℕ) (ns : List Network)
    → ((a : ℕ) → a / 2 ^ k ≡ q → has_route a ns ≡ true)
    → collapses k q ns ≡ true
unfolding collapses
has_route-collapses zero q ns h = elim (has_route-block 0 q q ns (div-one q) (h q (div-one q))) [
  | inl whole ↦ whole
  | inr part ↦ absurd (no_part q ns part)
]
has_route-collapses (suc k) q ns h =
    let left = has_route-collapses k (q + q) ns (λ a e. h a (half a k ∙ omega arith)) in
    let right = has_route-collapses k (q + q + 1) ns (λ a e. h a (half a k ∙ omega arith)) in
    let mine = first_of q (suc k) in
    elim (has_route-block (suc k) q (q * 2 ^ suc k) ns mine (h _ mine)) [
      | inl whole ↦ rw whole refl
      | inr part ↦ ground arith
    ]

-- The check of `covers_entire_ipv4` holds exactly if every IPv4 address is in one of the networks.
pub covers_entire_ipv4-has_route :
    (ns : List Network)
    → (covers_entire_ipv4 ns ≡ true) ↔ ((a : ℕ) → a < 2 ^ 32 → has_route a ns ≡ true)
unfolding covers_entire_ipv4
covers_entire_ipv4-has_route ns = (
  λ h a lt. collapses-has_route 32 0 a ns h (omega arith),
  λ h. has_route-collapses 32 0 ns (λ a e. h a (omega arith)),
)
