-- ===== src/Ipam/Leases.antt =====
-- The pool of labztna/ipam.py never loses an address and never leases one twice.
use ztna_lab.Base.{
  text_key, nat_eq, ℕ, zero, suc, ◌+◌, ◌-◌, ◌^◌, ◌≤◌, ◌<◌, ◌≡◌, ◌≢◌, refl, sym, ap, inl, inr, true,
  false, ◌||◌, ◌==◌, none, some, List, [], ◌∷◌, ◌++◌, arith, if◌then◌else◌, contains, Text, Result,
  ok, err, Option-cases, Bool-cases, text_eq_iff,
}
use ztna_lab.Base.Dict
use ztna_lab.Base.Dict.{
  Dict, values, DistinctKeys, DistinctKeys-put, DistinctKeys-remove, get-put, get-remove,
}
use ztna_lab.Base.Counts.{count, count-append, count-put_new, count-remove, count_two_keys}
use ztna_lab.Ipam.{
  Pool, PoolError, address_range, hosts, init, discard, allocate, allocate_found, allocate_new,
  release, release_found,
}

-- `all` are the addresses that the pool was made with.
pub record IsPool (all : List ℕ) (p : Pool) : Type 0 where
  -- Every address is available or leased, as often as the pool was made with it.
  pub conserved : (a : ℕ) → count a p.available + count a (values p.allocated) ≡ count a all
  pub distinct : (a : ℕ) → count a all ≤ 1
  pub keyed : DistinctKeys p.allocated
  -- A leased address is not marked as released, so that its release is not skipped.
  pub unmarked :
      (k : Text) (a : ℕ) → Dict.get k p.allocated ≡ some a → contains a p.released ≡ false

-- Two sessions never hold the same address.
pub leases_differ :
    (all : List ℕ) (p : Pool) (j k : Text) (a b : ℕ)
    → IsPool all p
    → j ≢ k
    → Dict.get j p.allocated ≡ some a
    → Dict.get k p.allocated ≡ some b
    → a ≢ b
leases_differ all p j k a b h ne pa pb same =
    let again : Dict.get k p.allocated ≡ some a = rw same pb in
    omega (arith, count_two_keys j k a p.allocated ne pa again, h.conserved a, h.distinct a)

contains-discard :
    (a b : ℕ) (xs : List ℕ) → contains b xs ≡ false → contains b (discard a xs) ≡ false
unfolding discard
contains-discard a b [] h = refl
contains-discard a b (x ∷ xs) h = ground (arith, contains-discard a b xs)

contains-discard_self : (a : ℕ) (xs : List ℕ) → contains a (discard a xs) ≡ false
unfolding discard
contains-discard_self a [] = refl
contains-discard_self a (x ∷ xs) = ground (arith, contains-discard_self a xs)

module _ (all : List ℕ) (session_id : Text) where
  allocate_new-IsPool :
      (p : Pool) (xs : List ℕ)
      → p.available ≡ xs
      → Dict.get session_id p.allocated ≡ none
      → IsPool all p
      → IsPool all (allocate_new session_id xs p).0
  unfolding allocate_new
  allocate_new-IsPool p [] e new h = h
  allocate_new-IsPool p (x ∷ xs) e new h = record {
    conserved = λ a. ground (arith, h.conserved a, count-put_new a session_id x p.allocated new);
    distinct = h.distinct;
    keyed = DistinctKeys-put session_id x p.allocated h.keyed;
    unmarked = λ k a g. ground (
      arith,
      get-put session_id k x p.allocated,
      contains-discard x a p.released,
      contains-discard_self a p.released,
      h.unmarked k a,
    );
  }

  pub allocate-IsPool : (p : Pool) → IsPool all p → IsPool all (allocate session_id p).0
  unfolding allocate
  allocate-IsPool p h = elim (Option-cases (Dict.get session_id p.allocated)) [
    | inl new ↦ rw (new, allocate_found) (allocate_new-IsPool p p.available refl new h)
    | inr (a, old) ↦ rw (old, allocate_found) h
  ]

  release_found-IsPool :
      (p : Pool) (a : ℕ)
      → Dict.get session_id p.allocated ≡ some a
      → IsPool all p
      → IsPool all (release_found session_id (some a) p)
  unfolding release_found
  release_found-IsPool p a e h = rw (h.unmarked session_id a e) (record {
    conserved = λ b. ground (
      arith,
      h.conserved b,
      count-append b p.available (a ∷ []),
      count-remove b session_id a p.allocated h.keyed e,
    );
    distinct = h.distinct;
    keyed = DistinctKeys-remove session_id p.allocated h.keyed;
    unmarked = λ k b g. elim (Bool-cases (text_key.beq session_id k)) [
      | inl same ↦ ground (arith, get-remove session_id k p.allocated)
      | inr other ↦
          let g' : Dict.get k p.allocated ≡ some b =
            ground (arith, get-remove session_id k p.allocated) in
          let ne : session_id ≢ k = ground (arith, text_eq_iff session_id k) in
          let differ : a ≢ b = leases_differ all p session_id k a b h ne e g' in
          ground (arith, h.unmarked k b g')
    ];
  })

  pub release-IsPool : (p : Pool) → IsPool all p → IsPool all (release session_id p)
  unfolding release
  release-IsPool p h = elim (Option-cases (Dict.get session_id p.allocated)) [
    | inl free ↦ rw (free, release_found) h
    | inr (a, leased) ↦ rw leased (release_found-IsPool p a leased h)
  ]

-- What `release` does to the table of leases.
pub get-release :
    (k j : Text) (p : Pool)
    → Dict.get j (release k p).allocated
      ≡ (if text_key.beq k j then none else Dict.get j p.allocated)
unfolding release release_found
get-release k j p = ground (arith, get-remove k j p.allocated, text_eq_iff k j)

-- A release puts the address of the session back among the available ones.
pub release_available :
    (all : List ℕ) (k : Text) (p : Pool) (a : ℕ)
    → IsPool all p
    → Dict.get k p.allocated ≡ some a
    → (release k p).available ≡ p.available ++ a ∷ []
unfolding release release_found
release_available all k p a h e = rw e (ground (arith, h.unmarked k a e))

pub contains-append_one :
    (a b : ℕ) (xs : List ℕ) → contains a (xs ++ b ∷ []) ≡ contains a xs || a == b
contains-append_one a b [] = ground arith
contains-append_one a b (x ∷ xs) = ground (arith, contains-append_one a b xs)

-- A release takes no address away.
pub release_keeps :
    (k : Text) (p : Pool) (a : ℕ)
    → contains a p.available ≡ true
    → contains a (release k p).available ≡ true
unfolding release release_found
release_keeps k p a h = elim (Option-cases (Dict.get k p.allocated)) [
  | inl free ↦ rw (free, release_found) h
  | inr (b, leased) ↦
      rw (leased, release_found) (ground (arith, contains-append_one a b p.available))
]

get-allocate_new :
    (k j : Text) (p q : Pool) (a : ℕ) (xs : List ℕ)
    → allocate_new k xs p ≡ (q, ok a)
    → Dict.get j q.allocated ≡ (if text_key.beq k j then some a else Dict.get j p.allocated)
unfolding allocate_new
get-allocate_new k j p q a [] e = cc (ap (λ (r : Pool × Result PoolError ℕ). r.1) e)
get-allocate_new k j p q a (x ∷ xs) e = ground (arith, get-put k j x p.allocated)

-- What `allocate` does to the table of leases, by its result.
pub get-allocate :
    (k j : Text) (p q : Pool) (a : ℕ)
    → allocate k p ≡ (q, ok a)
    → Dict.get j q.allocated ≡ (if text_key.beq k j then some a else Dict.get j p.allocated)
unfolding allocate allocate_found allocate_new
get-allocate k j p q a e = elim (Option-cases (Dict.get k p.allocated)) [
  | inl new ↦ get-allocate_new k j p q a p.available (rw (new, allocate_found) at e)
  | inr (b, old) ↦ ground (arith, text_eq_iff k j)
]

pub count-address_range :
    (a first n : ℕ)
    → (a < first → count a (address_range first n) ≡ 0) × (count a (address_range first n) ≤ 1)
unfolding address_range
count-address_range a first zero = (λ h. refl, omega arith)
count-address_range a first (suc n) =
    let (below, once) = count-address_range a (first + 1) n in
    (λ h. ground (arith, below (omega arith)), ground (arith, below))

-- A new pool has every host address of its network available, each once.
pub init-IsPool :
    (base prefixlen : ℕ) (p : Pool)
    → init base prefixlen ≡ ok p
    → IsPool (hosts base prefixlen) p × (p.available ≡ hosts base prefixlen)
unfolding init hosts
init-IsPool base prefixlen p e =
    let fresh : (p.available ≡ hosts base prefixlen) × (p.allocated ≡ []) × (p.released ≡ []) =
      ground arith in
    (
      record {
        conserved = λ a. ground (arith, fresh.0, fresh.1);
        distinct = λ a. (count-address_range a (base + 1) (2 ^ (32 - prefixlen) - 2)).1;
        keyed = rw fresh.1 tt;
        unmarked = λ k a g. rw fresh.2;
      },
      fresh.0,
    )

-- A pool that has no address left is not changed by the attempt.
pub allocate_failed : (k : Text) (p q : Pool) (e : PoolError) → allocate k p ≡ (q, err e) → q ≡ p
unfolding allocate allocate_found allocate_new
allocate_failed k p q e h = elim (Option-cases (Dict.get k p.allocated)) [
  | inl new ↦ failed_new p.available (rw (new, allocate_found) at h)
  | inr (a, old) ↦ ground arith
]
  where
    failed_new : (xs : List ℕ) → allocate_new k xs p ≡ (q, err e) → q ≡ p
    failed_new [] g = ap (λ (r : Pool × Result PoolError ℕ). r.0) (sym g)
    failed_new (x ∷ xs) g = cc (ap (λ (r : Pool × Result PoolError ℕ). r.1) g)

-- A new pool has no lease.
pub fresh_leases : (base prefixlen : ℕ) (p : Pool) → init base prefixlen ≡ ok p → p.allocated ≡ []
unfolding init
fresh_leases base prefixlen p e = ground arith
