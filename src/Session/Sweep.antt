-- ===== src/Session/Sweep.antt =====
-- What `scavenge` of labztna/session.py leaves in the table and takes out of the pool.
use ztna_lab.Base.{
  text_key, nat_eq, ℕ, ◌≡◌, refl, ◌∙◌, Bool, true, false, not, ◌||◌, Option, none, some, List, [],
  ◌∷◌, arith, if◌then◌else◌, contains, Text, text_eq_iff, Bool-cases, inl, inr,
}
use ztna_lab.Base.Dict
use ztna_lab.Base.Dict.{Dict, DistinctKeys, DistinctKeys-remove, get-remove}
use ztna_lab.Ipam.{Pool, release}
use ztna_lab.Ipam.Leases.{
  IsPool, release-IsPool, get-release, release_available, release_keeps, contains-append_one,
}
use ztna_lab.Session.{Session, is_over, is_live, sweep, reclaimed_ids, release_all}

pub is_live-is_over : (idle now : ℕ) (s : Session) → is_live idle now s ≡ not (is_over idle now s)
is_live-is_over idle now s = ground arith

-- The table entry after a sweep: an entry of the snapshot that is over is gone.
abbrev pub swept_entry : ℕ → ℕ → Option Session → Option Session → Option Session
swept_entry idle now none current = current
swept_entry idle now (some s) current = if is_live idle now s then current else none

pub get-sweep :
    (idle now : ℕ) (k : Text) (items m : Dict Text Session)
    → DistinctKeys items
    → Dict.get k (sweep idle now items m) ≡ swept_entry idle now (Dict.get k items) (Dict.get k m)
unfolding sweep Dict.get
get-sweep idle now k [] m h = refl
get-sweep idle now k ((j, s) ∷ items) m h =
    get-sweep idle now k items (if is_live idle now s then m else Dict.remove j m) h.1 ∙ step
  where
    step :
        swept_entry idle now
          (Dict.get k items)
          (Dict.get k (if is_live idle now s then m else Dict.remove j m))
        ≡ swept_entry idle now (Dict.get k ((j, s) ∷ items)) (Dict.get k m)
    step = ground (arith, get-remove j k m, text_eq_iff j k, h.0)

pub DistinctKeys-sweep :
    (idle now : ℕ) (items m : Dict Text Session)
    → DistinctKeys m
    → DistinctKeys (sweep idle now items m)
unfolding sweep
DistinctKeys-sweep idle now [] m h = h
DistinctKeys-sweep idle now ((j, s) ∷ items) m h =
    DistinctKeys-sweep idle now items (if is_live idle now s then m else Dict.remove j m)
      (keep (is_live idle now s))
  where
    keep : (b : Bool) → DistinctKeys (if b then m else Dict.remove j m)
    keep true = h
    keep false = DistinctKeys-remove j m h

abbrev pub is_reclaimed : ℕ → ℕ → Option Session → Bool
is_reclaimed idle now none = false
is_reclaimed idle now (some s) = not (is_live idle now s || s.revoked)

pub contains-reclaimed_ids :
    (idle now : ℕ) (k : Text) (items : Dict Text Session)
    → DistinctKeys items
    → contains k (reclaimed_ids idle now items) ≡ is_reclaimed idle now (Dict.get k items)
unfolding reclaimed_ids Dict.get
contains-reclaimed_ids idle now k [] h = refl
contains-reclaimed_ids idle now k ((j, s) ∷ items) h =
    ground
      (arith, contains-reclaimed_ids idle now k items h.1, text_eq_iff j k, text_eq_iff k j, h.0)

pub release_all-IsPool :
    (all : List ℕ) (ids : List Text) (p : Pool) → IsPool all p → IsPool all (release_all ids p)
unfolding release_all
release_all-IsPool all [] p h = h
release_all-IsPool all (k ∷ ids) p h =
    release_all-IsPool all ids (release k p) (release-IsPool all k p h)

pub get-release_all :
    (k : Text) (ids : List Text) (p : Pool)
    → Dict.get k (release_all ids p).allocated
      ≡ (if contains k ids then none else Dict.get k p.allocated)
unfolding release_all
get-release_all k [] p = refl
get-release_all k (j ∷ ids) p = ground (
  arith,
  get-release_all k ids (release j p),
  get-release j k p,
  text_eq_iff j k,
  text_eq_iff k j,
)

release_all_keeps :
    (ids : List Text) (p : Pool) (a : ℕ)
    → contains a p.available ≡ true
    → contains a (release_all ids p).available ≡ true
unfolding release_all
release_all_keeps [] p a h = h
release_all_keeps (k ∷ ids) p a h = release_all_keeps ids (release k p) a (release_keeps k p a h)

-- The address that is leased under one of the ids is available again.
pub release_all_available :
    (all : List ℕ) (k : Text) (ids : List Text) (p : Pool) (a : ℕ)
    → IsPool all p
    → Dict.get k p.allocated ≡ some a
    → contains k ids ≡ true
    → contains a (release_all ids p).available ≡ true
unfolding release_all
release_all_available all k [] p a h leased c = cc c
release_all_available all k (j ∷ ids) p a h leased c = elim (Bool-cases (text_key.beq k j)) [
  | inl same ↦
      let key : k ≡ j = (text_eq_iff k j).0 same in
      let back : contains a (release j p).available ≡ true =
        rw (release_available all j p a h (rw (← key) leased))
          (ground (arith, contains-append_one a a p.available)) in
      release_all_keeps ids (release j p) a back
  | inr other ↦
      release_all_available all k ids (release j p) a (release-IsPool all j p h)
        (ground (arith, get-release j k p, text_eq_iff j k, text_eq_iff k j)) (ground arith)
]
