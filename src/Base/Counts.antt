-- ===== src/Base/Counts.antt =====
-- How often a number stands in a list, and in the values of a dictionary.
use ztna_lab.Base.{
  ℕ, ◌+◌, ◌≤◌, ◌≡◌, ◌≢◌, refl, none, some, List, [], ◌∷◌, ◌++◌, arith, ◌==◌, if◌then◌else◌, Eq,
}
use ztna_lab.Base.Dict.{Dict, values, get, put, remove, DistinctKeys}

abbrev pub count : ℕ → List ℕ → ℕ
count a [] = 0
count a (x ∷ xs) = (if x == a then 1 else 0) + count a xs

pub count-append :
    (n : ℕ) (front back : List ℕ) → count n (front ++ back) ≡ count n front + count n back
count-append n [] back = omega arith
count-append n (k ∷ front) back = omega (arith, count-append n front back)

module _ {ℓ} {K : Type ℓ} ⦃e : Eq K⦄ where
  pub count-put_new :
      (a : ℕ) (k : K) (v : ℕ) (m : Dict K ℕ)
      → get k m ≡ none
      → count a (values (put k v m)) ≡ count a (values m) + (if v == a then 1 else 0)
  unfolding get put
  count-put_new a k v [] h = omega arith
  count-put_new a k v ((j, w) ∷ m) h = ground (arith, count-put_new a k v m)

  pub remove_absent : (k : K) (m : Dict K ℕ) → get k m ≡ none → remove k m ≡ m
  unfolding get remove
  remove_absent k [] h = refl
  remove_absent k ((j, w) ∷ m) h = ground (arith, remove_absent k m)

  pub count-remove :
      (a : ℕ) (k : K) (v : ℕ) (m : Dict K ℕ)
      → DistinctKeys m
      → get k m ≡ some v
      → count a (values (remove k m)) + (if v == a then 1 else 0) ≡ count a (values m)
  unfolding get remove
  count-remove a k v [] d h = cc
  count-remove a k v ((j, w) ∷ m) d h =
      ground (arith, e.beq_iff j k, remove_absent k m, count-remove a k v m d.1)

  count-pos : (k : K) (v : ℕ) (m : Dict K ℕ) → get k m ≡ some v → 1 ≤ count v (values m)
  unfolding get
  count-pos k v [] h = cc
  count-pos k v ((j, w) ∷ m) h = ground (arith, count-pos k v m)

  -- A value that stands under two keys counts twice.
  pub count_two_keys :
      (j k : K) (v : ℕ) (m : Dict K ℕ)
      → j ≢ k
      → get j m ≡ some v
      → get k m ≡ some v
      → 2 ≤ count v (values m)
  unfolding get
  count_two_keys j k v [] ne p q = cc
  count_two_keys j k v ((i, w) ∷ m) ne p q = ground (
    arith,
    e.beq_iff i j,
    e.beq_iff i k,
    count-pos j v m,
    count-pos k v m,
    count_two_keys j k v m ne,
  )
