-- ===== src/Base/Dict.antt =====
-- Python's `dict` as the list of its items in insertion order: writing to an old key keeps its
-- place, and `remove` is `pop(key, None)` with the result dropped.
use ztna_lab.Base.{◌≡◌, refl, ◌≢◌, Option, none, some, List, [], ◌∷◌, map, arith, if◌then◌else◌, Eq}

abbrev pub Dict {ℓ κ} : Type ℓ → Type κ → Type (ℓ ⊔ κ)
Dict K V = List (K × V)

abbrev pub keys {ℓ κ} : {K : Type ℓ} {V : Type κ} → Dict K V → List K
keys = map (λ e. e.0)

abbrev pub values {ℓ κ} : {K : Type ℓ} {V : Type κ} → Dict K V → List V
values = map (λ e. e.1)

module _ {ℓ κ} {K : Type ℓ} {V : Type κ} ⦃e : Eq K⦄ where
  unfoldable pub get : K → Dict K V → Option V
  get k [] = none
  get k ((j, v) ∷ m) = if e.beq j k then some v else get k m

  unfoldable pub put : K → V → Dict K V → Dict K V
  put k v [] = (k, v) ∷ []
  put k v ((j, w) ∷ m) = if e.beq j k then (j, v) ∷ m else (j, w) ∷ put k v m

  unfoldable pub remove : K → Dict K V → Dict K V
  remove k [] = []
  remove k ((j, v) ∷ m) = let rest = remove k m in if e.beq j k then rest else (j, v) ∷ rest

  pub get-put :
      (k j : K) (v : V) (m : Dict K V) → get j (put k v m) ≡ (if e.beq k j then some v else get j m)
  unfolding get put
  get-put k j v [] = refl
  get-put k j v ((i, w) ∷ m) =
      ground (arith, e.beq_iff i k, e.beq_iff i j, e.beq_iff k j, get-put k j v m)

  pub get-remove :
      (k j : K) (m : Dict K V) → get j (remove k m) ≡ (if e.beq k j then none else get j m)
  unfolding get remove
  get-remove k j [] = ground arith
  get-remove k j ((i, w) ∷ m) =
      ground (arith, e.beq_iff i k, e.beq_iff i j, e.beq_iff k j, get-remove k j m)

  pub get-put_self : (k : K) (v : V) (m : Dict K V) → get k (put k v m) ≡ some v
  get-put_self k v m = ground (arith, get-put k k v m, e.beq_iff k k)

  pub get-put_ne : (k j : K) (v : V) (m : Dict K V) → k ≢ j → get j (put k v m) ≡ get j m
  get-put_ne k j v m h = ground (arith, get-put k j v m, e.beq_iff k j)

  pub get-remove_self : (k : K) (m : Dict K V) → get k (remove k m) ≡ none
  get-remove_self k m = ground (arith, get-remove k k m, e.beq_iff k k)

  pub get-remove_ne : (k j : K) (m : Dict K V) → k ≢ j → get j (remove k m) ≡ get j m
  get-remove_ne k j m h = ground (arith, get-remove k j m, e.beq_iff k j)

module _ {ℓ κ} {K : Type ℓ} {V : Type κ} ⦃e : Eq K⦄ where
  -- No key stands twice.
  abbrev pub DistinctKeys : Dict K V → Type κ
  DistinctKeys [] = Unit
  DistinctKeys ((k, v) ∷ m) = (get k m ≡ none) × DistinctKeys m

  pub DistinctKeys-put : (k : K) (v : V) (m : Dict K V) → DistinctKeys m → DistinctKeys (put k v m)
  unfolding get put
  DistinctKeys-put k v [] h = (refl, tt)
  DistinctKeys-put k v ((j, w) ∷ m) h =
      ground (arith, get-put k j v m, e.beq_iff j k, e.beq_iff k j, DistinctKeys-put k v m h.1)

  pub DistinctKeys-remove : (k : K) (m : Dict K V) → DistinctKeys m → DistinctKeys (remove k m)
  unfolding get remove
  DistinctKeys-remove k [] h = tt
  DistinctKeys-remove k ((j, w) ∷ m) h =
      ground (arith, get-remove k j m, DistinctKeys-remove k m h.1)
