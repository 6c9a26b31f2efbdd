-- ===== src/Base/Words.antt =====
-- `struct.pack` and `struct.unpack` of unsigned big-endian integers (`!B`, `!H`, `!I`, `!Q`).
use Prim.Native.Nat.{ℕ, zero, suc, ◌+◌, ◌*◌, ◌/◌, ◌%◌, ◌^◌, ◌≤◌, ◌<◌}
use mathlib.Core.Path.{◌≡◌, refl, ap, ap₂, ◌≡⟨◌⟩◌, ◌∎}
use mathlib.Core.List.{List, [], ◌∷◌, ◌++◌, append-nil, append_assoc}
use native.Mathlib.Nat.{pow-suc, add-zero, zero-add}
use native.Mathlib.Omega.{arith}
use ztna_lab.Base.Lists.{length, length-append, All, All-append}

abbrev pub Bytes : Type 0
Bytes = List ℕ

abbrev pub IsByte : ℕ → Type 0
IsByte b = b < 256

-- The `w` low bytes of `n`, the most significant first.
unfoldable pub to_be : ℕ → ℕ → Bytes
to_be zero n = []
to_be (suc w) n = to_be w (n / 256) ++ n % 256 ∷ []

unfoldable pub from_be_onto : ℕ → Bytes → ℕ
from_be_onto acc [] = acc
from_be_onto acc (b ∷ bs) = from_be_onto (acc * 256 + b) bs

abbrev pub from_be : Bytes → ℕ
from_be = from_be_onto 0

pub length-to_be : (w n : ℕ) → length (to_be w n) ≡ w
unfolding to_be
length-to_be zero n = refl
length-to_be (suc w) n =
    omega (arith, length-append (to_be w (n / 256)) (n % 256 ∷ []), length-to_be w (n / 256))

from_be_onto-snoc :
    (acc : ℕ) (bs : Bytes) (b : ℕ) → from_be_onto acc (bs ++ b ∷ []) ≡ from_be_onto acc bs * 256 + b
unfolding from_be_onto
from_be_onto-snoc acc [] b = refl
from_be_onto-snoc acc (c ∷ bs) b = from_be_onto-snoc (acc * 256 + c) bs b

-- A number that fits the width is read back.
pub from_be-to_be : (w n : ℕ) → n < 256 ^ w → from_be (to_be w n) ≡ n
unfolding to_be from_be_onto
from_be-to_be zero n h = omega arith
from_be-to_be (suc w) n h = omega (
  arith,
  from_be_onto-snoc 0 (to_be w (n / 256)) (n % 256),
  from_be-to_be w (n / 256) (omega (arith, pow-suc 256 w)),
)

pub to_be-IsByte : (w n : ℕ) → All IsByte (to_be w n)
unfolding to_be
to_be-IsByte zero n = tt
to_be-IsByte (suc w) n =
    All-append IsByte (to_be w (n / 256)) (n % 256 ∷ []) (to_be-IsByte w (n / 256))
      (omega arith, tt)

-- The bytes that follow a number already written are written after it.
to_be-onto :
    (w acc : ℕ) (bs : Bytes)
    → All IsByte bs
    → to_be (length bs + w) (from_be_onto acc bs) ≡ to_be w acc ++ bs
unfolding to_be from_be_onto
to_be-onto w acc [] h = rw (zero-add, append-nil)
to_be-onto w acc (b ∷ bs) h =
    to_be (suc (length bs) + w) (from_be_onto (acc * 256 + b) bs)
    ≡⟨ ap (λ (k : ℕ). to_be k (from_be_onto (acc * 256 + b) bs)) same_width ⟩
      to_be (length bs + suc w) (from_be_onto (acc * 256 + b) bs)
    ≡⟨ to_be-onto (suc w) (acc * 256 + b) bs h.1 ⟩
      (to_be w ((acc * 256 + b) / 256) ++ (acc * 256 + b) % 256 ∷ []) ++ bs
    ≡⟨ ap₂ (λ (q r : ℕ). (to_be w q ++ r ∷ []) ++ bs) (quotient h.0) (remainder h.0) ⟩
      (to_be w acc ++ b ∷ []) ++ bs
    ≡⟨ append_assoc (to_be w acc) (b ∷ []) bs ⟩ to_be w acc ++ b ∷ bs ∎
  where
    same_width : suc (length bs) + w ≡ length bs + suc w
    same_width = omega arith

    quotient : b < 256 → (acc * 256 + b) / 256 ≡ acc
    quotient small = omega arith

    remainder : b < 256 → (acc * 256 + b) % 256 ≡ b
    remainder small = omega arith

-- Bytes that were read as a number are written back from it.
pub to_be-from_be : (bs : Bytes) → All IsByte bs → to_be (length bs) (from_be bs) ≡ bs
unfolding to_be
to_be-from_be bs h = rw (add-zero (length bs)) at (to_be-onto 0 0 bs h)

from_be_onto-lt :
    (acc : ℕ) (bs : Bytes) → All IsByte bs → from_be_onto acc bs < (acc + 1) * 256 ^ length bs
unfolding from_be_onto
from_be_onto-lt acc [] h = omega arith
from_be_onto-lt acc (b ∷ bs) h =
    let grown : (acc * 256 + b + 1) * 256 ^ length bs ≤ (acc + 1) * 256 * 256 ^ length bs =
      grind (arith, fits h.0) in
    rw pow-suc (omega (arith, from_be_onto-lt (acc * 256 + b) bs h.1))
  where
    fits : b < 256 → acc * 256 + b + 1 ≤ (acc + 1) * 256
    fits small = omega arith

pub from_be-lt : (bs : Bytes) → All IsByte bs → from_be bs < 256 ^ length bs
from_be-lt bs h = omega (arith, from_be_onto-lt 0 bs h)
