-- ===== src/Base/Texts.antt =====
-- Methods of `str` and `bytes` that the components share.
use Prim.Native.Nat.{ℕ}
use mathlib.Core.Bool.{Bool, ◌&&◌, ◌||◌}
use mathlib.Core.List.{[], ◌∷◌}
use ztna_lab.Base.Tests.{◌==◌, if◌then◌else◌}
use ztna_lab.Base.Equality.{Text, text_eq}

-- `t.rstrip(c)`
unfoldable pub rstrip : ℕ → Text → Text
rstrip c [] = []
rstrip c (d ∷ t) = let rest = rstrip c t in if (d == c) && text_eq rest [] then [] else d ∷ rest

-- `t.lstrip()` and `t.rstrip()` of the characters that a test accepts.
unfoldable pub lstrip_by : (ℕ → Bool) → Text → Text
lstrip_by test [] = []
lstrip_by test (c ∷ t) = let rest = lstrip_by test t in if test c then rest else c ∷ t

unfoldable pub rstrip_by : (ℕ → Bool) → Text → Text
rstrip_by test [] = []
rstrip_by test (c ∷ t) =
    let rest = rstrip_by test t in if test c && text_eq rest [] then [] else c ∷ rest

unfoldable pub ends_with : Text → Text → Bool
ends_with s [] = text_eq s []
ends_with s (c ∷ t) = text_eq s (c ∷ t) || ends_with s t
