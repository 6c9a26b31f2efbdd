-- ===== src/Json/Inversion.antt =====
-- What the type tests and comparisons of labztna/auth.py on decoded values say of the value.
use ztna_lab.Base.{◌≡◌, ap, true, Option, none, some, Text, text_eq_iff}
use ztna_lab.Json.{ℤ, Json, number, text, object, Fields, as_text, as_int, is_text, object_in}

pub is_text-eq : (t : Text) (o : Option Json) → is_text t o ≡ true → o ≡ some (text t)
is_text-eq t (some (text s)) h = ap (λ (u : Text). some (text u)) ((text_eq_iff s t).0 h)
is_text-eq t none h = cc h
is_text-eq t (some _) h = cc h

pub as_text-eq-some : (o : Option Json) (t : Text) → as_text o ≡ some t → o ≡ some (text t)
as_text-eq-some (some (text s)) t h = cc h
as_text-eq-some none t h = cc h
as_text-eq-some (some _) t h = cc h

pub as_int-eq-some : (o : Option Json) (n : ℤ) → as_int o ≡ some n → o ≡ some (number n)
as_int-eq-some (some (number m)) n h = cc h
as_int-eq-some none n h = cc h
as_int-eq-some (some _) n h = cc h

pub object_in-eq-some : (o : Option Json) (d : Fields) → object_in o ≡ some d → o ≡ some (object d)
object_in-eq-some (some (object e)) d h = cc h
object_in-eq-some none d h = cc h
object_in-eq-some (some _) d h = cc h
