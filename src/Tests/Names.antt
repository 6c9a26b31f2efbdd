-- ===== src/Tests/Names.antt =====
-- Runs of labztna/dnsmap.py in a network of two addresses.
use ztna_lab.Base.{
  text_key, nat_eq, ℕ, ◌≡◌, ◌≢◌, refl, some, [], ◌∷◌, Text, codes, text_eq, rstrip_by, ok, err,
}
use ztna_lab.Base.Dict
use ztna_lab.Ipam.{hosts, address_range}
use ztna_lab.Dnsmap.{
  FakeDnsMap, invalid_domain, init, is_forbidden, has_forbidden, canonical, register, resolve,
}
use ztna_lab.Dnsmap.Names.{register-resolve, init-IsDnsMap}

program : Unit {0}
unfolding Dict.get Dict.put text_eq rstrip_by hosts address_range init is_forbidden has_forbidden
    canonical register resolve
program = tt

abbrev base : ℕ
base = 3323068416

abbrev fresh : FakeDnsMap
fresh = record { addresses = 3323068417 ∷ 3323068418 ∷ []; mapping = [] }

abbrev same : Text → Text
same t = t

made : init base 30 ≡ ok fresh
unfolding program
made = refl

registered : (register same (codes "demo.lab.") fresh).1 ≡ ok 3323068417
unfolding program
registered = refl

-- The dot at the end is no part of the name.
dot_dropped :
    resolve same (codes "demo.lab") (register same (codes "demo.lab.") fresh).0 ≡ some 3323068417
unfolding program
dot_dropped = refl

blank_refused : (register same (codes "demo lab") fresh).1 ≡ err invalid_domain
unfolding program
blank_refused = refl

register-resolve_example :
    (resolve same (codes "demo.lab.") (register same (codes "demo.lab.") fresh).0 ≡ some 3323068417)
    × ((other : Text)
        → canonical same other ≢ canonical same (codes "demo.lab.")
        → resolve same other (register same (codes "demo.lab.") fresh).0 ≢ some 3323068417)
    × ((other : Text) (b : ℕ)
        → resolve same other fresh ≡ some b
        → resolve same other (register same (codes "demo.lab.") fresh).0 ≡ some b)
register-resolve_example =
    register-resolve same (hosts base 30) (codes "demo.lab.") fresh 3323068417
      (init-IsDnsMap base 30 fresh made) registered
