-- ===== src/Dnsmap/Names.antt =====
-- The names of labztna/dnsmap.py: each has one address, which it keeps, and no other name has it.
use ztna_lab.Base.{
  text_key, nat_eq, ℕ, ◌+◌, ◌≤◌, ◌≡◌, ◌≢◌, refl, Bool, true, false, Option, none, some, List, [],
  ◌∷◌, arith, Text, Result, ok, err, text_eq_iff,
}
use ztna_lab.Base.Dict
use ztna_lab.Base.Dict.{Dict, values, DistinctKeys, DistinctKeys-put, get-put}
use ztna_lab.Base.Counts.{count, count-put_new, count_two_keys}
use ztna_lab.Ipam.{hosts}
use ztna_lab.Ipam.Leases.{count-address_range}
use Prim.Native.Nat.{◌-◌, ◌^◌}
use ztna_lab.Dnsmap.{
  init, FakeDnsMap, DnsError, canonical, register, register_checked, register_found, register_new,
  resolve,
}

-- `all` are the addresses that the map was made with.
pub record IsDnsMap (all : List ℕ) (m : FakeDnsMap) : Type 0 where
  -- Every address is left or given to a name, as often as the map was made with it.
  pub conserved : (a : ℕ) → count a m.addresses + count a (values m.mapping) ≡ count a all
  pub distinct : (a : ℕ) → count a all ≤ 1
  pub keyed : DistinctKeys m.mapping

-- What a call of `register` keeps and gives: `m` before it, and `r` what it leaves and returns.
pub record IsRegistered (all : List ℕ) (name : Text) (m : FakeDnsMap)
    (r : FakeDnsMap × Result DnsError ℕ) : Type 0 where
  pub well_formed : IsDnsMap all r.0
  pub kept : (j : Text) (b : ℕ) → Dict.get j m.mapping ≡ some b → Dict.get j r.0.mapping ≡ some b
  pub given : (a : ℕ) → r.1 ≡ ok a → Dict.get name r.0.mapping ≡ some a
  pub unshared : (j : Text) (a : ℕ) → r.1 ≡ ok a → j ≢ name → Dict.get j r.0.mapping ≢ some a

names_differ :
    (all : List ℕ) (m : FakeDnsMap) (j k : Text) (a : ℕ)
    → IsDnsMap all m
    → j ≢ k
    → Dict.get k m.mapping ≡ some a
    → Dict.get j m.mapping ≢ some a
names_differ all m j k a h ne pk pj =
    omega (arith, count_two_keys j k a m.mapping ne pj pk, h.conserved a, h.distinct a)

module _ (all : List ℕ) (name : Text) (m : FakeDnsMap) (h : IsDnsMap all m) where
  unchanged-IsRegistered : (e : DnsError) → IsRegistered all name m (m, err e)
  unchanged-IsRegistered e = record {
    well_formed = h;
    kept = λ j b p. p;
    given = λ a p. cc p;
    unshared = λ j a p. cc p;
  }

  found-IsRegistered :
      (a : ℕ) → Dict.get name m.mapping ≡ some a → IsRegistered all name m (m, ok a)
  found-IsRegistered a found = record {
    well_formed = h;
    kept = λ j b p. p;
    given = λ b p. cc;
    unshared = λ j b p ne. names_differ all m j name b h ne (cc);
  }

  new-IsDnsMap :
      (a : ℕ) (rest : List ℕ)
      → m.addresses ≡ a ∷ rest
      → Dict.get name m.mapping ≡ none
      → IsDnsMap all (record { addresses = rest; mapping = Dict.put name a m.mapping })
  new-IsDnsMap a rest e new = record {
    conserved = λ b. ground (arith, h.conserved b, count-put_new b name a m.mapping new);
    distinct = h.distinct;
    keyed = DistinctKeys-put name a m.mapping h.keyed;
  }

  new-IsRegistered :
      (xs : List ℕ)
      → m.addresses ≡ xs
      → Dict.get name m.mapping ≡ none
      → IsRegistered all name m (register_new name xs m)
  unfolding register_new
  new-IsRegistered [] e new = unchanged-IsRegistered _
  new-IsRegistered (a ∷ rest) e new =
      let made = new-IsDnsMap a rest e new in
      let self = Dict.get-put_self name a m.mapping in
      record {
        well_formed = made;
        kept = λ j b p. ground (arith, get-put name j a m.mapping, text_eq_iff name j);
        given = λ b p. cc;
        unshared = λ j b p ne. names_differ all _ j name b made ne (cc);
      }

  lookup-IsRegistered :
      (o : Option ℕ)
      → Dict.get name m.mapping ≡ o
      → IsRegistered all name m (register_found name o m)
  unfolding register_found
  lookup-IsRegistered (some a) e = found-IsRegistered a e
  lookup-IsRegistered none e = new-IsRegistered m.addresses refl e

  checked-IsRegistered : (b : Bool) → IsRegistered all name m (register_checked name b m)
  unfolding register_checked
  checked-IsRegistered true = unchanged-IsRegistered _
  checked-IsRegistered false = lookup-IsRegistered (Dict.get name m.mapping) refl

pub register-IsRegistered :
    (lower : Text → Text) (all : List ℕ) (domain : Text) (m : FakeDnsMap)
    → IsDnsMap all m
    → IsRegistered all (canonical lower domain) m (register lower domain m)
unfolding register
register-IsRegistered lower all domain m h = checked-IsRegistered all (canonical lower domain) m h _

-- In a well-formed map, a name that `register` gives an address resolves to it afterwards, no other
-- name does, and every name that had an address keeps it.
pub register-resolve :
    (lower : Text → Text) (all : List ℕ) (domain : Text) (m : FakeDnsMap) (a : ℕ)
    → IsDnsMap all m
    → (register lower domain m).1 ≡ ok a
    → (resolve lower domain (register lower domain m).0 ≡ some a)
      × ((other : Text)
          → canonical lower other ≢ canonical lower domain
          → resolve lower other (register lower domain m).0 ≢ some a)
      × ((other : Text) (b : ℕ)
          → resolve lower other m ≡ some b
          → resolve lower other (register lower domain m).0 ≡ some b)
unfolding resolve
register-resolve lower all domain m a h e =
    let r = register-IsRegistered lower all domain m h in
    (
      r.given a e,
      λ other ne. r.unshared (canonical lower other) a e ne,
      λ other b p. r.kept (canonical lower other) b p,
    )

pub init-IsDnsMap :
    (base prefixlen : ℕ) (m : FakeDnsMap)
    → init base prefixlen ≡ ok m
    → IsDnsMap (hosts base prefixlen) m
unfolding init hosts
init-IsDnsMap base prefixlen m e =
    let fresh : (m.addresses ≡ hosts base prefixlen) × (m.mapping ≡ []) = ground arith in
    record {
      conserved = λ a. ground (arith, fresh.0, fresh.1);
      distinct = λ a. (count-address_range a (base + 1) (2 ^ (32 - prefixlen) - 2)).1;
      keyed = rw fresh.1 tt;
    }
