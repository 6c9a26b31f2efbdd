-- ===== src/Tests/Sessions.antt =====
-- A store over the two addresses of 100.64.0.0/30.
use ztna_lab.Base.{
  text_key, nat_eq, ℕ, ◌+◌, ◌≡◌, ◌≢◌, ◌↔◌, ◌⊎◌, refl, true, false, none, some, List, [], ◌∷◌, arith,
  Text, codes, text_eq, ok, err,
}
use ztna_lab.Base.Dict
use ztna_lab.Base.Dict.{values}
use ztna_lab.Base.Counts.{count}
use ztna_lab.Ipam
use ztna_lab.Ipam.{Pool, hosts, address_range, discard, allocate, release, pool_exhausted}
use ztna_lab.Policy.{DevicePosture}
use ztna_lab.Session.{
  Session, SessionStore, init, sweep, reclaimed_ids, release_all, scavenge, create, drop_session,
  get_active, heartbeat, revoke,
}
use ztna_lab.Session.Invariant.{IsStore, address_of}
use ztna_lab.Session.Expiry.{
  IsCurrent, get_active-IsCurrent, get_active_refused, IsReclaimed, scavenge-IsCurrent,
}
use ztna_lab.Session.Calls.{Call, creates, perform, perform_all}
use ztna_lab.Session.Generations.{Increasing, generations_given}
use ztna_lab.Session.Reach.{perform_all-IsStore, addresses_differ, addresses_conserved}

program : Unit {0}
unfolding Ipam.init hosts address_range discard allocate release init sweep reclaimed_ids
    release_all scavenge create drop_session get_active heartbeat revoke perform perform_all
    Dict.get Dict.put Dict.remove text_eq
program = tt

abbrev base : ℕ
base = 1681915904

abbrev device : DevicePosture
device = record {
  device_id = codes "laptop";
  os = codes "windows-lab";
  managed = true;
  client_version = codes "ztna-lab/0.2";
  public_key = [];
}

abbrev pool : Pool
pool = record { available = 1681915905 ∷ 1681915906 ∷ []; allocated = []; released = [] }

abbrev store : SessionStore
store = record {
  ip_pool = pool;
  ttl_seconds = 300;
  absolute_ttl_seconds = 3600;
  idle_seconds = 120;
  sessions = [];
  lease_generation = 0;
}

pool_made : Ipam.init base 30 ≡ ok pool
unfolding program
pool_made = refl

store_made : init pool 300 3600 120 ≡ ok store
unfolding program
store_made = refl

abbrev id_a : Text
id_a = codes "a"

abbrev id_b : Text
id_b = codes "b"

abbrev two_logins : List Call
two_logins =
    creates 1000 1000 (codes "u") device id_a ∷ creates 1010 1010 (codes "v") device id_b ∷ []

abbrev session_a : Session
session_a = record {
  session_id = id_a;
  subject = codes "u";
  posture = device;
  virtual_ip = 1681915905;
  lease_generation = 1;
  expires_at = 1300;
  absolute_expires_at = 4600;
  last_seen = 1000;
  revoked = false;
}

abbrev session_b : Session
session_b = record {
  session_id = id_b;
  subject = codes "v";
  posture = device;
  virtual_ip = 1681915906;
  lease_generation = 2;
  expires_at = 1310;
  absolute_expires_at = 4610;
  last_seen = 1010;
  revoked = false;
}

abbrev busy : SessionStore
busy = perform_all two_logins store

found_a : Dict.get id_a busy.sessions ≡ some session_a
unfolding program
found_a = refl

found_b : Dict.get id_b busy.sessions ≡ some session_b
unfolding program
found_b = refl

-- The third login finds no address.
exhausted : (create 1020 1020 (codes "w") device (codes "c") busy).1 ≡ err pool_exhausted
unfolding program
exhausted = refl

-- Once the first two are idle, their addresses are given out again.
reused :
    (create 1200 1200 (codes "w") device (codes "c") busy).1
    ≡ ok (record session_a {
      session_id = codes "c";
      subject = codes "w";
      lease_generation = 3;
      expires_at = 1500;
      absolute_expires_at = 4800;
      last_seen = 1200;
    })
unfolding program
reused = refl

abbrev beaten : Session
beaten = record session_a { expires_at = 1350; last_seen = 1050 }

heartbeat_a : (heartbeat 1050 id_a busy).1 ≡ some beaten
unfolding program
heartbeat_a = refl

late_refused : (get_active 1121 id_a busy).1 ≡ none
unfolding program
late_refused = refl

ids_differ : id_a ≢ id_b
ids_differ = ground arith

addresses_differ_example : session_a.virtual_ip ≢ session_b.virtual_ip
addresses_differ_example =
    addresses_differ base 30 300 3600 120 pool store pool_made store_made two_logins id_a id_b
      session_a session_b ids_differ found_a found_b

perform_all-IsStore_example :
    IsStore (hosts base 30) (perform_all two_logins store)
    × Increasing 0 (generations_given two_logins store)
perform_all-IsStore_example =
    perform_all-IsStore base 30 300 3600 120 pool store pool_made store_made two_logins

-- The invariant of the busy store, for the tests below.
busy-IsStore : IsStore (hosts base 30) busy
busy-IsStore =
    (perform_all-IsStore base 30 300 3600 120 pool store pool_made store_made two_logins).0

addresses_conserved_example :
    count 1681915906 busy.ip_pool.available + count 1681915906 (values busy.ip_pool.allocated)
    ≡ count 1681915906 (hosts base 30)
addresses_conserved_example =
    addresses_conserved base 30 300 3600 120 pool store pool_made store_made two_logins 1681915906

get_active-IsCurrent_example :
    ((get_active 1050 id_a busy).1 ≡ some session_a)
    ↔ ((Dict.get id_a busy.sessions ≡ some session_a) × IsCurrent busy.idle_seconds 1050 session_a)
get_active-IsCurrent_example = get_active-IsCurrent 1050 id_a busy session_a

get_active_refused_example :
    (Dict.get id_a (get_active 1121 id_a busy).0.sessions ≡ none)
    × (Dict.get id_a (get_active 1121 id_a busy).0.ip_pool.allocated ≡ none)
get_active_refused_example =
    get_active_refused 1121 id_a busy (hosts base 30) busy-IsStore late_refused

scavenge-IsCurrent_example :
    ((Dict.get id_b (scavenge 1125 busy).0.sessions ≡ some session_b) ↔ (
      (Dict.get id_b busy.sessions ≡ some session_b) × IsCurrent busy.idle_seconds 1125 session_b))
    × (Dict.get id_b (scavenge 1125 busy).0.ip_pool.allocated
        ≡ address_of (Dict.get id_b (scavenge 1125 busy).0.sessions))
    × ((Dict.get id_b (scavenge 1125 busy).0.sessions ≡ Dict.get id_b busy.sessions)
        ⊎ IsReclaimed 1125 id_b busy)
scavenge-IsCurrent_example =
    scavenge-IsCurrent 1125 id_b busy (hosts base 30) session_b busy-IsStore
