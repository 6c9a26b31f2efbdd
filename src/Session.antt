-- ===== src/Session.antt =====
-- `SessionStore` of labztna/session.py. A method returns the new store with its result. The clock
-- is an argument, in whole units of `time.time()`; the secret session id of `create` is one too.
-- The locks make each method one step here.
pub mod Sweep
pub mod Invariant
pub mod Expiry
pub mod Calls
pub mod Generations
pub mod Reach
pub mod Ended
use ztna_lab.Base.{
  text_key, ℕ, ◌+◌, Bool, true, false, not, ◌&&◌, ◌||◌, Option, none, some, List, [], ◌∷◌, ◌++◌,
  min, leb, ltb, if◌then◌else◌, length, Text, Result, ok, err,
}
use ztna_lab.Base.Dict
use ztna_lab.Base.Dict.{Dict}
use ztna_lab.Ipam.{Pool, PoolError, allocate, release}
use ztna_lab.Policy.{DevicePosture}

pub record Session : Type 0 where
  pub session_id : Text
  pub subject : Text
  pub posture : DevicePosture
  pub virtual_ip : ℕ
  pub lease_generation : ℕ
  pub expires_at : ℕ
  pub absolute_expires_at : ℕ
  pub last_seen : ℕ
  pub revoked : Bool

pub record SessionStore : Type 0 where
  pub ip_pool : Pool
  pub ttl_seconds : ℕ
  pub absolute_ttl_seconds : ℕ
  pub idle_seconds : ℕ
  pub sessions : Dict Text Session
  pub lease_generation : ℕ

pub data ConfigError : Type 0 where
  ttl_range absolute_range idle_range : ConfigError

-- `__init__`
unfoldable pub init : Pool → ℕ → ℕ → ℕ → Result ConfigError SessionStore
init ip_pool ttl absolute idle =
    if not (leb 30 ttl && leb ttl 3600)
    then err ttl_range
    else if not (leb ttl absolute && leb absolute 86400)
    then err absolute_range
    else if not (leb 15 idle && leb idle ttl)
    then err idle_range
    else ok (record {
      ip_pool = ip_pool;
      ttl_seconds = ttl;
      absolute_ttl_seconds = absolute;
      idle_seconds = idle;
      sessions = [];
      lease_generation = 0;
    })

-- The three deadlines, as `get_active` and `heartbeat` test them.
abbrev pub is_over : ℕ → ℕ → Session → Bool
is_over idle now s =
    s.revoked
    || (ltb s.expires_at now || (ltb s.absolute_expires_at now || ltb (s.last_seen + idle) now))

-- The `continue` of `scavenge`.
abbrev pub is_live : ℕ → ℕ → Session → Bool
is_live idle now s =
    not s.revoked
    && (leb now s.expires_at && (leb now s.absolute_expires_at && leb now (s.last_seen + idle)))

-- The loop of `scavenge` over the snapshot of the items.
unfoldable pub sweep : ℕ → ℕ → Dict Text Session → Dict Text Session → Dict Text Session
sweep idle now [] sessions = sessions
sweep idle now ((session_id, s) ∷ items) sessions =
    sweep idle now items (if is_live idle now s then sessions else Dict.remove session_id sessions)

-- `reclaimed_ids` after that loop.
unfoldable pub reclaimed_ids : ℕ → ℕ → Dict Text Session → List Text
reclaimed_ids idle now [] = []
reclaimed_ids idle now ((session_id, s) ∷ items) =
    let rest = reclaimed_ids idle now items in
    if is_live idle now s || s.revoked then rest else session_id ∷ rest

unfoldable pub release_all : List Text → Pool → Pool
release_all [] p = p
release_all (session_id ∷ ids) p = release_all ids (release session_id p)

unfoldable pub scavenge : ℕ → SessionStore → SessionStore × ℕ
scavenge now st =
    let ids = reclaimed_ids st.idle_seconds now st.sessions in
    (
      record st {
        sessions = sweep st.idle_seconds now st.sessions st.sessions;
        ip_pool = release_all ids st.ip_pool;
      },
      length ids,
    )

-- The session that `create` makes.
abbrev pub new_session : ℕ → Text → DevicePosture → Text → ℕ → SessionStore → Session
new_session now subject posture session_id address st = record {
  session_id = session_id;
  subject = subject;
  posture = posture;
  virtual_ip = address;
  lease_generation = st.lease_generation + 1;
  expires_at = now + st.ttl_seconds;
  absolute_expires_at = now + st.absolute_ttl_seconds;
  last_seen = now;
  revoked = false;
}

create_with :
    ℕ
    → Text
    → DevicePosture
    → Text
    → SessionStore
    → Pool × Result PoolError ℕ
    → SessionStore × Result PoolError Session
create_with now subject posture session_id st (p, err e) = (record st { ip_pool = p }, err e)
create_with now subject posture session_id st (p, ok address) =
    let s = new_session now subject posture session_id address st in
    (
      record st {
        ip_pool = p;
        lease_generation = st.lease_generation + 1;
        sessions = Dict.put session_id s st.sessions;
      },
      ok s,
    )

-- `create`; `swept` is the clock as `scavenge` reads it.
unfoldable pub create :
    ℕ → ℕ → Text → DevicePosture → Text → SessionStore → SessionStore × Result PoolError Session
unfolding create_with
create swept now subject posture session_id st =
    let st' = (scavenge swept st).0 in
    create_with now subject posture session_id st' (allocate session_id st'.ip_pool)

-- The last part of `get_active` and `heartbeat`: the session is read again.
reread : Text → SessionStore → Option Session
reread session_id st = elim (Dict.get session_id st.sessions) [
  | none ↦ none
  | some s ↦ if s.revoked then none else some s
]

-- The session leaves the table, and its address goes back to the pool.
unfoldable pub drop_session : Text → SessionStore → SessionStore
drop_session session_id st = record st {
  sessions = Dict.remove session_id st.sessions;
  ip_pool = release session_id st.ip_pool;
}

get_active_found : ℕ → Text → SessionStore → Option Session → SessionStore × Option Session
get_active_found now session_id st none = (st, reread session_id st)
get_active_found now session_id st (some s) =
    if is_over st.idle_seconds now s
    then (drop_session session_id st, none)
    else (st, reread session_id st)

unfoldable pub get_active : ℕ → Text → SessionStore → SessionStore × Option Session
unfolding get_active_found reread
get_active now session_id st = get_active_found now session_id st (Dict.get session_id st.sessions)

-- A heartbeat's new deadlines.
abbrev pub renewed : ℕ → ℕ → Session → Session
renewed now ttl s = record s { last_seen = now; expires_at = min (now + ttl) s.absolute_expires_at }

heartbeat_found : ℕ → Text → SessionStore → Option Session → SessionStore × Option Session
heartbeat_found now session_id st none = (st, reread session_id st)
heartbeat_found now session_id st (some s) =
    let st' : SessionStore = record st {
      sessions = Dict.put session_id (renewed now st.ttl_seconds s) st.sessions;
    } in
    if is_over st.idle_seconds now s
    then (drop_session session_id st, none)
    else (st', reread session_id st')

unfoldable pub heartbeat : ℕ → Text → SessionStore → SessionStore × Option Session
unfolding heartbeat_found reread
heartbeat now session_id st = heartbeat_found now session_id st (Dict.get session_id st.sessions)

unfoldable pub revoke : Text → SessionStore → SessionStore × Bool
revoke session_id st = elim (Dict.get session_id st.sessions) [
  | none ↦ (st, false)
  | some _ ↦ (drop_session session_id st, true)
]
