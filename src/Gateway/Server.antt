-- ===== src/Gateway/Server.antt =====
-- `_TLSGatewayServer` of labztna/gateway.py, and `start` and `stop` of its `Gateway`. The TLS
-- handshake and the start of a thread may fail: whether they do is an argument. A slot is one unit
-- of the `BoundedSemaphore`, whose `release` raises `ValueError` at its first value.
use ztna_lab.Base.{
  ℕ, ◌+◌, ◌-◌, ◌≡◌, ◌↔◌, refl, Bool, true, false, not, List, [], ◌∷◌, arith, ltb, ◌==◌,
  if◌then◌else◌,
}

abbrev pub max_connections : ℕ
max_connections = 32

-- The slots that are free, the threads that handle a connection, and whether a `release` has raised.
pub record Server : Type 0 where
  pub slots : ℕ
  pub threads : ℕ
  pub overreleased : Bool

abbrev pub new_server : Server
new_server = record { slots = max_connections; threads = 0; overreleased = false }

-- How the server leaves a connection that it was offered.
pub data Offered : Type 0 where
  not_wrapped dropped not_started handled : Offered

unfoldable pub release_slot : Server → Server
release_slot s =
    if ltb s.slots max_connections
    then record s { slots = s.slots + 1 }
    else record s { overreleased = true }

-- `process_request`, where `starts` says whether the thread is started.
unfoldable pub process_request : Bool → Server → Server × Offered
process_request starts s =
    if s.slots == 0
    then (s, dropped)
    else let taken : Server = record s { slots = s.slots - 1 } in
      if starts
      then (record taken { threads = taken.threads + 1 }, handled)
      else (release_slot taken, not_started)

-- `get_request`, and what the server does with the connection.
unfoldable pub get_request : Bool → Bool → Server → Server × Offered
get_request wraps starts s = if not wraps then (s, not_wrapped) else process_request starts s

-- The end of `process_request_thread` in a thread, if there is one, also where the handler raised.
unfoldable pub process_request_thread : Server → Server
process_request_thread s =
    if s.threads == 0 then s else release_slot (record s { threads = s.threads - 1 })

pub data Event : Type 0 where
  offer : Bool → Bool → Event
  thread_end : Event

unfoldable pub serve : Event → Server → Server
serve (offer wraps starts) s = (get_request wraps starts s).0
serve thread_end s = process_request_thread s

-- A server after events, the last one first.
unfoldable pub serve_all : List Event → Server
serve_all [] = new_server
serve_all (e ∷ es) = serve e (serve_all es)

-- Each slot is free or is held by one thread, and no `release` has raised.
pub record IsServer (s : Server) : Type 0 where
  pub shared : s.slots + s.threads ≡ max_connections
  pub released : s.overreleased ≡ false

serve-IsServer : (e : Event) (s : Server) → IsServer s → IsServer (serve e s)
unfolding serve get_request process_request process_request_thread release_slot
serve-IsServer (offer wraps starts) s h = ground arith
serve-IsServer thread_end s h = ground arith

-- After any events, each of the 32 slots is free or is held by one thread, so that no more than 32
-- connections are handled at once, and no release of a slot has raised.
pub serve_all-IsServer : (es : List Event) → IsServer (serve_all es)
unfolding serve_all
serve_all-IsServer [] = record { shared = refl; released = refl }
serve_all-IsServer (e ∷ es) = serve-IsServer e (serve_all es) (serve_all-IsServer es)

dropped_full :
    (starts : Bool) (s : Server)
    → IsServer s
    → ((get_request true starts s).1 ≡ dropped) ↔ (s.threads ≡ 32)
unfolding get_request process_request
dropped_full starts s h = ground arith

-- After any events, a connection whose TLS handshake succeeds is dropped exactly if 32 connections
-- are being handled.
pub get_request-dropped :
    (es : List Event) (starts : Bool)
    → ((get_request true starts (serve_all es)).1 ≡ dropped) ↔ ((serve_all es).threads ≡ 32)
get_request-dropped es starts = dropped_full starts (serve_all es) (serve_all-IsServer es)

-- The life of a `Gateway`: `_started`, whether the loop of the server runs, and whether its socket
-- is closed.
pub record Life : Type 0 where
  pub started : Bool
  pub serving : Bool
  pub is_closed : Bool

unfoldable pub start : Life → Life
start g = if g.started then g else record g { serving = true; started = true }

unfoldable pub stop : Life → Life
stop g =
    if not g.started
    then record g { is_closed = true }
    else record { started = false; serving = false; is_closed = true }
