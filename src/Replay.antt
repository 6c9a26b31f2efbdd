-- ===== src/Replay.antt =====
-- The replay guard that `Gateway.consume_request_id` of labztna/gateway.py and
-- `ControlPlane.consume_control_request_id` of labztna/control.py share line by line. The lock
-- makes a call one step. A set is a list whose order is not looked at.
pub mod Window
use ztna_lab.Base.{
  pair_key, ℕ, suc, Bool, true, false, List, [], ◌∷◌, ◌++◌, ltb, if◌then◌else◌, length, contains,
  Text, Eq,
}

-- A session id with a request id.
abbrev pub Key : Type 0
Key = Text × Text

pub record ReplayGuard : Type 0 where
  pub replay_ids : List Key
  pub replay_order : List Key

abbrev pub empty : ReplayGuard
empty = record { replay_ids = []; replay_order = [] }

-- `set.discard`
unfoldable pub discard : Key → List Key → List Key
discard k [] = []
discard k (j ∷ ks) = let rest = discard k ks in if pair_key.beq j k then rest else j ∷ rest

-- The loop that drops the oldest ids while there are more than `limit`.
unfoldable pub evict : ℕ → List Key → List Key → ReplayGuard
unfolding discard
evict limit ids [] = record { replay_ids = ids; replay_order = [] }
evict limit ids (old ∷ order) =
    let rest = evict limit (discard old ids) order in
    if ltb limit (suc (length order))
    then rest
    else record { replay_ids = ids; replay_order = old ∷ order }

unfoldable pub consume : ℕ → Key → ReplayGuard → ReplayGuard × Bool
consume limit key g =
    if contains key g.replay_ids
    then (g, false)
    else (evict limit (key ∷ g.replay_ids) (g.replay_order ++ key ∷ []), true)

abbrev pub max_replay_ids : ℕ
max_replay_ids = 4096

abbrev pub max_control_replay_ids : ℕ
max_control_replay_ids = 4096

-- `Gateway.consume_request_id`
unfoldable pub consume_request_id : Text → Text → ReplayGuard → ReplayGuard × Bool
consume_request_id session_id request_id = consume max_replay_ids (session_id, request_id)

-- `ControlPlane.consume_control_request_id`
unfoldable pub consume_control_request_id : Text → Text → ReplayGuard → ReplayGuard × Bool
consume_control_request_id session_id request_id =
    consume max_control_replay_ids (session_id, request_id)
