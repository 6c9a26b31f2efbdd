-- ===== src/Session/Calls.antt =====
-- The calls that labztna/control.py and labztna/gateway.py make on the store of labztna/session.py.
use ztna_lab.Base.{ℕ, List, [], ◌∷◌, Text}
use ztna_lab.Policy.{DevicePosture}
use ztna_lab.Session.{SessionStore, scavenge, create, get_active, heartbeat, revoke}

-- A call of a method, with what it reads from the clock and from the random source.
pub data Call : Type 0 where
  creates : ℕ → ℕ → Text → DevicePosture → Text → Call
  gets : ℕ → Text → Call
  beats : ℕ → Text → Call
  revokes : Text → Call
  sweeps : ℕ → Call

unfoldable pub perform : Call → SessionStore → SessionStore
perform (creates swept now subject posture id) st = (create swept now subject posture id st).0
perform (gets now id) st = (get_active now id st).0
perform (beats now id) st = (heartbeat now id st).0
perform (revokes id) st = (revoke id st).0
perform (sweeps now) st = (scavenge now st).0

unfoldable pub perform_all : List Call → SessionStore → SessionStore
perform_all [] st = st
perform_all (c ∷ cs) st = perform_all cs (perform c st)
