-- ===== src/Control/Routes/Logout.antt =====
-- Sessions across the routes of labztna/control.py.

use ztna_lab.Base.{
  text_key, ℕ, ◌≡◌, ◌≢◌, ◌⊎◌, refl, true, none, List, contains, Result, ok, err, drop,
}
use ztna_lab.Session.{Session, get_active}
use ztna_lab.Session.Calls.{Call, perform_all}
use ztna_lab.Session.Ended.{created_ids, get_active-perform_all-revoke}
use ztna_lab.Control.{ControlPlane, Unauthorized, undefined_name}
use ztna_lab.Control.Access.{IsAuthorized, authorized_session_checked}
use ztna_lab.Control.Routes.{Builtins, Exchange, logged_out, authorize, logout_as, post_logout}

module _ (b : Builtins) (e : Exchange) where
  not_logged_out : (c : ControlPlane) (u : Unauthorized) → (logout_as e (c, err u)).1 ≢ logged_out
  not_logged_out c undefined_name h = cc h
  not_logged_out c _ h = cc h

  logout_as_ends :
      (later : ℕ) (cs : List Call) (p : ControlPlane × Result Unauthorized Session)
      → (logout_as e p).1 ≡ logged_out
      → (s : Session) × (p.1 ≡ ok s)
        × ((contains s.session_id (created_ids cs) ≡ true)
            ⊎ ((get_active later s.session_id (perform_all cs (logout_as e p).0.sessions)).1
                ≡ none))
  logout_as_ends later cs (c, err u) h = absurd (not_logged_out c u h)
  logout_as_ends later cs (c, ok s) h =
      (s, refl, get_active-perform_all-revoke s.session_id later cs c.sessions)

  -- A logout that is answered with success was made by an authorized session. Whatever calls are
  -- made on the session store afterwards, either one of them creates a session under the same id,
  -- or the session is not active after them, at any time.
  pub post_logout_ends :
      (later : ℕ) (cs : List Call) (c : ControlPlane)
      → (post_logout b e c).1 ≡ logged_out
      → (s : Session) × IsAuthorized b.libraries b.parse_int e.verified e.seen e.now
          (b.strip (drop 7 e.request.authorization))
          e.request
          c
          s
        × ((contains s.session_id (created_ids cs) ≡ true)
            ⊎ ((get_active later s.session_id (perform_all cs (post_logout b e c).0.sessions)).1
                ≡ none))
  unfolding post_logout
  post_logout_ends later cs c h =
      let (s, authorized, ended) = logout_as_ends later cs (authorize b e c) h in
      (
        s,
        authorized_session_checked b.libraries b.parse_int b.strip e.verified e.seen e.now e.request
            c s authorized,
        ended,
      )
