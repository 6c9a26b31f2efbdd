-- ===== src/Tests/Servers.antt =====
-- The connections of labztna/gateway.py.
use ztna_lab.Base.{ℕ, zero, suc, ◌≡◌, ◌↔◌, refl, true, false, List, [], ◌∷◌, nat_eq}
use ztna_lab.Gateway.Server.{
  Event, offer, thread_end, dropped, handled, release_slot, process_request, get_request,
  process_request_thread, serve, serve_all, get_request-dropped, Life, start, stop,
}

program : Unit {0}
unfolding release_slot process_request get_request process_request_thread serve serve_all start stop
program = tt

abbrev offers : ℕ → List Event
offers zero = []
offers (suc n) = offer true true ∷ offers n

full : (get_request true true (serve_all (offers 32))).1 ≡ dropped
unfolding program
full = refl

-- A slot is free again once a thread has ended, and one that was never started holds none.
free_again :
    (get_request true true (serve_all (thread_end ∷ offer true false ∷ offers 31))).1 ≡ handled
unfolding program
free_again = refl

abbrev unstarted : Life
unstarted = record { started = false; serving = false; is_closed = false }

restarted :
    start (stop (start unstarted)) ≡ record { started = true; serving = true; is_closed = true }
unfolding program
restarted = refl

get_request-dropped_example :
    ((get_request true true (serve_all (offers 32))).1 ≡ dropped)
    ↔ ((serve_all (offers 32)).threads ≡ 32)
get_request-dropped_example = get_request-dropped (offers 32) true
