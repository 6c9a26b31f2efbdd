-- ===== src/Tests/Replays.antt =====
-- The replay guard with a window of two ids.
use ztna_lab.Base.{
  ◌≡◌, refl, true, false, not, [], ◌∷◌, contains, pair_key, pair_eq, text_eq, codes,
}
use ztna_lab.Replay.{Key, empty, consume, evict, consume_request_id, consume_control_request_id}
use ztna_lab.Replay.Window.{
  Tracks, empty-Tracks, keep_last, record_accepted, consume_all, consume-Tracks,
}

abbrev first : Key
first = (codes "s", codes "a")

abbrev second : Key
second = (codes "s", codes "b")

abbrev third : Key
third = (codes "s", codes "c")

program : Unit {0}
unfolding consume evict pair_eq text_eq consume_request_id consume_control_request_id
program = tt

-- Two newer ids push an id out of a window of two.
forgotten : (consume 2 first (consume_all 2 (first ∷ second ∷ third ∷ []) empty)).1 ≡ true
unfolding program
forgotten = refl

gateway_refuses :
    (consume_request_id first.0 first.1 (consume_request_id first.0 first.1 empty).0).1 ≡ false
unfolding program
gateway_refuses = refl

control_refuses :
    (consume_control_request_id first.0 first.1
      (consume_control_request_id first.0 first.1 empty).0).1
    ≡ false
unfolding program
control_refuses = refl

first_accepted : (consume 2 first empty).1 ≡ true
unfolding program
first_accepted = refl

consume-Tracks_example :
    ((consume 2 first empty).1 ≡ not (contains first (keep_last 2 [])))
    × Tracks 2 (record_accepted first (consume 2 first empty).1 []) (consume 2 first empty).0
consume-Tracks_example = consume-Tracks 2 [] first empty (empty-Tracks 2)
