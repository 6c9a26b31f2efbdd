-- ===== src/Replay/Window.antt =====
-- The replay guard of labztna/gateway.py and labztna/control.py against a guard that forgets
-- nothing: it refuses exactly the last `limit` ids that were accepted.
use mathlib.Core.Path.{subst}
use native.Mathlib.Nat.{zero-add, suc-add}
use ztna_lab.Base.{
  drop-append, pair_key, pair_eq_iff, ℕ, zero, suc, ◌+◌, ◌-◌, ◌≤◌, ◌<◌, ◌≡◌, refl, sym, ap, ◌∙◌,
  inl, inr, Bool, true, false, not, ◌&&◌, ◌||◌, List, [], ◌∷◌, ◌++◌, append_assoc, arith, ltb,
  length, length-append, length-drop, drop, contains, Bool-cases,
}
use ztna_lab.Replay.{Key, ReplayGuard, empty, discard, evict, consume}

-- The last `n` members of a list.
abbrev pub keep_last : ℕ → List Key → List Key
keep_last n ks = drop (length ks - n) ks

contains-append :
    (k : Key) (xs ys : List Key) → contains k (xs ++ ys) ≡ contains k xs || contains k ys
contains-append k [] ys = refl
contains-append k (x ∷ xs) ys = ground (arith, contains-append k xs ys)

contains-discard :
    (k j : Key) (ks : List Key)
    → contains k (discard j ks) ≡ contains k ks && not (pair_key.beq k j)
unfolding discard
contains-discard k j [] = ground arith
contains-discard k j (i ∷ ks) =
    ground (arith, contains-discard k j ks, pair_eq_iff k j, pair_eq_iff k i, pair_eq_iff i j)

evict-order :
    (limit : ℕ) (ids order : List Key)
    → (evict limit ids order).replay_order ≡ keep_last limit order
unfolding evict
evict-order limit ids [] = let e : 0 - limit ≡ 0 = omega arith in rw e
evict-order limit ids (k ∷ order) = elim (Bool-cases (ltb limit (suc (length order)))) [
  | inl more ↦
      let e : suc (length order) - limit ≡ suc (length order - limit) = ground arith in
      rw (more, e) (evict-order limit (discard k ids) order)
  | inr fits ↦ let e : suc (length order) - limit ≡ 0 = ground arith in rw (fits, e)
]

abbrev Distinct : List Key → Type 0
Distinct [] = Unit
Distinct (k ∷ ks) = (contains k ks ≡ false) × Distinct ks

Distinct-append :
    (k : Key) (ks : List Key) → contains k ks ≡ false → Distinct ks → Distinct (ks ++ k ∷ [])
Distinct-append k [] c h = (refl, tt)
Distinct-append k (j ∷ ks) c h = (
  ground (arith, contains-append j ks (k ∷ []), h.0, pair_eq_iff j k, pair_eq_iff k j),
  Distinct-append k ks (ground arith) h.1,
)

Distinct-drop : (n : ℕ) (ks : List Key) → Distinct ks → Distinct (drop n ks)
Distinct-drop zero ks h = h
Distinct-drop (suc n) [] h = tt
Distinct-drop (suc n) (k ∷ ks) h = Distinct-drop n ks h.1

evict_agree :
    (limit : ℕ) (ids order : List Key)
    → Distinct order
    → ((k : Key) → contains k ids ≡ contains k order)
    → (k : Key)
    → contains k (evict limit ids order).replay_ids
      ≡ contains k (evict limit ids order).replay_order
unfolding evict
evict_agree limit ids [] d h k = h k
evict_agree limit ids (old ∷ order) d h k = elim (Bool-cases (ltb limit (suc (length order)))) [
  | inl more ↦ rw more (evict_agree limit (discard old ids) order d.1 still k)
  | inr fits ↦ rw fits (h k)
]
  where
    still : (j : Key) → contains j (discard old ids) ≡ contains j order
    still j = ground (arith, contains-discard j old ids, h j, d.0, pair_eq_iff j old)

drop-drop : (m n : ℕ) (ks : List Key) → drop n (drop m ks) ≡ drop (m + n) ks
drop-drop zero n ks = rw zero-add
drop-drop (suc m) zero [] = rw suc-add
drop-drop (suc m) (suc n) [] = rw suc-add
drop-drop (suc m) n (k ∷ ks) = rw suc-add (drop-drop m n ks)

keep_last-append :
    (limit : ℕ) (h : List Key) (k : Key)
    → keep_last limit (keep_last limit h ++ k ∷ []) ≡ keep_last limit (h ++ k ∷ [])
keep_last-append limit h k =
    let m = length h - limit in
    let front : drop m (h ++ k ∷ []) ≡ drop m h ++ k ∷ [] =
      drop-append m h (k ∷ []) (omega arith) in
    let size : m + (length (drop m h ++ k ∷ []) - limit) ≡ length (h ++ k ∷ []) - limit =
      omega (arith, length-append (drop m h) (k ∷ []), length-append h (k ∷ []), length-drop m h) in
    ap (drop (length (drop m h ++ k ∷ []) - limit)) (sym front)
    ∙ drop-drop m (length (drop m h ++ k ∷ []) - limit) (h ++ k ∷ [])
    ∙ ap (λ (n : ℕ). drop n (h ++ k ∷ [])) size

-- `history` is every key that was accepted so far, the oldest first. The guard has the last `limit`
-- of them, in that order, in both of its containers.
pub record Tracks (limit : ℕ) (history : List Key) (g : ReplayGuard) : Type 0 where
  pub window : g.replay_order ≡ keep_last limit history
  pub agree : (k : Key) → contains k g.replay_ids ≡ contains k g.replay_order
  pub distinct : Distinct g.replay_order

abbrev pub record_accepted : Key → Bool → List Key → List Key
record_accepted k true history = history ++ k ∷ []
record_accepted k false history = history

-- One call accepts a key exactly if it is not among the last `limit` accepted keys, and then the
-- guard follows the longer history.
pub consume-Tracks :
    (limit : ℕ) (history : List Key) (k : Key) (g : ReplayGuard)
    → Tracks limit history g
    → ((consume limit k g).1 ≡ not (contains k (keep_last limit history)))
      × Tracks limit (record_accepted k (consume limit k g).1 history) (consume limit k g).0
unfolding consume
consume-Tracks limit history k g t = elim (Bool-cases (contains k g.replay_ids)) [
  | inl old ↦ (ground (arith, t.agree k, seen), rw old t)
  | inr new ↦ (ground (arith, t.agree k, seen), rw new (accepted new))
]
  where
    seen : contains k g.replay_order ≡ contains k (keep_last limit history)
    seen = ap (contains k) t.window

    order : List Key
    order = g.replay_order ++ k ∷ []

    accepted :
        contains k g.replay_ids ≡ false
        → Tracks limit (history ++ k ∷ []) (evict limit (k ∷ g.replay_ids) order)
    accepted new =
        let absent : contains k g.replay_order ≡ false = sym (t.agree k) ∙ new in
        let once : Distinct order = Distinct-append k g.replay_order absent t.distinct in
        let kept = evict-order limit (k ∷ g.replay_ids) order in
        record {
          window =
              kept
              ∙ ap (λ (ks : List Key). keep_last limit (ks ++ k ∷ [])) t.window
              ∙ keep_last-append limit history k;
          agree =
              evict_agree limit (k ∷ g.replay_ids) order once
                (λ j. ground (arith, contains-append j g.replay_order (k ∷ []), t.agree j));
          distinct = rw kept (Distinct-drop (length order - limit) order once);
        }

-- A key that is accepted is none of the last `limit` accepted keys.
pub consume_accepted :
    (limit : ℕ) (history : List Key) (k : Key) (g : ReplayGuard)
    → Tracks limit history g
    → (consume limit k g).1 ≡ true
    → (contains k (keep_last limit history) ≡ false)
      × Tracks limit (history ++ k ∷ []) (consume limit k g).0
consume_accepted limit history k g t accepted =
    let (exact, follows) = consume-Tracks limit history k g t in
    (
      ground (arith, exact, accepted),
      subst (λ (b : Bool). Tracks limit (record_accepted k b history) (consume limit k g).0)
          accepted follows,
    )

-- A call accepts exactly the keys that the guard does not hold.
pub consume_new :
    (limit : ℕ) (k : Key) (g : ReplayGuard)
    → contains k g.replay_ids ≡ false
    → (consume limit k g).1 ≡ true
unfolding consume
consume_new limit k g new = rw new refl

pub consume_unused :
    (limit : ℕ) (k : Key) (g : ReplayGuard)
    → (consume limit k g).1 ≡ true
    → contains k g.replay_ids ≡ false
unfolding consume
consume_unused limit k g accepted = ground arith

pub empty-Tracks : (limit : ℕ) → Tracks limit [] empty
empty-Tracks limit =
    let e : 0 - limit ≡ 0 = omega arith in
    record { window = rw e; agree = λ k. refl; distinct = tt }

-- Calls one after another, with the history that they make.
abbrev pub consume_all : ℕ → List Key → ReplayGuard → ReplayGuard
consume_all limit [] g = g
consume_all limit (k ∷ ks) g = consume_all limit ks (consume limit k g).0

abbrev pub history_after : ℕ → List Key → ReplayGuard → List Key → List Key
history_after limit [] g history = history
history_after limit (k ∷ ks) g history =
    history_after limit ks (consume limit k g).0 (record_accepted k (consume limit k g).1 history)

consume_all-Tracks :
    (limit : ℕ) (ks history : List Key) (g : ReplayGuard)
    → Tracks limit history g
    → Tracks limit (history_after limit ks g history) (consume_all limit ks g)
consume_all-Tracks limit [] history g t = t
consume_all-Tracks limit (k ∷ ks) history g t =
    consume_all-Tracks limit ks (record_accepted k (consume limit k g).1 history)
      (consume limit k g).0 (consume-Tracks limit history k g t).1

-- A key of the history stays in the window while fewer than `limit` keys have come after it.
record Recent (k : Key) (n : ℕ) (history : List Key) : Type 0 where
  before : List Key
  after : List Key
  split : history ≡ before ++ k ∷ after
  close : length after ≤ n

Recent-record :
    (k j : Key) (n : ℕ) (b : Bool) (history : List Key)
    → Recent k n history
    → Recent k (n + 1) (record_accepted j b history)
Recent-record k j n true history r = record {
  before = r.before;
  after = r.after ++ j ∷ [];
  split = ap (λ (h : List Key). h ++ j ∷ []) r.split ∙ append_assoc r.before (k ∷ r.after) (j ∷ []);
  close = omega (arith, r.close, length-append r.after (j ∷ []));
}
Recent-record k j n false history r = record {
  before = r.before;
  after = r.after;
  split = r.split;
  close = omega (arith, r.close);
}

Recent-history_after :
    (limit n : ℕ) (k : Key) (ks history : List Key) (g : ReplayGuard)
    → Recent k n history
    → Recent k (n + length ks) (history_after limit ks g history)
Recent-history_after limit n k [] history g r = record {
  before = r.before;
  after = r.after;
  split = r.split;
  close = omega (arith, r.close);
}
Recent-history_after limit n k (j ∷ ks) history g r =
    let g' = (consume limit j g).0 in
    let history' = record_accepted j (consume limit j g).1 history in
    let r' =
      Recent-history_after limit (n + 1) k ks history' g'
        (Recent-record k j n (consume limit j g).1 history r) in
    record {
      before = r'.before;
      after = r'.after;
      split = r'.split;
      close = omega (arith, r'.close);
    }

contains-keep_last :
    (limit : ℕ) (k : Key) (history : List Key)
    → Recent k (limit - 1) history
    → 1 ≤ limit
    → contains k (keep_last limit history) ≡ true
contains-keep_last limit k history r pos =
    let n = length history - limit in
    let fits : n ≤ length r.before =
      omega (arith, r.close, ap length r.split, length-append r.before (k ∷ r.after)) in
    ap (λ (h : List Key). contains k (drop n h)) r.split
    ∙ ap (contains k) (drop-append n r.before (k ∷ r.after) fits)
    ∙ ground (arith, contains-append k (drop n r.before) (k ∷ r.after), pair_eq_iff k k)

-- An id that was just accepted is refused again as long as fewer than `limit` calls have been made
-- since, whatever those calls were for.
pub consume_again :
    (limit : ℕ) (history ks : List Key) (k : Key) (g : ReplayGuard)
    → Tracks limit history g
    → length ks < limit
    → (consume limit k g).1 ≡ true
    → (consume limit k (consume_all limit ks (consume limit k g).0)).1 ≡ false
consume_again limit history ks k g t few accepted =
    let g' = (consume limit k g).0 in
    let history' = history ++ k ∷ [] in
    let t' : Tracks limit history' g' =
      subst (λ (b : Bool). Tracks limit (record_accepted k b history) g') accepted
        (consume-Tracks limit history k g t).1 in
    let start : Recent k 0 history' = record {
      before = history;
      after = [];
      split = refl;
      close = omega arith;
    } in
    let r = Recent-history_after limit 0 k ks history' g' start in
    let near : Recent k (limit - 1) (history_after limit ks g' history') = record {
      before = r.before;
      after = r.after;
      split = r.split;
      close = omega (arith, r.close);
    } in
    let held = contains-keep_last limit k (history_after limit ks g' history') near (omega arith) in
    (consume-Tracks limit (history_after limit ks g' history') k (consume_all limit ks g')
      (consume_all-Tracks limit ks history' g' t')).0
    ∙ ap not held
