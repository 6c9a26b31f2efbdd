-- ===== src/Gateway/Relay/Bounds.antt =====
-- The frames that the relay of labztna/gateway.py sends.
use ztna_lab.Base.{
  ℕ, ◌+◌, ◌≤◌, ◌≡◌, refl, ap, Bool, true, false, Option, none, some, List, [], ◌∷◌, map, arith,
  length, Text, Bytes, ltb,
}
use ztna_lab.Protocol.Frame.{Frame}
use ztna_lab.Protocol.Codec.Order.{count_from}
use ztna_lab.Session.{Session, SessionStore, get_active}
use ztna_lab.Gateway.Relay.{Round, max_relay_bytes, relay_answer, relay}

abbrev pub numbers : List Frame → List ℕ
numbers = map (λ f. f.sequence)

abbrev pub payload_total : List Frame → ℕ
payload_total [] = 0
payload_total (f ∷ fs) = length f.payload + payload_total fs

-- From the sequence number and the count of bytes on, the numbers are consecutive and the bytes
-- stay within the limit.
abbrev IsBounded : ℕ → ℕ → List Frame → Type 0
IsBounded sequence transferred fs =
    (numbers fs ≡ count_from sequence (length fs))
    × (transferred + payload_total fs ≤ max_relay_bytes)

module _ (sequence transferred : ℕ) (next : ℕ → ℕ → SessionStore → List Frame × SessionStore)
    (within : transferred ≤ max_relay_bytes)
    (later : (n total : ℕ) (st : SessionStore)
      → total ≤ max_relay_bytes
      → IsBounded n total (next n total st).0) where
  chunk-IsBounded :
      (st : SessionStore) (s : Session) (b : ℕ) (bs : Bytes) (over : Bool)
      → ltb max_relay_bytes (transferred + length (b ∷ bs)) ≡ over
      → IsBounded sequence transferred
          (relay_answer sequence transferred next (some (b ∷ bs)) (st, some s)).0
  chunk-IsBounded st s b bs true e = rw e (refl, omega arith)
  chunk-IsBounded st s b bs false e =
      let total = transferred + length (b ∷ bs) in
      let (ordered, few) = later (sequence + 1) total st (ground arith) in
      rw e (ap (◌∷◌ sequence) ordered, omega arith)

  relay_answer-IsBounded :
      (answer : Option Bytes) (p : SessionStore × Option Session)
      → IsBounded sequence transferred (relay_answer sequence transferred next answer p).0
  relay_answer-IsBounded answer (st, none) = (refl, omega arith)
  relay_answer-IsBounded none (st, some s) = later sequence transferred st within
  relay_answer-IsBounded (some []) (st, some s) = (refl, omega arith)
  relay_answer-IsBounded (some (b ∷ bs)) (st, some s) =
      chunk-IsBounded st s b bs (ltb max_relay_bytes (transferred + length (b ∷ bs))) refl

-- Whatever the upstream answers and however the session ends, the frames of the relay carry
-- consecutive sequence numbers, and their payloads with the bytes sent before are 4 MiB at most.
pub relay-IsBounded :
    (session_id : Text) (rounds : List Round) (sequence transferred : ℕ) (st : SessionStore)
    → transferred ≤ max_relay_bytes
    → (numbers (relay session_id rounds sequence transferred st).0
        ≡ count_from sequence (length (relay session_id rounds sequence transferred st).0))
      × (transferred + payload_total (relay session_id rounds sequence transferred st).0
          ≤ max_relay_bytes)
unfolding relay
relay-IsBounded session_id [] sequence transferred st h = (refl, omega arith)
relay-IsBounded session_id ((seen, answer) ∷ rounds) sequence transferred st h =
    relay_answer-IsBounded sequence transferred (relay session_id rounds) h
      (λ n total st' within. relay-IsBounded session_id rounds n total st' within) answer
      (get_active seen session_id st)
