-- ===== src/Audit.antt =====
-- `AuditLog` of labztna/audit.py. A label is a text already; the time stamp is an argument.
use ztna_lab.Base.{
  ℕ, not, ◌&&◌, Option, none, some, List, [], ◌∷◌, ◌++◌, leb, ltb, if◌then◌else◌, take, drop,
  length, Text, Result, ok, err,
}

pub record AuditEvent : Type 0 where
  pub timestamp : Text
  pub event : Text
  pub outcome : Text
  pub subject : Option Text
  pub resource : Option Text
  pub device_id : Option Text
  pub request_id : Option Text
  pub detail : Option Text

pub data AuditError : Type 0 where
  invalid_size : AuditError

-- A `deque` with its `maxlen`.
pub record AuditLog : Type 0 where
  pub events : List AuditEvent
  pub max_events : ℕ

unfoldable pub new_log : ℕ → Result AuditError AuditLog
new_log max_events =
    if not (leb 1 max_events && leb max_events 100000)
    then err invalid_size
    else ok (record { events = []; max_events = max_events })

abbrev cut_label : ℕ → Option Text → Option Text
cut_label n none = none
cut_label n (some t) = some (take n t)

-- What `record` keeps of the labels that it is given.
abbrev pub truncated : AuditEvent → AuditEvent
truncated e = record {
  timestamp = e.timestamp;
  event = take 64 e.event;
  outcome = take 32 e.outcome;
  subject = cut_label 128 e.subject;
  resource = cut_label 128 e.resource;
  device_id = cut_label 128 e.device_id;
  request_id = cut_label 128 e.request_id;
  detail = cut_label 256 e.detail;
}

-- `deque.append`: a full deque drops its oldest item.
abbrev pub push_bounded {ℓ} : {A : Type ℓ} → ℕ → List A → A → List A
push_bounded limit xs x = let ys = xs ++ x ∷ [] in if ltb limit (length ys) then drop 1 ys else ys

-- The method `record`.
unfoldable pub record_event : AuditEvent → AuditLog → AuditLog
record_event e log = record log { events = push_bounded log.max_events log.events (truncated e) }
