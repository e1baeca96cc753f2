-- ===== src/History.antt =====
-- app/services/history.py: the log of the current attempt, over a database that may fail.

pub mod Lines
mod Tests
use openvpn_connect_web.Store.Sessions
use openvpn_connect_web.Store.Sessions.{
  Tables, append_lines, mark_session_connected, prune_sessions, keep_sessions, retention_days,
}
use openvpn_connect_web.Prelude.{
  List, Option, [], ap, arith, if◌then◌else◌, is_some, length, ltb, none, some, suc, ℕ, ◌++◌, ◌∷◌,
  ◌≡◌,
}
use openvpn_connect_web.Controller.State.{Recorder}
use openvpn_connect_web.Prelude.Text.{Text, nonempty, text}
use openvpn_connect_web.Prelude.Number.{ℤ}

-- What the database does at its n-th call: it fails (`none`), or works, at a time.
pub record History : Type 0 where
  pub db : Tables
  pub session_id : Option ℕ
  pub pending : List Text
  pub calls : ℕ
  pub oracle : ℕ → Option ℕ

abbrev pub flush_at : ℕ
flush_at = 50

-- `try: … except Exception: log.exception(…)`: a call that fails is rolled back, and changes nothing
unfoldable pub attempt : (ℕ → Tables → Tables) → History → History
attempt write h = elim (h.oracle h.calls) [
  | none ↦ record h { calls = suc h.calls }
  | some now ↦ record h { calls = suc h.calls; db = write now h.db }
]

unfoldable pub record_event : Text → Text → Option Text → History → History
record_event kind reason connection h =
    attempt (λ now t. Sessions.record_event now kind reason connection t) h

unfoldable pub flush : History → History
flush h =
    let emptied = record h { pending = [] } in
    elim h.session_id [
      | none ↦ emptied
      | some sid ↦
          if nonempty h.pending
          then attempt (λ now t. append_lines now sid h.pending t) emptied
          else emptied
    ]

unfoldable pub append : Text → History → History
append line h = elim h.session_id [
  | none ↦ h
  | some sid ↦
      let longer = record h { pending = h.pending ++ line ∷ [] } in
      if ltb (length longer.pending) flush_at then longer else flush longer
]

unfoldable pub mark_connected : History → History
mark_connected h = elim h.session_id [
  | none ↦ h
  | some sid ↦ attempt (λ now t. mark_session_connected now sid t) h
]

unfoldable pub end_session : Text → Text → History → History
end_session outcome reason h =
    let flushed = flush h in
    let closed = record flushed { session_id = none } in
    elim flushed.session_id [
      | none ↦ closed
      | some sid ↦ attempt (λ now t. Sessions.end_session now sid outcome reason t) closed
    ]

unfoldable pub start_session : Option Text → History → History
start_session connection h =
    let ended = end_session (text "interrupted") [] h in
    elim (ended.oracle ended.calls) [
      | none ↦ record ended { calls = suc ended.calls }
      | some now ↦
          let (sid, db) = Sessions.start_session now connection ended.db in
          attempt (λ now t. prune_sessions now keep_sessions retention_days t)
            (record ended { calls = suc ended.calls; db = db; session_id = some sid; pending = [] })
    ]

unfoldable pub record_sample : ℤ → ℤ → History → History
record_sample bytes_in bytes_out h = elim h.session_id [
  | none ↦ h
  | some sid ↦ attempt (λ now t. Sessions.record_sample now sid bytes_in bytes_out t) h
]

pub session-attempt :
    (write : ℕ → Tables → Tables) (h : History) → (attempt write h).session_id ≡ h.session_id
unfolding attempt
session-attempt write h = ground arith

pub session-flush : (h : History) → (flush h).session_id ≡ h.session_id
unfolding flush attempt
session-flush h = ground arith

pub session-event :
    (kind reason : Text) (connection : Option Text) (h : History)
    → (record_event kind reason connection h).session_id ≡ h.session_id
unfolding record_event
session-event kind reason connection h = session-attempt _ h

pub session-append : (line : Text) (h : History) → (append line h).session_id ≡ h.session_id
unfolding append
session-append line h =
    ground (arith, session-flush (record h { pending = h.pending ++ line ∷ [] }))

pub session-sample : (i o : ℤ) (h : History) → (record_sample i o h).session_id ≡ h.session_id
unfolding record_sample attempt
session-sample i o h = ground arith

pub session-end :
    (outcome reason : Text) (h : History) → (end_session outcome reason h).session_id ≡ none
unfolding end_session attempt
session-end outcome reason h = ground arith

-- The history as the controller uses it.
instance abbrev pub recorder : Recorder History
recorder = record {
  start_session = start_session;
  end_session = end_session;
  flush = flush;
  mark_connected = mark_connected;
  append = append;
  record_event = record_event;
  record_sample = record_sample;
  is_recording = λ h. is_some h.session_id;
  recording-end = λ outcome reason h. ap is_some (session-end outcome reason h);
  recording-flush = λ h. ap is_some (session-flush h);
  recording-event = λ kind reason connection h. ap is_some (session-event kind reason connection h);
  recording-append = λ line h. ap is_some (session-append line h);
  recording-sample = λ i o h. ap is_some (session-sample i o h);
}
