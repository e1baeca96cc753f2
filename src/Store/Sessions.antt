-- ===== src/Store/Sessions.antt =====
-- The sessions, their log lines and traffic samples, and the events (app/services/store.py).
-- Times are in seconds, the unit of the stored timestamps.
pub mod Trim
pub mod Retention
use openvpn_connect_web.Prelude.{
  Bool, List, [], any, if◌then◌else◌, leb, length, map, max, min, none, or_else, reverse, some, suc,
  take, take_last, true, ℕ, ◌&&◌, ◌*◌, ◌++◌, ◌-◌, ◌==◌, ◌∷◌, Option, filter, count,
}
use openvpn_connect_web.Prelude.Text.{Text, nonempty}
use openvpn_connect_web.Prelude.Number.{ℤ, negsuc, pos}

pub record Session : Type 0 where
  pub id : ℕ
  pub connection : Option Text
  pub started_at : ℕ
  pub connected_at : Option ℕ
  pub ended_at : Option ℕ
  pub outcome : Text
  pub reason : Text

pub record LogLine : Type 0 where
  pub id : ℕ
  pub session_id : ℕ
  pub at : ℕ
  pub line : Text

pub record Sample : Type 0 where
  pub id : ℕ
  pub session_id : ℕ
  pub at : ℕ
  pub bytes_in : ℤ
  pub bytes_out : ℤ

pub record Event : Type 0 where
  pub at : ℕ
  pub kind : Text
  pub reason : Text
  pub connection : Option Text

pub record Tables : Type 0 where
  pub sessions : List Session
  pub log_lines : List LogLine
  pub traffic_samples : List Sample
  pub events : List Event

abbrev pub max_lines_per_session : ℕ
max_lines_per_session = 2000

abbrev pub max_samples_per_session : ℕ
max_samples_per_session = 17280

abbrev pub retention_days : ℕ
retention_days = 7

abbrev pub keep_sessions : ℕ
keep_sessions = 200

module _ {A : Type 0} (session_of : A → ℕ) where
  -- the rows of one session, by ascending id
  abbrev pub rows_of : ℕ → List A → List A
  rows_of sid [] = []
  rows_of sid (x ∷ xs) = if session_of x == sid then x ∷ rows_of sid xs else rows_of sid xs

  -- DELETE … WHERE session_id = ? AND id NOT IN (SELECT id … ORDER BY id DESC LIMIT ?): a row stays
  -- if it is of another session, or if fewer than `cap` rows of its session come after it
  abbrev pub trim : ℕ → ℕ → List A → List A
  trim cap sid [] = []
  trim cap sid (x ∷ xs) =
      if (session_of x == sid) && leb cap (length (rows_of sid xs))
      then trim cap sid xs
      else x ∷ trim cap sid xs

module _ {A : Type 0} (id_of : A → ℕ) where
  abbrev pub next_id : List A → ℕ
  next_id [] = 1
  next_id (x ∷ xs) = max (suc (id_of x)) (next_id xs)

abbrev pub session_of_line : LogLine → ℕ
session_of_line l = l.session_id

abbrev pub session_of_sample : Sample → ℕ
session_of_sample s = s.session_id

abbrev pub id_of_session : Session → ℕ
id_of_session s = s.id

unfoldable pub record_event : ℕ → Text → Text → Option Text → Tables → Tables
record_event now kind reason connection t = record t {
  events =
      t.events ++ record { at = now; kind = kind; reason = reason; connection = connection } ∷ [];
}

-- SELECT … FROM events ORDER BY id DESC LIMIT ?
unfoldable pub recent_events : ℕ → Tables → List Event
recent_events limit t = take limit (reverse t.events)

unfoldable pub start_session : ℕ → Option Text → Tables → ℕ × Tables
start_session now connection t =
    let sid = next_id id_of_session t.sessions in
    let row : Session = record {
      id = sid;
      connection = connection;
      started_at = now;
      connected_at = none;
      ended_at = none;
      outcome = [];
      reason = [];
    } in
    (sid, record t { sessions = t.sessions ++ row ∷ [] })

-- the rows that `executemany` inserts
abbrev pub insert_lines : ℕ → ℕ → List Text → List LogLine → List LogLine
insert_lines now sid [] rows = rows
insert_lines now sid (l ∷ ls) rows = insert_lines now sid ls (
    rows
    ++ record { id = next_id (λ (r : LogLine). r.id) rows; session_id = sid; at = now; line = l }
      ∷ [])

unfoldable pub append_lines : ℕ → ℕ → List Text → Tables → Tables
append_lines now sid lines t =
    if nonempty lines
    then record t {
      log_lines =
          trim session_of_line max_lines_per_session sid (insert_lines now sid lines t.log_lines);
    }
    else t

abbrev pub on_session : ℕ → (Session → Session) → List Session → List Session
on_session sid f [] = []
on_session sid f (s ∷ ss) = (if s.id == sid then f s else s) ∷ on_session sid f ss

unfoldable pub end_session : ℕ → ℕ → Text → Text → Tables → Tables
end_session now sid outcome reason t = record t {
  sessions =
      on_session sid (λ s. record s { ended_at = some now; outcome = outcome; reason = reason })
        t.sessions;
}

-- … AND connected_at IS NULL
unfoldable pub mark_session_connected : ℕ → ℕ → Tables → Tables
mark_session_connected now sid t = record t {
  sessions =
      on_session sid (λ s. record s { connected_at = or_else s.connected_at (some now) })
        t.sessions;
}

-- the newest `limit` lines of a session, oldest first
unfoldable pub session_lines : ℕ → ℕ → Tables → List Text
session_lines sid limit t =
    map (λ (l : LogLine). l.line) (take_last limit (rows_of session_of_line sid t.log_lines))

unfoldable pub record_sample : ℕ → ℕ → ℤ → ℤ → Tables → Tables
record_sample now sid bytes_in bytes_out t =
    let row : Sample = record {
      id = next_id (λ (r : Sample). r.id) t.traffic_samples;
      session_id = sid;
      at = now;
      bytes_in = bytes_in;
      bytes_out = bytes_out;
    } in
    record t {
      traffic_samples =
          trim session_of_sample max_samples_per_session sid (t.traffic_samples ++ row ∷ []);
    }

-- `_in_window`, where the window starts `days` before `now`
unfoldable pub in_window : ℕ → ℕ → Session → Bool
in_window now days s = elim s.ended_at [ none ↦ true | some ended ↦ leb (now - days * 86400) ended ]

abbrev pub has_session : List Session → ℕ → Bool
has_session ss sid = any (λ (s : Session). s.id == sid) ss

-- both deletions of `prune_sessions`, and what ON DELETE CASCADE takes with them
unfoldable pub prune_sessions : ℕ → ℕ → ℕ → Tables → Tables
unfolding in_window
prune_sessions now keep days t =
    let kept = take_last keep (filter (in_window now days) t.sessions) in
    record t {
      sessions = kept;
      log_lines = filter (λ (l : LogLine). has_session kept l.session_id) t.log_lines;
      traffic_samples = filter (λ (x : Sample). has_session kept x.session_id) t.traffic_samples;
    }

abbrev max_ℤ : ℤ → ℤ → ℤ
max_ℤ (pos a) (pos b) = pos (max a b)
max_ℤ (pos a) (negsuc b) = pos a
max_ℤ (negsuc a) (pos b) = pos b
max_ℤ (negsuc a) (negsuc b) = negsuc (min a b)

-- SELECT MAX(…), which is NULL where there is no row
unfoldable pub maximum : List ℤ → Option ℤ
maximum [] = none
maximum (x ∷ xs) = elim (maximum xs) [ none ↦ some x | some y ↦ some (max_ℤ x y) ]

-- a row that `list_sessions` reads
pub record ListedSession : Type 0 where
  pub session : Session
  pub lines : ℕ
  pub bytes_in : Option ℤ
  pub bytes_out : Option ℤ

-- the columns of `_LIST_SESSIONS`: those of the session, and the three subqueries
abbrev pub listed : Tables → Session → ListedSession
listed t s =
    let samples = rows_of session_of_sample s.id t.traffic_samples in
    record {
      session = s;
      lines = length (rows_of session_of_line s.id t.log_lines);
      bytes_in = maximum (map (λ (x : Sample). x.bytes_in) samples);
      bytes_out = maximum (map (λ (x : Sample). x.bytes_out) samples);
    }

-- `list_sessions`, newest first
unfoldable pub list_sessions : ℕ → ℕ → ℕ → Tables → List ListedSession
unfolding in_window
list_sessions now days limit t =
    map (listed t) (take limit (reverse (filter (in_window now days) t.sessions)))

-- the rows of one session, oldest first
unfoldable pub session_samples : ℕ → Tables → List Sample
session_samples session_id t = filter (λ (x : Sample). x.session_id == session_id) t.traffic_samples

-- the newest sessions, each with the number of its lines
unfoldable pub recent_sessions : ℕ → Tables → List (Session × ℕ)
recent_sessions limit t =
    map (λ (s : Session). (s, count (λ (l : LogLine). l.session_id == s.id) t.log_lines))
      (take limit (reverse t.sessions))
