-- ===== src/SessionList.antt =====
-- The history panel's list of sessions (app/services/sessions.py): what kind of end each had, the
-- search, the pages and the summary. `moment` is `_moment`: `datetime.fromisoformat` of a stored
-- timestamp, in seconds, and `none` where the text is no timestamp.
-- A quotient that the code takes in floating point is kept as a fraction.
pub mod Pages
pub mod Summary
pub mod Failed
mod Tests
use mathlib.Core.Option
use openvpn_connect_web.Prelude.{
  get_or, Bool, List, Option, [], all, false, filter, if◌then◌else◌, is_some, map, none, not, some,
  ℕ, ◌-◌, ◌==◌, ◌∷◌, ◌&&◌, ◌++◌, ◌≡◌, all-append, ap, ◌∙◌,
}
use openvpn_connect_web.Prelude.Text.{
  Text, contains, join, lower, nonempty, strip, text, text_eq, words, lower-append, words-append,
}
use openvpn_connect_web.Prelude.Number.{show_number}

pub data Kind : Type 0 where
  live : Kind
  dropped : Kind
  manual : Kind
  failed : Kind
  interrupted : Kind
  ended : Kind

abbrev pub kind_name : Kind → Text
kind_name live = text "live"
kind_name dropped = text "dropped"
kind_name manual = text "disconnected"
kind_name failed = text "failed"
kind_name interrupted = text "interrupted"
kind_name ended = text "ended"

abbrev pub reason_manual : Text
reason_manual = text "operator-requested"

abbrev pub reason_severed : Text
reason_severed = text "link-lost"

abbrev pub max_limit : ℕ
max_limit = 200

-- a row that the store's query returns; a column may be NULL, and a count is not negative
pub record SessionRow : Type 0 where
  pub id : ℕ
  pub connection : Option Text
  pub started_at : Option Text
  pub connected_at : Option Text
  pub ended_at : Option Text
  pub outcome : Option Text
  pub reason : Option Text
  pub lines : Option ℕ
  pub bytes_in : Option ℕ
  pub bytes_out : Option ℕ

pub record Session : Type 0 where
  pub id : ℕ
  pub connection : Option Text
  pub started_at : Option Text
  pub connected_at : Option Text
  pub ended_at : Option Text
  pub outcome : Text
  pub reason : Text
  pub lines : ℕ
  pub bytes_in : ℕ
  pub bytes_out : ℕ
  pub is_live : Bool
  pub kind : Kind
  pub duration : Option ℕ
  pub up : Option ℕ

-- `Session.connected`
unfoldable pub connected : Session → Bool
connected s = is_some s.connected_at

unfoldable pub elapsed : Option ℕ → Option ℕ → Option ℕ
elapsed none end = none
elapsed (some start) none = none
elapsed (some start) (some end) = some (end - start)

unfoldable pub kind_of : (is_live has_ended came_up : Bool) (outcome reason : Text) → Kind
kind_of is_live has_ended came_up outcome reason =
    if is_live
    then live
    else if text_eq reason reason_severed
    then dropped
    else if text_eq reason reason_manual
    then manual
    else if not has_ended
    then interrupted
    else if text_eq outcome (text "interrupted")
    then interrupted
    else if not came_up
    then failed
    else ended

-- `value or None`
abbrev pub or_none : Option Text → Option Text
or_none none = none
or_none (some []) = none
or_none (some (c ∷ s)) = some (c ∷ s)

module _ (moment : Text → Option ℕ) where
  -- `_moment` of a column
  unfoldable pub stamp : Option Text → Option ℕ
  stamp none = none
  stamp (some []) = none
  stamp (some (c ∷ s)) = moment (c ∷ s)

  unfoldable pub from_row : (now : ℕ) → SessionRow → Bool → Session
  unfolding stamp elapsed kind_of
  from_row now row is_live =
      let started = stamp row.started_at in
      let came_up = stamp row.connected_at in
      let stopped = stamp row.ended_at in
      let until = some (get_or now stopped) in
      record {
        id = row.id;
        connection = or_none row.connection;
        started_at = or_none row.started_at;
        connected_at = or_none row.connected_at;
        ended_at = or_none row.ended_at;
        outcome = get_or [] row.outcome;
        reason = get_or [] row.reason;
        lines = get_or 0 row.lines;
        bytes_in = get_or 0 row.bytes_in;
        bytes_out = get_or 0 row.bytes_out;
        is_live = is_live;
        kind =
            kind_of is_live (is_some stopped) (is_some came_up) (get_or [] row.outcome)
              (get_or [] row.reason);
        duration = elapsed started until;
        up = elapsed came_up until;
      }

  unfoldable pub from_rows : List SessionRow → (live_id : Option ℕ) → (now : ℕ) → List Session
  unfolding from_row
  from_rows rows live_id now =
      map (λ row. from_row now row (get_or false (Option.map (λ i. row.id == i) live_id))) rows

unfoldable pub haystack : Session → Text
haystack s =
    let number = show_number s.id in
    join 32 (
      filter nonempty (
        map lower (
          (35 ∷ number)
          ∷ number
          ∷ get_or [] s.connection
          ∷ kind_name s.kind
          ∷ s.outcome
          ∷ s.reason
          ∷ [])))

unfoldable pub matches : Session → Text → Bool
unfolding haystack
matches s query = all (λ term. contains term (haystack s)) (words (lower query))

unfoldable pub search : List Session → Text → List Session
unfolding matches
search sessions query =
    let q = strip query in if not (nonempty q) then sessions else filter (λ s. matches s q) sessions

lower-two : (query other : Text) → lower (query ++ 32 ∷ other) ≡ lower query ++ 32 ∷ lower other
unfolding lower
lower-two query other = lower-append query (32 ∷ other)

-- A search narrows: a query that is two queries with a space between matches the sessions that
-- both match.
matches-append :
    (query other : Text) (s : Session)
    → matches s (query ++ 32 ∷ other) ≡ (matches s query && matches s other)
unfolding matches
matches-append query other s =
    let hits : Text → Bool = λ term. contains term (haystack s) in
    ap (λ t. all hits (words t)) (lower-two query other)
    ∙ ap (all hits) (words-append (lower query) (lower other))
    ∙ all-append hits (words (lower query)) (words (lower other))
