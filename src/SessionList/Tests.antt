-- ===== src/SessionList/Tests.antt =====
-- Three sessions: one that dropped, one that failed at the prompt, and one that is up.
use openvpn_connect_web.SessionList.{
  from_row, SessionRow, from_rows, matches, search, Session, Kind, kind_of, failed, live, haystack,
  stamp,
}
use openvpn_connect_web.SessionList.Pages.{walk, walk-IsReadBy, clamp, IsNewestFirst}
use openvpn_connect_web.SessionList.Summary.{summarise, median, is_kind}
use openvpn_connect_web.SessionList.Failed.{IsReadable, summarise-failed}
use openvpn_connect_web.Prelude.{
  All, List, Option, [], arith, if◌then◌else◌, length, map, none, refl, some, ℕ, ◌∷◌, ◌≡◌, ◌≤◌,
  filter, not, ◌+◌, suc, concat,
}
use openvpn_connect_web.Prelude.Text.{
  Text, contains, isdigit, join, lower, strip, text, text_eq, words,
}
use openvpn_connect_web.Prelude.Number.{decimal, pos, show_number}

-- a clock whose timestamps are written as numbers of seconds
abbrev clock : Text → Option ℕ
clock s = if isdigit s then some (decimal s) else none

abbrev dropped_row : SessionRow
dropped_row = record {
  id = 1;
  connection = some (text "work");
  started_at = some (text "100");
  connected_at = some (text "110");
  ended_at = some (text "400");
  outcome = some (text "disconnected");
  reason = some (text "link-lost");
  lines = some 12;
  bytes_in = some 5000;
  bytes_out = none;
}

abbrev failed_row : SessionRow
failed_row = record {
  id = 2;
  connection = some (text "home");
  started_at = some (text "500");
  connected_at = none;
  ended_at = some (text "515");
  outcome = some (text "failed");
  reason = none;
  lines = none;
  bytes_in = none;
  bytes_out = none;
}

abbrev live_row : SessionRow
live_row = record {
  id = 7;
  connection = some (text "work");
  started_at = some (text "600");
  connected_at = some (text "605");
  ended_at = none;
  outcome = none;
  reason = none;
  lines = some 3;
  bytes_in = some 80;
  bytes_out = some 90;
}

abbrev rows : List SessionRow
rows = live_row ∷ failed_row ∷ dropped_row ∷ []

abbrev listed : List Session
listed = from_rows clock rows (some 7) 705

kinds_test : map (λ s. s.kind) listed ≡ live ∷ failed ∷ Kind.dropped ∷ []
unfolding from_rows from_row kind_of stamp text_eq isdigit
kinds_test = refl

search_test : map (λ s. s.id) (search listed (text " Dropped  work ")) ≡ 1 ∷ []
unfolding search matches haystack from_rows from_row kind_of stamp text_eq strip lower words
    contains join show_number isdigit
search_test = refl

summary_test : (summarise clock 705 listed).median_up_seconds ≡ record { num = 390; den = 2 }
unfolding summarise median from_rows isdigit decimal
summary_test = refl

listed-IsNewestFirst : IsNewestFirst listed
unfolding from_rows from_row
listed-IsNewestFirst = ((omega arith, (omega arith, tt)), ((omega arith, tt), (tt, tt)))

walk-IsReadBy_example :
    (windows : List (List Session)) × (walk (suc (length listed)) listed none (pos 2)
      ≡ some windows)
    × (concat windows ≡ listed)
    × All (λ w. length w ≤ clamp (pos 2)) windows
walk-IsReadBy_example = walk-IsReadBy (pos 2) listed listed-IsNewestFirst

rows-IsReadable : All (λ row. IsReadable clock 705 row.connected_at) rows
unfolding stamp isdigit
rows-IsReadable = (refl, (refl, (refl, tt)))

summarise-failed_example :
    let whole = summarise clock 705 listed in
    let part = summarise clock 705 (filter (λ s. not (is_kind failed s.kind)) listed) in
    (whole.sessions ≡ part.sessions + whole.failed_count)
    × (whole.up_seconds ≡ part.up_seconds)
    × (whole.longest_up_seconds ≡ part.longest_up_seconds)
    × (whole.median_up_seconds ≡ part.median_up_seconds)
    × (whole.connected_count ≡ part.connected_count)
    × (whole.drops ≡ part.drops)
    × (whole.manual_count ≡ part.manual_count)
summarise-failed_example = summarise-failed clock 705 rows (some 7) rows-IsReadable
