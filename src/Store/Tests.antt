-- ===== src/Store/Tests.antt =====
-- Two sessions, one of them old.
use openvpn_connect_web.Store.Sessions.{
  Sample, Session, Tables, list_sessions, maximum, prune_sessions,
}
use openvpn_connect_web.Prelude.{ℕ, [], arith, none, refl, some, ◌∷◌, ◌≡◌}
use openvpn_connect_web.Prelude.Number.{pos}
use openvpn_connect_web.Store.Sessions.Retention.{list_sessions-prune_sessions}

abbrev old : Session
old = record {
  id = 1;
  connection = none;
  started_at = 0;
  connected_at = none;
  ended_at = some 5;
  outcome = [];
  reason = [];
}

abbrev recent : Session
recent = record old { id = 2; started_at = 900000; ended_at = none }

abbrev sample : ℕ → ℕ → ℕ → Sample
sample id sid bytes = record {
  id = id;
  session_id = sid;
  at = 900000;
  bytes_in = pos bytes;
  bytes_out = pos 1;
}

abbrev two : Tables
two = record {
  sessions = old ∷ recent ∷ [];
  log_lines = [];
  traffic_samples = sample 1 1 900 ∷ sample 2 2 300 ∷ sample 3 2 200 ∷ [];
  events = [];
}

list_sessions-prune_sessions_example :
    list_sessions 900005 7 100 (prune_sessions 900005 200 7 two) ≡ list_sessions 900005 7 100 two
list_sessions-prune_sessions_example =
    list_sessions-prune_sessions 900005 200 7 100 two (omega arith)

the_recent_one :
    list_sessions 900005 7 100 (prune_sessions 900005 200 7 two)
    ≡ record { session = recent; lines = 0; bytes_in = some (pos 300); bytes_out = some (pos 1) }
      ∷ []
unfolding list_sessions prune_sessions maximum
the_recent_one = refl
