-- ===== src/History/Tests.antt =====
-- The history over a database that always works.
use openvpn_connect_web.History.{start_session, end_session, History, append, attempt, flush}
use openvpn_connect_web.Store.Sessions
use openvpn_connect_web.Store.Sessions.{Tables, append_lines, prune_sessions, session_lines}
use openvpn_connect_web.Prelude.{[], none, refl, some, ◌∷◌, ◌≡◌}
use openvpn_connect_web.History.Lines.{append_all, flush-append_all, newest, stored}
use openvpn_connect_web.Prelude.Text.{text}

abbrev empty : Tables
empty = record { sessions = []; log_lines = []; traffic_samples = []; events = [] }

abbrev logging : History
logging = record { db = empty; session_id = some 1; pending = []; calls = 0; oracle = λ n. some 5 }

flush-append_all_example :
    newest (stored 1 (flush (append_all (text "a" ∷ text "b" ∷ []) logging)).db)
    ≡ newest (text "a" ∷ text "b" ∷ [])
flush-append_all_example =
    flush-append_all 1 (text "a" ∷ text "b" ∷ []) logging
      (record { open_session = refl; works = λ n. (5, refl) })

lines_after_a_session :
    session_lines 1 500
      (end_session
        (text "failed")
        []
        (append (text "x") (start_session none (record logging { session_id = none })))).db
    ≡ text "x" ∷ []
unfolding start_session end_session append flush attempt Sessions.start_session Sessions.end_session
    prune_sessions append_lines session_lines
lines_after_a_session = refl
