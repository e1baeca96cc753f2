-- ===== src/History/Lines.antt =====
-- Log lines: what `append` buffers and `flush` writes, none is lost, and the newest are kept.
use openvpn_connect_web.History.{History, attempt, flush, append, session-flush, flush_at}
use openvpn_connect_web.Prelude.{
  List, [], ap, append-nil, append_assoc, arith, map, map-take_last, refl, some, sym, take_last, ℕ,
  ◌++◌, ◌∙◌, ◌∷◌, ◌≡◌, take_last-append, Bool-cases, if◌then◌else◌, inl, inr, length, ltb,
}
use openvpn_connect_web.Store.Sessions.{
  LogLine, Tables, append_lines, insert_lines, max_lines_per_session, next_id, rows_of,
  session_of_line,
}
use openvpn_connect_web.Prelude.Text.{Text}
use openvpn_connect_web.Store.Sessions.Trim.{rows_of-append, rows_of-trim}

abbrev line_of : LogLine → Text
line_of l = l.line

-- the stored lines of a session
abbrev pub stored : ℕ → Tables → List Text
stored sid t = map (λ (l : LogLine). l.line) (rows_of session_of_line sid t.log_lines)

map-rows : (xs ys : List LogLine) → map line_of (xs ++ ys) ≡ map line_of xs ++ map line_of ys
map-rows [] ys = refl
map-rows (x ∷ xs) ys = ap (λ zs. x.line ∷ zs) (map-rows xs ys)

inserted :
    (now sid : ℕ) (ls : List Text) (rows : List LogLine)
    → map line_of (rows_of session_of_line sid (insert_lines now sid ls rows))
      ≡ map line_of (rows_of session_of_line sid rows) ++ ls
inserted now sid [] rows = sym (append-nil _)
inserted now sid (l ∷ ls) rows =
    let row : LogLine = record {
      id = next_id (λ (r : LogLine). r.id) rows;
      session_id = sid;
      at = now;
      line = l;
    } in
    let own : rows_of session_of_line sid (row ∷ []) ≡ row ∷ [] = ground arith in
    let grown : map line_of (rows_of session_of_line sid (rows ++ row ∷ []))
        ≡ map line_of (rows_of session_of_line sid rows) ++ l ∷ [] =
      ap (map line_of) (rows_of-append session_of_line sid rows (row ∷ []))
      ∙ map-rows (rows_of session_of_line sid rows) (rows_of session_of_line sid (row ∷ []))
      ∙ ap (λ zs. map line_of (rows_of session_of_line sid rows) ++ map line_of zs) own in
    inserted now sid ls (rows ++ row ∷ [])
    ∙ ap (λ zs. zs ++ ls) grown
    ∙ append_assoc (map line_of (rows_of session_of_line sid rows)) (l ∷ []) ls

-- The lines of a session after a write are the newest of the old and the new ones.
stored-append_lines :
    (now sid : ℕ) (l : Text) (ls : List Text) (t : Tables)
    → stored sid (append_lines now sid (l ∷ ls) t)
      ≡ take_last max_lines_per_session (stored sid t ++ l ∷ ls)
unfolding append_lines
stored-append_lines now sid l ls t =
    ap (map line_of) (
      rows_of-trim session_of_line max_lines_per_session sid
        (insert_lines now sid (l ∷ ls) t.log_lines))
    ∙ map-take_last line_of max_lines_per_session
        (rows_of session_of_line sid (insert_lines now sid (l ∷ ls) t.log_lines))
    ∙ ap (take_last max_lines_per_session) (inserted now sid (l ∷ ls) t.log_lines)

-- every line of the current attempt, stored or waiting
abbrev pub all_lines : ℕ → History → List Text
all_lines sid h = stored sid h.db ++ h.pending

-- a session is open and no call of the database fails
pub record IsLogging (sid : ℕ) (h : History) : Type 0 where
  pub open_session : h.session_id ≡ some sid
  pub works : (n : ℕ) → (now : ℕ) × (h.oracle n ≡ some now)

abbrev pub newest : List Text → List Text
newest ls = take_last max_lines_per_session ls

newest_idem : (ls : List Text) → newest (newest ls) ≡ newest ls
newest_idem ls =
    ap newest (sym (append-nil (newest ls)))
    ∙ take_last-append max_lines_per_session ls []
    ∙ ap newest (append-nil ls)

oracle-flush : (h : History) → (flush h).oracle ≡ h.oracle
unfolding flush attempt
oracle-flush h = ground arith

flush-IsLogging : (sid : ℕ) (h : History) → IsLogging sid h → IsLogging sid (flush h)
flush-IsLogging sid h g = record {
  open_session = session-flush h ∙ g.open_session;
  works = λ n. rw (oracle-flush h) (g.works n);
}

db-flush_some :
    (sid now : ℕ) (l : Text) (ls : List Text) (h : History)
    → h.session_id ≡ some sid
    → h.oracle h.calls ≡ some now
    → h.pending ≡ l ∷ ls
    → (flush h).db ≡ append_lines now sid (l ∷ ls) h.db
unfolding flush attempt
db-flush_some sid now l ls h s o e = ground arith

db-flush_none : (h : History) → h.pending ≡ [] → (flush h).db ≡ h.db
unfolding flush attempt
db-flush_none h e = ground arith

newest-flush :
    (sid : ℕ) (ls : List Text) (h : History)
    → IsLogging sid h
    → h.pending ≡ ls
    → newest (stored sid (flush h).db) ≡ newest (stored sid h.db ++ ls)
newest-flush sid [] h g e =
    ap (λ t. newest (stored sid t)) (db-flush_none h e)
    ∙ ap newest (sym (append-nil (stored sid h.db)))
newest-flush sid (l ∷ ls) h g e =
    let (now, o) = g.works h.calls in
    ap (λ t. newest (stored sid t)) (db-flush_some sid now l ls h g.open_session o e)
    ∙ ap newest (stored-append_lines now sid l ls h.db)
    ∙ newest_idem (stored sid h.db ++ l ∷ ls)

pending-flush : (h : History) → (flush h).pending ≡ []
unfolding flush attempt
pending-flush h = ground arith

abbrev longer : Text → History → History
longer l h = record h { pending = h.pending ++ l ∷ [] }

append-open :
    (sid : ℕ) (l : Text) (h : History)
    → h.session_id ≡ some sid
    → append l h
      ≡ (if ltb (length (h.pending ++ l ∷ [])) flush_at then longer l h else flush (longer l h))
unfolding append
append-open sid l h e = ground arith

-- a step that logs `ls` on top of what is logged
abbrev Logs : ℕ → List Text → History → History → Type 0
Logs sid ls h h' = IsLogging sid h' × (newest (all_lines sid h') ≡ newest (all_lines sid h ++ ls))

flush-Logs : (sid : ℕ) (h : History) → IsLogging sid h → Logs sid [] h (flush h)
flush-Logs sid h g = (
  flush-IsLogging sid h g,
  ap (λ p. newest (stored sid (flush h).db ++ p)) (pending-flush h)
      ∙ ap newest (append-nil (stored sid (flush h).db))
      ∙ newest-flush sid h.pending h g refl
      ∙ ap newest (sym (append-nil (all_lines sid h))),
)

longer-Logs :
    (sid : ℕ) (l : Text) (h : History) → IsLogging sid h → Logs sid (l ∷ []) h (longer l h)
longer-Logs sid l h g = (
  record { open_session = g.open_session; works = g.works },
  ap newest (sym (append_assoc (stored sid h.db) h.pending (l ∷ []))),
)

-- One line more is logged, whether the buffer is then written or not.
append-Logs :
    (sid : ℕ) (l : Text) (h : History) → IsLogging sid h → Logs sid (l ∷ []) h (append l h)
append-Logs sid l h g =
    let (g', e) = longer-Logs sid l h g in
    let (gf, ef) = flush-Logs sid (longer l h) g' in
    elim (Bool-cases (ltb (length (h.pending ++ l ∷ [])) flush_at)) [
      | inl room ↦
          let same : append l h ≡ longer l h =
            append-open sid l h g.open_session
            ∙ ap (λ b. if b then longer l h else flush (longer l h)) room in
          rw same (g', e)
      | inr full ↦
          let same : append l h ≡ flush (longer l h) =
            append-open sid l h g.open_session
            ∙ ap (λ b. if b then longer l h else flush (longer l h)) full in
          rw same (gf, ef ∙ ap newest (append-nil (all_lines sid (longer l h))) ∙ e)
    ]

abbrev pub append_all : List Text → History → History
append_all [] h = h
append_all (l ∷ ls) h = append_all ls (append l h)

append_all-Logs :
    (sid : ℕ) (ls : List Text) (h : History) → IsLogging sid h → Logs sid ls h (append_all ls h)
append_all-Logs sid [] h g = (g, ap newest (sym (append-nil (all_lines sid h))))
append_all-Logs sid (l ∷ ls) h g =
    let (g', e) = append-Logs sid l h g in
    let (g'', e') = append_all-Logs sid ls (append l h) g' in
    (
      g'',
      e'
          ∙ sym (take_last-append max_lines_per_session (all_lines sid (append l h)) ls)
          ∙ ap (λ zs. newest (zs ++ ls)) e
          ∙ take_last-append max_lines_per_session (all_lines sid h ++ l ∷ []) ls
          ∙ ap newest (append_assoc (all_lines sid h) (l ∷ []) ls),
    )

-- While a session is open and the database works: after any lines have been appended one by one
-- and the buffer flushed, the newest 2000 stored lines of the session are the newest 2000 of all
-- that was stored or waiting before and the new lines, in order.
pub flush-append_all :
    (sid : ℕ) (ls : List Text) (h : History)
    → IsLogging sid h
    → newest (stored sid (flush (append_all ls h)).db) ≡ newest (all_lines sid h ++ ls)
flush-append_all sid ls h g =
    let (g', e) = append_all-Logs sid ls h g in newest-flush sid _ (append_all ls h) g' refl ∙ e
