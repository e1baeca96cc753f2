-- ===== src/Store/Connections/Usage.antt =====
-- The table after any use of it.
use openvpn_connect_web.Store.Connections.{
  is_marked, Connection, Form, check_form, clear_defaults, default_connection, delete_connection,
  get_connection, has_name, kept, save_connection, set_default, toggle_ignore_pushed_dns, upsert,
  write,
}
use openvpn_connect_web.Store.Connections.Default.{IsWellMarked, named-clear, named-mark}
use openvpn_connect_web.Prelude.{
  List, [], arith, count, find_of_count, if_elim, length, none, refl, some, true, ℕ, ◌<◌, ◌==◌,
  ◌||◌, ◌∷◌, ◌≡◌, ◌≢◌, ◌≤◌,
}
use openvpn_connect_web.Prelude.Text.{Text, strip}
use openvpn_connect_web.Store.Connections.Calls.{
  delete_connection-IsWellMarked, save_connection-IsWellMarked, set_default-IsWellMarked,
  toggle_ignore_pushed_dns-IsWellMarked, upsert-IsWritten,
}
use openvpn_connect_web.Store.Connections.Names.{named}

marked_one :
    (rows : List Connection)
    → IsWellMarked rows
    → rows ≢ []
    → (count is_marked rows ≡ 1)
      × ((c : Connection) × (default_connection rows ≡ some c) × (c.is_default ≡ true))
unfolding default_connection
marked_one [] h filled = absurd (filled refl)
marked_one (c ∷ rows) h filled =
    let one : count is_marked (c ∷ rows) ≡ 1 = omega (arith, h.one_default) in
    let (d, e, marked) = find_of_count is_marked (c ∷ rows) (omega (arith, one)) in
    (one, (d, rw (e, default_connection) refl, marked))

-- the calls that write the table
pub data Call : Type 0 where
  saves : ℕ → Form → Call
  makes_default : Text → Call
  toggles : ℕ → Text → Call
  deletes : Text → Call

module _ (encrypt : Text → Text) where
  unfoldable pub apply : Call → List Connection → List Connection
  apply (saves now f) rows = (save_connection encrypt now f rows).1
  apply (makes_default n) rows = (set_default n rows).1
  apply (toggles now n) rows = (toggle_ignore_pushed_dns now n rows).1
  apply (deletes n) rows = (delete_connection n rows).1

  unfoldable pub apply_all : List Call → List Connection → List Connection
  unfolding apply
  apply_all [] rows = rows
  apply_all (c ∷ calls) rows = apply_all calls (apply c rows)

  apply-IsWellMarked :
      (c : Call) (rows : List Connection) → IsWellMarked rows → IsWellMarked (apply c rows)
  unfolding apply
  apply-IsWellMarked (saves now f) rows h = save_connection-IsWellMarked encrypt now f rows h
  apply-IsWellMarked (makes_default n) rows h = set_default-IsWellMarked n rows h
  apply-IsWellMarked (toggles now n) rows h = toggle_ignore_pushed_dns-IsWellMarked now n rows h
  apply-IsWellMarked (deletes n) rows h = delete_connection-IsWellMarked n rows h

  apply_all-IsWellMarked :
      (calls : List Call) (rows : List Connection)
      → IsWellMarked rows
      → IsWellMarked (apply_all calls rows)
  unfolding apply_all
  apply_all-IsWellMarked [] rows h = h
  apply_all-IsWellMarked (c ∷ calls) rows h =
      apply_all-IsWellMarked calls (apply c rows) (apply-IsWellMarked c rows h)

  -- After any calls that save, delete, toggle or choose a default, from an empty table on and those
  -- that are refused included: no two connections have one name, and unless the table is empty
  -- exactly one connection is marked as the default, which is what `default_connection` returns.
  pub default_connection-apply_all :
      (calls : List Call)
      → ((n : Text) → count (has_name n) (apply_all calls []) ≤ 1)
        × (apply_all calls [] ≢ []
            → (count is_marked (apply_all calls []) ≡ 1)
              × ((c : Connection) × (default_connection (apply_all calls []) ≡ some c)
                  × (c.is_default ≡ true)))
  default_connection-apply_all calls =
      let h =
        apply_all-IsWellMarked calls []
          (record { unique = λ n. omega arith; one_default = refl }) in
      (h.unique, marked_one (apply_all calls []) h)

  written :
      (now : ℕ) (f : Form) (n : Text) (rows : List Connection)
      → IsWellMarked rows
      → 0 < count (has_name n) (write encrypt now f n rows)
  unfolding write
  written now f n rows h =
      let rows' = upsert encrypt now f n rows in
      let there = (upsert-IsWritten encrypt now f n rows h).there in
      if_elim (λ rs. 0 < count (has_name n) rs) (f.make_default || (length rows' == 1))
        (λ _. omega (arith, named-mark n n (clear_defaults rows'), named-clear n rows'))
        (λ _. there)

  -- A save whose form passes the checks returns the connection of that name: the assertion at its
  -- end never fails.
  save_connection-returns :
      (now : ℕ) (f : Form) (rows : List Connection)
      → IsWellMarked rows
      → check_form f ≡ none
      → (c : Connection) × ((save_connection encrypt now f rows).0 ≡ kept (some c))
        × (has_name (strip f.name) c ≡ true)
  unfolding save_connection get_connection
  save_connection-returns now f rows h fine =
      let (c, e, named) =
        find_of_count (has_name (strip f.name)) (write encrypt now f (strip f.name) rows)
          (written now f (strip f.name) rows h) in
      (c, rw (fine, save_connection, e) refl, named)
