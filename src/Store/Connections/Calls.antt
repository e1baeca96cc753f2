-- ===== src/Store/Connections/Calls.antt =====
-- Every operation keeps the table sound.
use mathlib.Core.Path.{subst}
use openvpn_connect_web.Store.Connections.{
  is_marked, Connection, Form, has_name, upsert, with_values, write, blank, check_form,
  delete_connection, get_connection, put_row, save_connection, set_default,
  toggle_ignore_pushed_dns,
}
use openvpn_connect_web.Prelude.{
  Bool-cases, List, Option-cases, [], ap, arith, count, count-append, count_of_none, count_of_some,
  false, find, if_elim, if◌then◌else◌, inl, inr, length, length-append, map, min, none, refl, some,
  sym, ℕ, ◌++◌, ◌<◌, ◌==◌, ◌||◌, ◌∙◌, ◌∷◌, ◌≡◌, ◌≤◌, Bool, Option, count-filter, filter, not,
}
use openvpn_connect_web.Prelude.Text.{Text, text_eq, text_eq_refl, text_eq_sound, strip}
use openvpn_connect_web.Store.Connections.Default.{
  count-map, count_le_length, map-IsWellMarked, move_default-IsWellMarked, IsWellMarked,
  promote-IsWellMarked,
}

module _ (encrypt : Text → Text) (now : ℕ) (f : Form) where
  -- what the rest of the transaction needs of the row just written
  pub record IsWritten (n : Text) (rows : List Connection) : Type 0 where
    pub unique : (m : Text) → count (has_name m) rows ≤ 1
    pub there : 0 < count (has_name n) rows
    one_default : (length rows == 1) ≡ false → count is_marked rows ≡ min 1 (length rows)

  abbrev pub rewritten : ℕ → Connection → Connection
  rewritten id c = if c.id == id then with_values encrypt now f c else c

  pub same_name : (id : ℕ) (c : Connection) → (rewritten id c).name ≡ c.name
  unfolding with_values
  same_name id c =
      if_elim (λ (d : Connection). d.name ≡ c.name) (c.id == id) (λ _. refl) (λ _. refl)

  same_mark : (id : ℕ) (c : Connection) → (rewritten id c).is_default ≡ c.is_default
  unfolding with_values
  same_mark id c =
      if_elim (λ (d : Connection). d.is_default ≡ c.is_default) (c.id == id) (λ _. refl) (λ _. refl)

  updated-IsWritten :
      (n : Text) (existing : Connection) (rows : List Connection)
      → find (has_name n) rows ≡ some existing
      → IsWellMarked rows
      → IsWritten n (map (rewritten existing.id) rows)
  updated-IsWritten n existing rows e h =
      let s =
        map-IsWellMarked (rewritten existing.id) (same_name existing.id) (same_mark existing.id)
          rows h in
      let kept_count =
        count-map (has_name n) (rewritten existing.id)
          (λ c. ap (text_eq n) (same_name existing.id c)) rows in
      record {
        unique = s.unique;
        there = omega (arith, kept_count, count_of_some (has_name n) rows existing e);
        one_default = λ _. s.one_default;
      }

  inserted-IsWritten :
      (n : Text) (c : Connection) (rows : List Connection)
      → find (has_name n) rows ≡ none
      → c.name ≡ n
      → c.is_default ≡ false
      → IsWellMarked rows
      → IsWritten n (rows ++ c ∷ [])
  inserted-IsWritten n c rows e named unmarked h = record {
    unique = λ m. elim (Bool-cases (has_name m c)) [
      | inl hit ↦
          let new : m ≡ n = text_eq_sound m c.name hit ∙ named in
          let zero_yet : count (has_name m) rows ≡ 0 =
            subst (λ k. count (has_name k) rows ≡ 0) (sym new)
              (count_of_none (has_name n) rows e) in
          omega (
            arith,
            count-append (has_name m) rows (c ∷ []),
            zero_yet,
            count_le_length (has_name m) (c ∷ []),
          )
      | inr miss ↦
          let zero_here : count (has_name m) (c ∷ []) ≡ 0 = rw miss refl in
          omega (arith, count-append (has_name m) rows (c ∷ []), zero_here, h.unique m)
    ];
    there =
        let hit : count (has_name n) (c ∷ []) ≡ 1 =
          rw (ap (text_eq n) named ∙ text_eq_refl n) refl in
        omega (arith, count-append (has_name n) rows (c ∷ []), hit);
    one_default = λ more.
        let zero_here : count is_marked (c ∷ []) ≡ 0 = rw unmarked refl in
        let long : (length (rows ++ c ∷ []) == 1) ≡ false = more in
        ground (
          arith,
          count-append is_marked rows (c ∷ []),
          length-append rows (c ∷ []),
          zero_here,
          h.one_default,
          long,
        );
  }

  put_row-IsWritten :
      (n : Text) (rows : List Connection) (o : Option Connection)
      → find (has_name n) rows ≡ o
      → IsWellMarked rows
      → IsWritten n (put_row encrypt now f n rows o)
  unfolding put_row with_values blank
  put_row-IsWritten n rows none e h = inserted-IsWritten n _ rows e refl refl h
  put_row-IsWritten n rows (some existing) e h = updated-IsWritten n existing rows e h

  pub upsert-IsWritten :
      (n : Text) (rows : List Connection)
      → IsWellMarked rows
      → IsWritten n (upsert encrypt now f n rows)
  unfolding upsert
  upsert-IsWritten n rows h = put_row-IsWritten n rows (find (has_name n) rows) refl h

  write-IsWellMarked :
      (n : Text) (rows : List Connection)
      → IsWellMarked rows
      → IsWellMarked (write encrypt now f n rows)
  unfolding write
  write-IsWellMarked n rows h =
      let w = upsert-IsWritten n rows h in
      let rows' = upsert encrypt now f n rows in
      if_elim IsWellMarked (f.make_default || (length rows' == 1))
        (λ _. move_default-IsWellMarked n rows' w.unique w.there)
        (λ stays. record { unique = w.unique; one_default = w.one_default (ground arith) })

  pub save_connection-IsWellMarked :
      (rows : List Connection)
      → IsWellMarked rows
      → IsWellMarked (save_connection encrypt now f rows).1
  unfolding save_connection
  save_connection-IsWellMarked rows h = elim (Option-cases (check_form f)) [
    | inl fine ↦ rw (fine, save_connection) (write-IsWellMarked (strip f.name) rows h)
    | inr (why, bad) ↦ rw (bad, save_connection) h
  ]

pub set_default-IsWellMarked :
    (n : Text) (rows : List Connection) → IsWellMarked rows → IsWellMarked (set_default n rows).1
unfolding get_connection set_default
set_default-IsWellMarked n rows h = elim (Option-cases (find (has_name n) rows)) [
  | inl e ↦ rw (e, set_default) h
  | inr (c, e) ↦
      rw (e, set_default)
        (move_default-IsWellMarked n rows h.unique (count_of_some (has_name n) rows c e))
]

toggled-IsWellMarked :
    (now : ℕ) (n : Text) (enabled : Bool) (rows : List Connection)
    → IsWellMarked rows
    → IsWellMarked (
        map
          (λ (c : Connection).
            if has_name n c then record c { ignore_pushed_dns = enabled; updated_at = now } else c)
          rows)
toggled-IsWellMarked now n enabled rows h =
    map-IsWellMarked _
      (λ c. if_elim (λ (d : Connection). d.name ≡ c.name) (has_name n c) (λ _. refl) (λ _. refl))
      (λ c.
        if_elim (λ (d : Connection). d.is_default ≡ c.is_default) (has_name n c) (λ _. refl)
          (λ _. refl))
      rows h

pub toggle_ignore_pushed_dns-IsWellMarked :
    (now : ℕ) (n : Text) (rows : List Connection)
    → IsWellMarked rows
    → IsWellMarked (toggle_ignore_pushed_dns now n rows).1
unfolding get_connection toggle_ignore_pushed_dns
toggle_ignore_pushed_dns-IsWellMarked now n rows h = elim (Option-cases (find (has_name n) rows)) [
  | inl e ↦ rw (e, toggle_ignore_pushed_dns) h
  | inr (c, e) ↦ rw (e, toggle_ignore_pushed_dns) (toggled-IsWellMarked now n _ rows h)
]

pub delete_connection-IsWellMarked :
    (n : Text) (rows : List Connection)
    → IsWellMarked rows
    → IsWellMarked (delete_connection n rows).1
unfolding delete_connection
delete_connection-IsWellMarked n rows h =
    let keeps : Connection → Bool = λ c. not (has_name n c) in
    elim (Bool-cases (count (has_name n) rows == 0)) [
      | inl absent ↦ rw absent h
      | inr present ↦ rw present (
          promote-IsWellMarked (filter keeps rows)
            (λ m. omega (arith, count-filter (has_name m) keeps rows, h.unique m))
            (omega (arith, count-filter is_marked keeps rows, h.one_default)))
    ]
