-- ===== src/Store/Connections/Names.antt =====
-- Which names an operation on the table keeps.
use openvpn_connect_web.Store.Connections.{
  is_marked, save_connection, delete_connection, Connection, Form, blank, check_form,
  clear_defaults, first_name, get_connection, has_name, mark_default, promote, put_row, set_default,
  toggle_ignore_pushed_dns, upsert, with_values, write,
}
use openvpn_connect_web.Prelude.{
  Bool-cases, List, Option, Option-cases, [], any, ap, arith, count, count-append, false, filter,
  find, if_elim, inl, inr, length, none, not, refl, some, true, ℕ, ◌==◌, ◌||◌, ◌∙◌, ◌∷◌, ◌≡◌, ◌≤◌,
  sym,
}
use openvpn_connect_web.Prelude.Text.{Text, strip, text_eq, text_eq_refl, text_eq_sound}
use openvpn_connect_web.Migrations.{absent}
use openvpn_connect_web.Store.DnsRules.Update.{both}
use openvpn_connect_web.Store.Connections.Default.{count-map, named-clear, named-mark}
use openvpn_connect_web.Store.Sessions.{next_id}
use openvpn_connect_web.Store.Connections.Calls.{rewritten, same_name}

module _ (m : Text) where
  abbrev pub named : List Connection → ℕ
  named rows = count (has_name m) rows

  named-move :
      (n : Text) (rows : List Connection)
      → named (mark_default n (clear_defaults rows)) ≡ named rows
  named-move n rows = named-mark n m (clear_defaults rows) ∙ named-clear m rows

  pub named-set_default :
      (n : Text) (rows : List Connection) → named (set_default n rows).1 ≡ named rows
  unfolding set_default get_connection
  named-set_default n rows = elim (Option-cases (find (has_name n) rows)) [
    | inl e ↦ rw (e, set_default) refl
    | inr (c, e) ↦ rw (e, set_default) (named-move n rows)
  ]

  pub named-toggle_ignore_pushed_dns :
      (now : ℕ) (n : Text) (rows : List Connection)
      → named (toggle_ignore_pushed_dns now n rows).1 ≡ named rows
  unfolding toggle_ignore_pushed_dns get_connection
  named-toggle_ignore_pushed_dns now n rows = elim (Option-cases (find (has_name n) rows)) [
    | inl e ↦ rw (e, toggle_ignore_pushed_dns) refl
    | inr (c, e) ↦
        rw (e, toggle_ignore_pushed_dns)
          (count-map (has_name m) _
            (λ d.
              if_elim (λ (x : Connection). has_name m x ≡ has_name m d) (has_name n d) (λ _. refl)
                (λ _. refl))
            rows)
  ]

  module _ (encrypt : Text → Text) (now : ℕ) (f : Form) where
    named-put_row :
        (n : Text) (rows : List Connection) (o : Option Connection)
        → named rows ≤ named (put_row encrypt now f n rows o)
    unfolding put_row
    named-put_row n rows none = omega (
      arith,
      count-append (has_name m) rows (
          with_values encrypt now f (blank encrypt (next_id (λ (c : Connection). c.id) rows) n now)
          ∷ []),
    )
    named-put_row n rows (some existing) = omega (
      arith,
      count-map (has_name m) (rewritten encrypt now f existing.id)
          (λ c. ap (text_eq m) (same_name encrypt now f existing.id c)) rows,
    )

    named-write :
        (n : Text) (rows : List Connection) → named rows ≤ named (write encrypt now f n rows)
    unfolding write upsert
    named-write n rows =
        let put_one = named-put_row n rows (find (has_name n) rows) in
        if_elim (λ (x : List Connection). named rows ≤ named x)
          (f.make_default || (length (upsert encrypt now f n rows) == 1))
          (λ _. omega (arith, put_one, named-move n (upsert encrypt now f n rows))) (λ _. put_one)

    pub named-save_connection :
        (rows : List Connection) → named rows ≤ named (save_connection encrypt now f rows).1
    unfolding save_connection
    named-save_connection rows = elim (Option-cases (check_form f)) [
      | inl fine ↦ rw (fine, save_connection) (named-write (strip f.name) rows)
      | inr (why, refusal) ↦ rw (refusal, save_connection) (omega arith)
    ]

  other_name :
      (n : Text)
      → text_eq n m ≡ false
      → (c : Connection) → has_name m c ≡ true
      → not (has_name n c) ≡ true
  other_name n differ c hit = elim (Bool-cases (has_name n c)) [
    | inl both ↦
        let same : n ≡ m = text_eq_sound n c.name both ∙ sym (text_eq_sound m c.name hit) in
        let equal : text_eq n m ≡ true = rw same (text_eq_refl m) in absurd (cc (equal, differ))
    | inr miss ↦ rw miss refl
  ]

  named-filter :
      (n : Text)
      → text_eq n m ≡ false
      → (rows : List Connection) → named (filter (λ c. not (has_name n c)) rows) ≡ named rows
  named-filter n differ [] = refl
  named-filter n differ (c ∷ rows) = elim (Bool-cases (has_name m c)) [
    | inl hit ↦ rw (other_name n differ c hit, hit, named-filter n differ rows) refl
    | inr miss ↦
        if_elim (λ (x : List Connection). named x ≡ named (c ∷ rows)) (not (has_name n c))
          (λ _. ground (arith, miss, named-filter n differ rows))
          (λ _. ground (arith, miss, named-filter n differ rows))
  ]

  named-promote : (rows : List Connection) → named (promote rows) ≡ named rows
  unfolding promote
  named-promote [] = refl
  named-promote (c ∷ rows) =
      if_elim (λ (x : List Connection). named x ≡ named (c ∷ rows)) (any is_marked (c ∷ rows))
        (λ _. refl) (λ _. named-mark (first_name c rows) m (c ∷ rows))

  pub named-delete_connection :
      (n : Text)
      → text_eq n m ≡ false
      → (rows : List Connection) → named (delete_connection n rows).1 ≡ named rows
  unfolding delete_connection
  named-delete_connection n differ rows = elim (Bool-cases (count (has_name n) rows == 0)) [
    | inl absent ↦ rw absent refl
    | inr present ↦
        rw present
          (named-promote (filter (λ c. not (has_name n c)) rows) ∙ named-filter n differ rows)
  ]
