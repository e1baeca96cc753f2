-- ===== src/Store/Connections/Default.antt =====
-- Names stay unique, and a table that is not empty has exactly one default connection.
use mathlib.Core.Path.{subst}
use openvpn_connect_web.Store.Connections.{
  is_marked, Connection, clear_defaults, has_name, mark_default, before, first_name, promote,
}
use openvpn_connect_web.Prelude.{
  Bool, Bool-cases, List, [], ap, arith, count, if◌then◌else◌, inl, inr, length, length-map, map,
  min, refl, sym, true, ◌∙◌, ◌∷◌, ◌≡◌, ◌≤◌, any, false, if_elim, ◌<◌,
}
use openvpn_connect_web.Prelude.Text.{Text, text_eq, text_eq_refl}
use openvpn_connect_web.Login.Tally.{same}

pub record IsWellMarked (rows : List Connection) : Type 0 where
  pub unique : (n : Text) → count (has_name n) rows ≤ 1
  pub one_default : count is_marked rows ≡ min 1 (length rows)

pub count-map :
    (p : Connection → Bool) (f : Connection → Connection)
    → ((c : Connection) → p (f c) ≡ p c)
    → (rows : List Connection) → count p (map f rows) ≡ count p rows
count-map p f same [] = refl
count-map p f same (c ∷ rows) = rw (same c, count-map p f same rows) refl

-- a change that keeps every name and every mark keeps the table sound
pub map-IsWellMarked :
    (f : Connection → Connection)
    → ((c : Connection) → (f c).name ≡ c.name)
    → ((c : Connection) → (f c).is_default ≡ c.is_default)
    → (rows : List Connection) → IsWellMarked rows
    → IsWellMarked (map f rows)
map-IsWellMarked f same_name same_mark rows h = record {
  unique = λ n.
      subst (λ k. k ≤ 1) (sym (count-map (has_name n) f (λ c. ap (text_eq n) (same_name c)) rows))
        (h.unique n);
  one_default =
      count-map is_marked f same_mark rows ∙ h.one_default ∙ ap (min 1) (sym (length-map f rows));
}

pub mark-is_name :
    (n m : Text) (c : Connection)
    → has_name m (if has_name n c then record c { is_default = true } else c) ≡ has_name m c
mark-is_name n m c = elim (Bool-cases (has_name n c)) [
  | inl hit ↦ rw hit refl
  | inr miss ↦ rw miss refl
]

defaults-clear : (rows : List Connection) → count is_marked (clear_defaults rows) ≡ 0
unfolding clear_defaults
defaults-clear [] = refl
defaults-clear (c ∷ rows) = omega (arith, defaults-clear rows)

pub named-clear :
    (m : Text) (rows : List Connection)
    → count (has_name m) (clear_defaults rows) ≡ count (has_name m) rows
unfolding clear_defaults
named-clear m rows = count-map (has_name m) _ (λ c. refl) rows

pub named-mark :
    (n m : Text) (rows : List Connection)
    → count (has_name m) (mark_default n rows) ≡ count (has_name m) rows
unfolding mark_default
named-mark n m rows = count-map (has_name m) _ (mark-is_name n m) rows

defaults-mark :
    (n : Text) (rows : List Connection)
    → count is_marked rows ≡ 0
    → count is_marked (mark_default n rows) ≡ count (has_name n) rows
unfolding mark_default
defaults-mark n [] h = refl
defaults-mark n (c ∷ rows) h = elim (Bool-cases (has_name n c)) [
  | inl hit ↦ rw hit (omega (arith, defaults-mark n rows (ground (arith, h))))
  | inr miss ↦ rw miss (ground (arith, h, defaults-mark n rows (ground (arith, h))))
]

pub count_le_length : (p : Connection → Bool) (rows : List Connection) → count p rows ≤ length rows
count_le_length p [] = omega arith
count_le_length p (c ∷ rows) = ground (arith, count_le_length p rows)

-- marking a name that is there, where nothing is marked, makes the one default
mark_default-IsWellMarked :
    (n : Text) (rows : List Connection)
    → ((m : Text) → count (has_name m) rows ≤ 1)
    → count is_marked rows ≡ 0
    → 0 < count (has_name n) rows
    → IsWellMarked (mark_default n rows)
mark_default-IsWellMarked n rows unique none_yet found = record {
  unique = λ m. omega (arith, named-mark n m rows, unique m);
  one_default = omega (
    arith,
    defaults-mark n rows none_yet,
    unique n,
    named-mark n n rows,
    count_le_length (has_name n) (mark_default n rows),
  );
}

pub move_default-IsWellMarked :
    (n : Text) (rows : List Connection)
    → ((m : Text) → count (has_name m) rows ≤ 1)
    → 0 < count (has_name n) rows
    → IsWellMarked (mark_default n (clear_defaults rows))
move_default-IsWellMarked n rows unique found =
    mark_default-IsWellMarked n (clear_defaults rows)
      (λ m. omega (arith, named-clear m rows, unique m)) (defaults-clear rows)
      (omega (arith, named-clear n rows))

positive_count :
    (p : Connection → Bool) (rows : List Connection) → any p rows ≡ true → 0 < count p rows
positive_count p [] h = cc h
positive_count p (c ∷ rows) h = ground (arith, positive_count p rows)

zero_count :
    (p : Connection → Bool) (rows : List Connection) → any p rows ≡ false → count p rows ≡ 0
zero_count p [] h = refl
zero_count p (c ∷ rows) h = ground (arith, zero_count p rows)

first_name_is_there :
    (c : Connection) (rows : List Connection) → 0 < count (has_name (first_name c rows)) (c ∷ rows)
unfolding first_name
first_name_is_there c [] = rw (text_eq_refl c.name) (omega arith)
first_name_is_there c (d ∷ rows) =
    if_elim (λ n. 0 < count (has_name n) (c ∷ d ∷ rows)) (before c.name (first_name d rows))
      (λ _. rw (text_eq_refl c.name) (omega arith)) (λ _. omega (arith, first_name_is_there d rows))

pub promote-IsWellMarked :
    (rows : List Connection)
    → ((m : Text) → count (has_name m) rows ≤ 1)
    → count is_marked rows ≤ 1
    → IsWellMarked (promote rows)
unfolding promote
promote-IsWellMarked [] unique few = record { unique = unique; one_default = omega arith }
promote-IsWellMarked (c ∷ rows) unique few =
    if_elim IsWellMarked (any is_marked (c ∷ rows))
      (λ h. record {
        unique = unique;
        one_default = omega (arith, few, positive_count is_marked (c ∷ rows) h);
      })
      (λ h.
        mark_default-IsWellMarked (first_name c rows) (c ∷ rows) unique
          (zero_count is_marked (c ∷ rows) h) (first_name_is_there c rows))
