-- ===== src/Store/Connections.antt =====
-- The table `connections` of app/services/store.py. A cipher text is a text here, and the key's
-- `encrypt` is a parameter; times are seconds.
pub mod Default
pub mod Calls
pub mod Names
pub mod Usage
mod Tests
use openvpn_connect_web.Prelude.{
  Bool, List, Option, [], all, any, count, false, find, if◌then◌else◌, leb, length, ltb, map, none,
  not, or_else, sort, some, true, ℕ, ◌&&◌, ◌++◌, ◌==◌, ◌||◌, ◌∷◌, filter,
}
use openvpn_connect_web.Prelude.Text.{
  Text, is_digit, nonempty, strip, text, text_eq, text_ltb, lower,
}
use openvpn_connect_web.Store.Sessions.{next_id}

pub record Connection : Type 0 where
  pub id : ℕ
  pub name : Text
  pub label : Text
  pub profile : Text
  pub username : Text
  pub password : Text
  pub static_challenge : Text
  pub is_default : Bool
  pub ignore_pushed_dns : Bool
  pub requires_mfa : Bool
  pub created_at : ℕ
  pub updated_at : ℕ

-- a value, or the text of the `StoreError`
pub data Stored {ℓ} (A : Type ℓ) : Type ℓ where
  kept : A → Stored A
  store_error : Text → Stored A

abbrev pub has_name : Text → Connection → Bool
has_name n c = text_eq n c.name

-- SELECT * FROM connections WHERE name = ?
unfoldable pub get_connection : List Connection → Text → Option Connection
get_connection rows n = find (has_name n) rows

abbrev is_marked : Connection → Bool
is_marked c = c.is_default

abbrev pub only : List Connection → Option Connection
only (c ∷ []) = some c
only _ = none

unfoldable pub default_connection : List Connection → Option Connection
default_connection rows = or_else (find is_marked rows) (only rows)

-- UPDATE connections SET is_default = 0
unfoldable pub clear_defaults : List Connection → List Connection
clear_defaults rows = map (λ (c : Connection). record c { is_default = false }) rows

-- UPDATE connections SET is_default = 1 WHERE name = ?
unfoldable pub mark_default : Text → List Connection → List Connection
mark_default n rows =
    map (λ (c : Connection). if has_name n c then record c { is_default = true } else c) rows

-- `NAME.match(name)`
unfoldable pub is_name_char : ℕ → Bool
unfolding is_digit
is_name_char c =
    is_digit c || (leb 65 c && leb c 90) || (leb 97 c && leb c 122) || (c == 45) || (c == 95)

unfoldable pub is_valid_name : Text → Bool
unfolding is_name_char
is_valid_name n = nonempty n && leb (length n) 64 && all is_name_char n

-- what the form gives
pub record Form : Type 0 where
  pub name : Text
  pub profile : Text
  pub username : Text
  pub password : Text
  pub label : Text
  pub static_challenge : Text
  pub make_default : Bool
  pub ignore_pushed_dns : Bool
  pub requires_mfa : Bool

unfoldable pub check_form : Form → Option Text
unfolding strip is_valid_name
check_form f =
    if not (is_valid_name (strip f.name))
    then some (
        text
          "A connection name may only contain letters, digits, '-' and '_', up to 64 characters.")
    else if not (nonempty (strip f.profile))
    then some (text "The profile is empty -- upload an .ovpn file.")
    else if not (nonempty f.username)
    then some (text "A username is required.")
    else none

abbrev pub no_such_connection : Text → Text
no_such_connection n = text "No connection named " ++ n

module _ (encrypt : Text → Text) where
  -- the columns that an insert and an update write alike
  unfoldable pub with_values : ℕ → Form → Connection → Connection
  unfolding strip
  with_values now f c = record c {
    label = strip f.label;
    profile = encrypt f.profile;
    username = encrypt f.username;
    password = encrypt f.password;
    static_challenge =
        if nonempty (strip f.static_challenge)
        then strip f.static_challenge
        else text "Enter Authenticator Code";
    ignore_pushed_dns = f.ignore_pushed_dns;
    requires_mfa = f.requires_mfa;
    updated_at = now;
  }

  unfoldable pub blank : ℕ → Text → ℕ → Connection
  blank id n now = record {
    id = id;
    name = n;
    label = [];
    profile = [];
    username = [];
    password = [];
    static_challenge = [];
    is_default = false;
    ignore_pushed_dns = false;
    requires_mfa = true;
    created_at = now;
    updated_at = now;
  }

  -- the UPDATE of the row there is, or the INSERT
  unfoldable pub put_row : ℕ → Form → Text → List Connection → Option Connection → List Connection
  put_row now f n rows (some existing) =
      map (λ (c : Connection). if c.id == existing.id then with_values now f c else c) rows
  put_row now f n rows none =
      rows ++ with_values now f (blank (next_id (λ (c : Connection). c.id) rows) n now) ∷ []

  unfoldable pub upsert : ℕ → Form → Text → List Connection → List Connection
  unfolding put_row
  upsert now f n rows = put_row now f n rows (find (has_name n) rows)

  -- the transaction: the row, and then the default
  unfoldable pub write : ℕ → Form → Text → List Connection → List Connection
  write now f n rows =
      let rows' = upsert now f n rows in
      if f.make_default || (length rows' == 1) then mark_default n (clear_defaults rows') else rows'

  -- `none` would be a failed `assert saved is not None`
  unfoldable pub save_connection :
      ℕ → Form → List Connection → Stored (Option Connection) × List Connection
  unfolding strip
  save_connection now f rows = elim (check_form f) [
    | some why ↦ (store_error why, rows)
    | none ↦
        let rows' = write now f (strip f.name) rows in
        (kept (get_connection rows' (strip f.name)), rows')
  ]

unfoldable pub set_default : Text → List Connection → Stored (Unit {0}) × List Connection
set_default n rows = elim (get_connection rows n) [
  | none ↦ (store_error (no_such_connection n), rows)
  | some _ ↦ (kept tt, mark_default n (clear_defaults rows))
]

unfoldable pub toggle_ignore_pushed_dns : ℕ → Text → List Connection → Stored Bool × List Connection
toggle_ignore_pushed_dns now n rows = elim (get_connection rows n) [
  | none ↦ (store_error (no_such_connection n), rows)
  | some connection ↦
      let enabled = not connection.ignore_pushed_dns in
      (
        kept enabled,
        map
            (λ (c : Connection).
              if has_name n c
              then record c { ignore_pushed_dns = enabled; updated_at = now }
              else c)
            rows,
      )
]

-- SELECT name FROM connections ORDER BY name LIMIT 1
unfoldable pub before : Text → Text → Bool
before [] _ = true
before (_ ∷ _) [] = false
before (a ∷ s) (b ∷ t) = ltb a b || ((a == b) && before s t)

unfoldable pub first_name : Connection → List Connection → Text
unfolding before
first_name c [] = c.name
first_name c (d ∷ rows) =
    let rest = first_name d rows in if before c.name rest then c.name else rest

unfoldable pub promote : List Connection → List Connection
unfolding mark_default first_name
promote [] = []
promote (c ∷ rows) =
    if any is_marked (c ∷ rows) then c ∷ rows else mark_default (first_name c rows) (c ∷ rows)

unfoldable pub delete_connection : Text → List Connection → Stored (Unit {0}) × List Connection
delete_connection n rows =
    if count (has_name n) rows == 0
    then (store_error (no_such_connection n), rows)
    else (kept tt, promote (filter (λ c. not (has_name n c)) rows))

-- SELECT * FROM connections ORDER BY is_default DESC, name COLLATE NOCASE
abbrev pub listed_before : Connection → Connection → Bool
listed_before c d =
    (c.is_default && not d.is_default)
    || ((c.is_default || not d.is_default) && not (text_ltb (lower d.name) (lower c.name)))

unfoldable pub list_connections : List Connection → List Connection
unfolding text_ltb lower
list_connections rows = sort listed_before rows
