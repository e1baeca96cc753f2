-- ===== src/Migrations.antt =====
-- The migration runner of app/db.py. A file is its name and its text; `run` executes a script inside
-- its transaction, and `none` is the `sqlite3.Error`, after which the transaction is rolled back.
pub mod Order
pub mod Discover
pub mod Built
mod Tests
use openvpn_connect_web.Prelude.{
  Bool, List, Option, [], all, any, drop, filter, if◌then◌else◌, leb, length, ltb, max, none, not,
  some, sort, suc, take, zero, ℕ, ◌&&◌, ◌++◌, ◌-◌, ◌==◌, ◌||◌, ◌∷◌,
}
use openvpn_connect_web.Prelude.Text.{Text, is_digit, nonempty, starts_with, text, text_eq}
use openvpn_connect_web.Prelude.Number.{decimal}

pub record File : Type 0 where
  pub name : Text
  pub sql : Text

pub record Migration : Type 0 where
  pub version : ℕ
  pub file : File

-- the `MigrationError`s
pub data MigrationError : Type 0 where
  bad_name : Text → MigrationError
  numbered_twice : ℕ → MigrationError
  missing : List ℕ → MigrationError
  failed : Text → MigrationError

pub data Result {ℓ} (A : Type ℓ) : Type ℓ where
  good : A → Result A
  bad : MigrationError → Result A

abbrev pub is_name_char : ℕ → Bool
is_name_char c = (leb 97 c && leb c 122) || is_digit c || (c == 95)

-- `s.endswith(t)`
abbrev ends_with : Text → Text → Bool
ends_with s t = leb (length t) (length s) && text_eq (drop (length s - length t) s) t

-- "[a-z0-9_]+\.sql$", where `$` also stands before a newline at the very end
abbrev pub is_rest : Text → Bool
is_rest s =
    let t = if ends_with s (text ".sql" ++ 10 ∷ []) then take (length s - 1) s else s in
    ends_with t (text ".sql") && ltb 4 (length t) && all is_name_char (take (length t - 4) t)

-- `_MIGRATION_NAME`, with the number that it captures
unfoldable pub number_of : Text → Option ℕ
unfolding decimal is_digit
number_of name =
    if leb 5 (length name)
      && all is_digit (take 4 name)
      && starts_with (drop 4 name) (text "_")
      && is_rest (drop 5 name)
    then some (decimal (take 4 name))
    else none

abbrev pub has_version : ℕ → Migration → Bool
has_version n m = m.version == n

-- one file more in `found`
abbrev pub find_file : File → Option ℕ → List Migration → Result (List Migration)
find_file f none found = bad (bad_name f.name)
find_file f (some n) found =
    if any (has_version n) found
    then bad (numbered_twice n)
    else good (found ++ record { version = n; file = f } ∷ [])

abbrev pub and_then {ℓ κ} : {A : Type ℓ} {B : Type κ} → Result A → (A → Result B) → Result B
and_then (bad e) f = bad e
and_then (good a) f = f a

-- the loop over the files, which come by their names
unfoldable pub collect : List File → List Migration → Result (List Migration)
unfolding number_of
collect [] found = good found
collect (f ∷ files) found = and_then (find_file f (number_of f.name) found) (collect files)

-- `range(1, n + 1)`
abbrev pub range_to : ℕ → List ℕ
range_to zero = []
range_to (suc n) = range_to n ++ suc n ∷ []

-- `max(found)`
abbrev pub highest : List Migration → ℕ
highest [] = 0
highest (m ∷ found) = max m.version (highest found)

abbrev pub by_version : Migration → Migration → Bool
by_version m n = leb m.version n.version

-- `missing`
unfoldable pub absent : List Migration → List ℕ
absent found = filter (λ n. not (any (has_version n) found)) (range_to (highest found))

-- the check of the numbers, and the migrations by them; of no files there are no migrations
unfoldable pub ordered : List Migration → Result (List Migration)
unfolding absent
ordered found =
    if nonempty (absent found) then bad (missing (absent found)) else good (sort by_version found)

unfoldable pub discover : List File → Result (List Migration)
unfolding collect ordered
discover files = and_then (collect files []) ordered

pub record Database (S : Type 0) : Type 0 where
  pub schema : S
  pub user_version : ℕ

module _ {S : Type 0} (run : Text → S → Option S) where
  -- a script with its version bump is one transaction
  abbrev pub after_script :
      Migration
      → Database S
      → Option S
      → (Database S → Result ℕ × Database S)
      → Result ℕ × Database S
  after_script m db none rest = (bad (failed m.file.name), db)
  after_script m db (some s) rest = rest (record { schema = s; user_version = m.version })

  -- the loop over the pending migrations
  unfoldable pub apply_all : List Migration → Database S → Result ℕ × Database S
  apply_all [] db = (good db.user_version, db)
  apply_all (m ∷ pending) db = after_script m db (run m.file.sql db.schema) (apply_all pending)

  abbrev pub migrate_found : Result (List Migration) → Database S → Result ℕ × Database S
  migrate_found (bad e) db = (bad e, db)
  migrate_found (good ms) db = apply_all (filter (λ m. ltb db.user_version m.version) ms) db

  unfoldable pub migrate : List File → Database S → Result ℕ × Database S
  migrate files db = migrate_found (discover files) db
