-- ===== src/Deploy.antt =====
-- What differs between the running app and its checkout (app/services/deploy.py, with the clients of
-- app/services/clients.py). The files are values, `none` where they cannot be read; times are in
-- microseconds. An item holds what its wording is made from.
pub mod Env
mod Tests
use openvpn_connect_web.Prelude.{
  Bool, List, Option, [], all, count, false, get_or, if◌then◌else◌, is_some, leb, length, ltb, max,
  none, not, or_else, some, sort, take, true, ℕ, ◌&&◌, ◌++◌, ◌+◌, ◌-◌, ◌/◌, ◌==◌, ◌||◌, ◌∷◌,
}
use openvpn_connect_web.Prelude.Text.{
  Text, after_prefix, cut, nonempty, split, splitlines, starts_with, strip, text, text_eq, text_ltb,
}

-- `Clients`, and `discover` with `shutil.which`: the second answer is that for the fallback
-- directories
pub record Clients : Type 0 where
  pub classic : Option Text
  pub v3 : Option Text

abbrev pub is_supported : Clients → Bool
is_supported c = is_some c.classic

abbrev pub is_v3_only : Clients → Bool
is_v3_only c = not (is_some c.classic) && is_some c.v3

unfoldable pub discover : (which : Text → Bool → Option Text) → Clients
discover which = record {
  classic = or_else (which (text "openvpn") false) (which (text "openvpn") true);
  v3 = or_else (which (text "openvpn3") false) (which (text "openvpn3") true);
}

pub data DriftItem : Type 0 where
  only_v3 : Text → DriftItem
  no_client helper_missing helper_unstamped helper_differs : DriftItem
  database_behind : (applied newest : ℕ) → DriftItem
  source_newer : (file : Text) → (minutes : ℕ) → DriftItem
  env_damaged : (repeated : List Text) → (junk : ℕ) → DriftItem

unfoldable pub client_drift : Option Clients → Option DriftItem
client_drift none = none
client_drift (some c) =
    if is_supported c
    then none
    else if is_v3_only c
    then some (only_v3 (get_or [] c.v3))
    else some no_client

abbrev pub is_hex : ℕ → Bool
is_hex c = (leb 48 c && leb c 57) || (leb 97 c && leb c 102)

abbrev pub stamp_behind : Option Text → Option Text
stamp_behind none = none
stamp_behind (some rest) =
    let stamp = take 64 rest in
    if (length stamp == 64) && all is_hex stamp && starts_with rest (stamp ++ 34 ∷ [])
    then some stamp
    else none

-- `_STAMP.search`, line by line
abbrev pub stamp_in : List Text → Option Text
stamp_in [] = none
stamp_in (line ∷ lines) =
    or_else (stamp_behind (after_prefix (text "HELPER_VERSION=" ++ 34 ∷ []) line)) (stamp_in lines)

abbrev pub compare_stamp : Text → Option Text → Option DriftItem
compare_stamp expected none = some helper_unstamped
compare_stamp expected (some stamp) = if text_eq stamp expected then none else some helper_differs

-- `template` is the digest of the template
unfoldable pub helper_drift : (installed template : Option Text) → Option DriftItem
unfolding starts_with after_prefix text_eq split
helper_drift installed none = none
helper_drift none (some expected) = some helper_missing
helper_drift (some content) (some expected) = compare_stamp expected (stamp_in (split 10 content))

abbrev pub greatest : List ℕ → ℕ
greatest [] = 0
greatest (n ∷ ns) = max n (greatest ns)

-- `available`: the numbers of the files, `none` where the directory cannot be read
unfoldable pub migration_drift : ℕ → Option (List ℕ) → Option DriftItem
migration_drift applied none = none
migration_drift applied (some available) =
    if not (nonempty available) || leb (greatest available) applied
    then none
    else some (database_behind applied (greatest available))

-- a module below the source root: when it was modified, its name, and whether it is cached
pub record Source : Type 0 where
  pub mtime : ℕ
  pub name : Text
  pub cached : Bool

abbrev pub newer : Source → Option Source → Option Source
newer s none = some s
newer s (some best) = if ltb best.mtime s.mtime then some s else some best

unfoldable pub newest_source : Option Source → List Source → Option Source
newest_source best [] = best
newest_source best (s ∷ sources) = newest_source (if s.cached then best else newer s best) sources

-- `max(1, int((now - mtime) // 60))`
abbrev pub minutes_since : (now mtime : ℕ) → ℕ
minutes_since now mtime = max 1 ((now - mtime) / 60000000)

unfoldable pub code_drift : (now started_at : ℕ) → Option (List Source) → Option DriftItem
unfolding newest_source
code_drift now started_at none = none
code_drift now started_at (some sources) = elim (newest_source none sources) [
  | none ↦ none
  | some s ↦
      if leb s.mtime started_at
      then none
      else some (source_newer s.name (minutes_since now s.mtime))
]

abbrev pub is_key_start : ℕ → Bool
is_key_start c = (leb 65 c && leb c 90) || (leb 97 c && leb c 122) || (c == 95)

abbrev pub is_key_char : ℕ → Bool
is_key_char c = is_key_start c || (leb 48 c && leb c 57)

-- the name before the first "=", if it is one
abbrev pub checked_key : Text × Option Text → Option Text
checked_key ([], rest) = none
checked_key (c ∷ key, none) = none
checked_key (c ∷ key, some rest) =
    if is_key_start c && all is_key_char key then some (c ∷ key) else none

-- `_ASSIGNMENT.match`
unfoldable pub key_of : Text → Option Text
unfolding cut
key_of line = checked_key (cut 61 line)

pub record Tally : Type 0 where
  pub keys : List Text
  pub repeated : List Text
  pub junk : ℕ

-- the line with this key: `seen[key]` is how often the key is among `keys`
abbrev pub assigned : Option Text → Tally → Tally
assigned none t = record t { junk = t.junk + 1 }
assigned (some key) t = record t {
  keys = key ∷ t.keys;
  repeated = if count (text_eq key) t.keys == 1 then t.repeated ++ key ∷ [] else t.repeated;
}

abbrev pub is_passed_over : Text → Bool
is_passed_over stripped = not (nonempty stripped) || starts_with stripped (text "#")

unfoldable pub read_line : Text → Tally → Tally
unfolding key_of strip text_eq starts_with
read_line line t = if is_passed_over (strip line) then t else assigned (key_of (strip line)) t

unfoldable pub read_lines : List Text → Tally → Tally
unfolding read_line
read_lines [] t = t
read_lines (line ∷ lines) t = read_lines lines (read_line line t)

abbrev pub damage_of : Tally → Option DriftItem
damage_of t =
    if not (nonempty t.repeated) && (t.junk == 0)
    then none
    else some (env_damaged (sort (λ a b. not (text_ltb b a)) t.repeated) t.junk)

unfoldable pub env_file_damage : Option Text → Option DriftItem
unfolding read_lines splitlines text_ltb
env_file_damage none = none
env_file_damage (some content) =
    damage_of (read_lines (splitlines content) (record { keys = []; repeated = []; junk = 0 }))

abbrev pub found_in : List (Option DriftItem) → List DriftItem
found_in [] = []
found_in (none ∷ checks) = found_in checks
found_in (some item ∷ checks) = item ∷ found_in checks

-- what the five checks look at
pub record Surroundings : Type 0 where
  pub clients : Option Clients
  pub installed : Option Text
  pub template : Option Text
  pub schema_version : ℕ
  pub available : Option (List ℕ)
  pub now : ℕ
  pub started_at : ℕ
  pub sources : Option (List Source)
  pub env_file : Option Text

unfoldable pub report : Surroundings → List DriftItem
unfolding client_drift helper_drift migration_drift code_drift env_file_damage
report s = found_in (
    client_drift s.clients
    ∷ helper_drift s.installed s.template
    ∷ migration_drift s.schema_version s.available
    ∷ code_drift s.now s.started_at s.sources
    ∷ env_file_damage s.env_file
    ∷ [])
