-- ===== src/Connections.antt =====
-- app/services/connections.py: the seam between the database and the controller. The directory of the
-- profiles is a function from file names; whether the disk takes a write is an argument.
use openvpn_connect_web.Prelude.{
  ◌>>=◌, Bool, Option, [], false, if◌then◌else◌, is_some, none, not, or_else, some, true, ◌&&◌,
  ◌++◌, ◌==◌, ◌||◌, ◌∷◌, List, ℕ,
}
use openvpn_connect_web.Store.Connections.{
  Connection, Form, get_connection, is_valid_name, no_such_connection, Stored, kept, store_error,
}
use openvpn_connect_web.Store.Connections
use openvpn_connect_web.Vault.{Cipher, Columns, columns_of, decrypt_columns}
use openvpn_connect_web.Controller.Api.{Resolved}
pub mod Override
pub mod Secrets
mod Tests
use openvpn_connect_web.Prelude.Text.{Text, is_space, lower_char, lstrip, text, text_eq}

-- a literal of a pattern that ignores case, taken off the front
unfoldable pub literal : Text → Text → Option Text
unfolding lower_char
literal [] s = some s
literal (c ∷ p) [] = none
literal (c ∷ p) (d ∷ s) = let rest = literal p s in if lower_char d == c then rest else none

-- `\s+`
unfoldable pub spaces : Text → Option Text
unfolding lstrip is_space
spaces [] = none
spaces (c ∷ s) = if is_space c then some (lstrip s) else none

-- `["']?`
unfoldable pub opening_quote : Text → Text
opening_quote [] = []
opening_quote (c ∷ s) = if (c == 34) || (c == 39) then s else c ∷ s

-- `(?:ignore|reject)`
unfoldable pub ignore_or_reject : Text → Option Text
unfolding literal
ignore_or_reject s = or_else (literal (text "ignore") s) (literal (text "reject") s)

-- `_HAS_DNS_PULL_FILTER` and `_HAS_STATIC_CHALLENGE`, at the start of a line
unfoldable pub pull_filter_here : Text → Bool
unfolding literal spaces opening_quote ignore_or_reject lstrip
pull_filter_here s = is_some (do
  s1 ← literal (text "pull-filter") (lstrip s)
  s2 ← spaces s1
  s3 ← ignore_or_reject s2
  s4 ← spaces s3
  s5 ← literal (text "dhcp-option") (opening_quote s4)
  s6 ← spaces s5
  literal (text "dns") s6)

abbrev pub ends_or_spaces : Text → Bool
ends_or_spaces [] = true
ends_or_spaces (c ∷ s) = is_space c

unfoldable pub static_challenge_here : Text → Bool
unfolding literal lstrip is_space
static_challenge_here s = elim (literal (text "static-challenge") (lstrip s)) [
  | none ↦ false
  | some rest ↦ ends_or_spaces rest
]

-- after some newline of the text
unfoldable pub after_newline : (Text → Bool) → Text → Bool
after_newline matches [] = false
after_newline matches (c ∷ s) = ((c == 10) && matches s) || after_newline matches s

-- `search` with MULTILINE
unfoldable pub at_line_start : (Text → Bool) → Text → Bool
unfolding after_newline
at_line_start matches s = matches s || after_newline matches s

unfoldable pub profile_wants_mfa : Text → Bool
unfolding at_line_start static_challenge_here
profile_wants_mfa profile = at_line_start static_challenge_here profile

unfoldable pub has_dns_pull_filter : Text → Bool
unfolding at_line_start pull_filter_here
has_dns_pull_filter profile = at_line_start pull_filter_here profile

abbrev pub pull_filter_dns : Text
pull_filter_dns = text "pull-filter ignore \"dhcp-option DNS\""

abbrev pub override_header : Text
override_header = text "# Added by vpn-connect: 'Ignore pushed DNS' is on for this connection."

abbrev pub ends_with_newline : Text → Bool
ends_with_newline [] = false
ends_with_newline (c ∷ []) = c == 10
ends_with_newline (c ∷ d ∷ s) = ends_with_newline (d ∷ s)

abbrev pub separator : Text → Text
separator profile = if ends_with_newline profile then [] else 10 ∷ []

-- the comment and the filter, on lines of their own
abbrev pub added_lines : Text → Text
added_lines profile =
    (separator profile ++ override_header) ++ (10 ∷ (pull_filter_dns ++ (10 ∷ [])))

unfoldable pub with_dns_override : Text → Bool → Text
unfolding has_dns_pull_filter
with_dns_override profile ignore =
    if not ignore || has_dns_pull_filter profile then profile else profile ++ added_lines profile

pub data Failure : Type 0 where
  not_unlocked os_error undecryptable : Failure
  refused_by_store : Text → Failure

pub data Served {ℓ} (A : Type ℓ) : Type ℓ where
  served : A → Served A
  failed_with : Failure → Served A

-- `f"{name}.ovpn"`
abbrev pub profile_name : Text → Text
profile_name n = n ++ text ".ovpn"

module _ {K : Type 0} (cipher : Cipher K) where
  -- the table, the key in memory and the files of VPN_DIR
  pub record Service : Type 0 where
    pub rows : List Connection
    pub key : Option K
    pub files : Text → Option Text

  -- `write_profile`; `disk` says whether the directory takes the file
  abbrev pub put_file : Text → Option Text → (Text → Option Text) → Text → Option Text
  put_file f content files = λ g. if text_eq g f then content else files g

  -- the form as `save` passes it on: whether a code is needed is read from the profile
  unfoldable pub derived : Form → Form
  unfolding profile_wants_mfa
  derived f = record f { requires_mfa = profile_wants_mfa f.profile }

  -- what follows `store.save_connection`
  unfoldable pub after_save :
      Bool
      → Form
      → Stored (Option Connection) × List Connection
      → Service
      → Served (Option Connection) × Service
  unfolding with_dns_override
  after_save disk f (store_error why, rows) w = (failed_with (refused_by_store why), w)
  after_save disk f (kept c, rows) w =
      let saved = record w { rows = rows } in
      if disk
      then (
        served c,
        record saved {
          files =
              put_file (profile_name f.name)
                (some (with_dns_override f.profile f.ignore_pushed_dns)) w.files;
        },
      )
      else (failed_with os_error, saved)

  unfoldable pub save_with :
      ℕ → ℕ → Bool → Form → Option K → Service → Served (Option Connection) × Service
  unfolding after_save derived
  save_with now iv disk f none w = (failed_with not_unlocked, w)
  save_with now iv disk f (some key) w =
      after_save disk f (Connections.save_connection (cipher.encrypt key iv) now (derived f) w.rows)
        w

  unfoldable pub save : ℕ → ℕ → Bool → Form → Service → Served (Option Connection) × Service
  unfolding save_with
  save now iv disk f w = save_with now iv disk f w.key w

  abbrev pub after_delete :
      Text → Stored (Unit {0}) × List Connection → Service → Served (Unit {0}) × Service
  after_delete n (store_error why, rows) w = (failed_with (refused_by_store why), w)
  after_delete n (kept _, rows) w =
      (served tt, record w { rows = rows; files = put_file (profile_name n) none w.files })

  unfoldable pub delete : Text → Service → Served (Unit {0}) × Service
  delete n w = after_delete n (Connections.delete_connection n w.rows) w

  -- the rest of `resolve`, with the decrypted columns
  unfoldable pub resolve_with :
      Bool → Text → Connection → Option Columns → Service → Served Resolved × Service
  unfolding with_dns_override profile_wants_mfa
  resolve_with disk n c none w = (failed_with undecryptable, w)
  resolve_with disk n c (some plain) w =
      if disk
      then (
        served (record {
          name = c.name;
          username = plain.username;
          password = plain.password;
          requires_mfa = profile_wants_mfa plain.profile;
        }),
        record w {
          files =
              put_file (profile_name n) (some (with_dns_override plain.profile c.ignore_pushed_dns))
                w.files;
        },
      )
      else (failed_with os_error, w)

  unfoldable pub resolve_found :
      Bool → Text → Option Connection → Option K → Service → Served Resolved × Service
  unfolding resolve_with decrypt_columns
  resolve_found disk n none key w = (failed_with (refused_by_store (no_such_connection n)), w)
  resolve_found disk n (some c) none w = (failed_with not_unlocked, w)
  resolve_found disk n (some c) (some key) w =
      resolve_with disk n c (decrypt_columns cipher key (columns_of c)) w

  unfoldable pub resolve : Bool → Text → Service → Served Resolved × Service
  unfolding resolve_found is_valid_name
  resolve disk n w =
      if is_valid_name n then resolve_found disk n (get_connection w.rows n) w.key w else (
        failed_with (
            refused_by_store
              (text "A connection name may only contain letters, digits, '-' and '_'.")),
        w,
      )
