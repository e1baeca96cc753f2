-- ===== src/Store/Connections/Tests.antt =====
-- A table that gains two connections and loses the first.
use openvpn_connect_web.Store.Connections.{
  before, is_marked, mark_default, promote, Connection, Form, blank, check_form, clear_defaults,
  default_connection, delete_connection, first_name, get_connection, has_name, is_name_char,
  is_valid_name, put_row, save_connection, upsert, with_values, write,
}
use openvpn_connect_web.Store.Connections.Usage.{
  Call, apply, apply_all, default_connection-apply_all, deletes, saves,
}
use openvpn_connect_web.Store.Connections.Default.{IsWellMarked}
use openvpn_connect_web.Prelude.{
  List, [], arith, count, false, map, none, refl, some, true, ◌∷◌, ◌≡◌, ◌≢◌, ◌≤◌, Bool,
}
use openvpn_connect_web.Prelude.Text.{Text, strip, text, text_eq}

abbrev plain : Text → Text
plain t = t

abbrev form_of : Text → Form
form_of n = record {
  name = n;
  profile = text "client";
  username = text "u";
  password = text "p";
  label = [];
  static_challenge = [];
  make_default = false;
  ignore_pushed_dns = false;
  requires_mfa = true;
}

abbrev calls : List Call
calls = saves 1 (form_of (text "a")) ∷ saves 2 (form_of (text "b")) ∷ deletes (text "a") ∷ []

left_over :
    map {B = Text × Bool} (λ (c : Connection). (c.name, c.is_default)) (apply_all plain calls [])
    ≡ (text "b", true) ∷ []
unfolding apply_all apply save_connection check_form write upsert put_row with_values blank
    mark_default clear_defaults delete_connection promote first_name before get_connection
    is_valid_name is_name_char strip text_eq
left_over = refl

default_connection-apply_all_example :
    ((n : Text) → count (has_name n) (apply_all plain calls []) ≤ 1)
    × (apply_all plain calls [] ≢ []
        → (count is_marked (apply_all plain calls []) ≡ 1)
          × ((c : Connection) × (default_connection (apply_all plain calls []) ≡ some c)
              × (c.is_default ≡ true)))
default_connection-apply_all_example = default_connection-apply_all plain calls

empty-IsWellMarked : IsWellMarked []
empty-IsWellMarked = record { unique = λ n. omega arith; one_default = refl }

fine : check_form (form_of (text "a")) ≡ none
unfolding check_form is_valid_name is_name_char strip
fine = refl
