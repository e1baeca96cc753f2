-- ===== src/Connections/Tests.antt =====
-- A profile that asks for a code, saved and resolved; and a name with a space in front.
use openvpn_connect_web.Vault.Toy.{toy}
use openvpn_connect_web.Connections.{
  save, save_with, after_save, derived, Service, after_newline, at_line_start, has_dns_pull_filter,
  literal, profile_name, profile_wants_mfa, resolve, served, static_challenge_here,
  with_dns_override,
}
use openvpn_connect_web.Store.Connections.{
  check_form, save_connection, is_valid_name, is_name_char, Form,
}
use openvpn_connect_web.Prelude.{Option, [], false, none, refl, some, true, ◌++◌, ◌∷◌, ◌≡◌}
use openvpn_connect_web.Prelude.Text.{Text, is_space, lower_char, lstrip, strip, text, text_eq}
use openvpn_connect_web.Connections.Override.{has_dns_pull_filter-with_dns_override}
use openvpn_connect_web.Connections.Secrets.{resolve-save}

abbrev work : Form
work = record {
  name = text "work";
  profile = text "client" ++ 10 ∷ text " Static-Challenge x";
  username = text "ann";
  password = text "pw";
  label = [];
  static_challenge = [];
  make_default = false;
  ignore_pushed_dns = true;
  requires_mfa = false;
}

abbrev ready : Service toy
ready = record { rows = []; key = some 7; files = λ f. none }

tidy : (strip work.name ≡ work.name) × (check_form work ≡ none)
unfolding strip check_form is_valid_name is_name_char
tidy = (refl, refl)

resolve-save_example :
    let w' = (save toy 1 0 true work ready).1 in
    ((resolve toy true (text "work") w').0
      ≡ served (record {
        name = text "work";
        username = text "ann";
        password = text "pw";
        requires_mfa = profile_wants_mfa work.profile;
      }))
    × ((resolve toy true (text "work") w').1.files (profile_name (text "work"))
        ≡ some (with_dns_override work.profile true))
resolve-save_example = resolve-save toy 1 0 work 7 ready refl tidy.0 tidy.1

has_dns_pull_filter-with_dns_override_example :
    (has_dns_pull_filter (with_dns_override work.profile true) ≡ true)
    × ((rest : Text) × (with_dns_override work.profile true ≡ work.profile ++ rest))
    × (with_dns_override (with_dns_override work.profile true) true
        ≡ with_dns_override work.profile true)
    × (with_dns_override work.profile false ≡ work.profile)
has_dns_pull_filter-with_dns_override_example = has_dns_pull_filter-with_dns_override work.profile

wants_code : profile_wants_mfa work.profile ≡ true
unfolding profile_wants_mfa at_line_start after_newline static_challenge_here literal lstrip
    lower_char is_space
wants_code = refl

-- the stray file of a name with white space around it
stray : Option Text
unfolding save save_with after_save derived
stray =
    elim ((save toy 1 0 true (record work { name = text " work" }) ready).1.files
      (text " work.ovpn")) [ none ↦ none | some profile ↦ some [] ]

stray_file : stray ≡ some []
unfolding stray save save_with after_save derived save_connection check_form is_valid_name
    is_name_char strip with_dns_override has_dns_pull_filter text_eq
stray_file = refl
