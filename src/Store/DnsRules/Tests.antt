-- ===== src/Store/DnsRules/Tests.antt =====
-- Two fallback servers, of which the second moves up.
use openvpn_connect_web.Dns.{is_domain, rstrip_dots, validate_address, validate_domain}
use openvpn_connect_web.Prelude.{Bool, List, [], map, none, refl, true, ◌∷◌, ◌≡◌}
use openvpn_connect_web.Store.DnsRules.Usage.{Edit, adds, edit, edit_all, edit_all-IsTidy, moves}
use openvpn_connect_web.Store.DnsRules.Forwarders.{IsTidy}
use openvpn_connect_web.Prelude.Text.{Text, strip, text, text_eq}
use openvpn_connect_web.Store.DnsRules.{
  add_checked, add_dns_rule, fallback_rule, move_fallback_rule, move_found, neighbour,
  next_position, position_of, put_fallback, swap, update, upward,
}

abbrev any_text : Text → Bool
any_text t = true

abbrev edits : List Edit
edits =
    adds 1 fallback_rule none (text "9.9.9.9")
    ∷ adds 2 fallback_rule none (text "1.1.1.1")
    ∷ adds 3 fallback_rule none (text "1.1.1.1")
    ∷ moves 4 2 upward
    ∷ []

edit_all-IsTidy_example : IsTidy (edit_all any_text edits [])
edit_all-IsTidy_example = edit_all-IsTidy any_text edits

moved_up : map position_of (edit_all any_text edits []) ≡ 1 ∷ 0 ∷ []
unfolding edit_all edit add_dns_rule add_checked put_fallback next_position move_fallback_rule
    move_found swap neighbour update validate_address validate_domain strip text_eq rstrip_dots
    is_domain
moved_up = refl
