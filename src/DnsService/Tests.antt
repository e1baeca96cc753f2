-- ===== src/DnsService/Tests.antt =====
-- A service over a disk that counts what it is shown, the import of a written file, and an import
-- that stops half way.
use openvpn_connect_web.Firewall.{Answer, output, trouble}
use openvpn_connect_web.Store.DnsRules.{
  DnsRule, RuleKind, Direction, add_dns_rule, already_a_fallback, delete_dns_rule, domain_rule,
  fallback_rule, move_fallback_rule,
}
use openvpn_connect_web.DnsService.{
  Service, Outcome, add, delete, move, import_legacy, refused, done, apply, legacy_preview,
  warning_of, insert_all,
}
use openvpn_connect_web.DnsService.Applied.{IsCarriedOut, change-IsCarriedOut}
use openvpn_connect_web.DnsService.Import.{as_parsed, import_legacy-render_dnsmasq}
use openvpn_connect_web.Prelude.{
  All, Bool, List, Option, [], if◌then◌else◌, leb, map, none, refl, some, suc, ℕ, ◌++◌, ◌∷◌, ◌≡◌,
}
use openvpn_connect_web.Dns.Lines.{IsDomainRule, IsFallbackRule, parsed_domain, parsed_fallback}
use openvpn_connect_web.Prelude.Text.{
  Text, after_prefix, contains, is_line_break, strip, text, starts_with, text_eq,
}
use openvpn_connect_web.Dns.File.{
  by_domain, by_position, render_dnsmasq, domain_match, fallback_match, read_stripped,
}
use openvpn_connect_web.Dns.{validate_address, validate_domain}

-- the helper fails from its third call on, and a disk takes five files
abbrev counting : Text → ℕ → Answer × ℕ
counting content n =
    ((if leb n 1 then output (text "applied: restarted dnsmasq ") else trouble (text "no")), suc n)

abbrev has_room : ℕ → Bool
has_room n = leb n 4

abbrev is_dotted : Text → Bool
is_dotted a = contains (text ".") a

abbrev home : DnsRule
home = record {
  id = 1;
  kind = domain_rule;
  domain = some (text "home.example");
  address = text "10.0.0.1";
  position = none;
  updated_at = 3;
}

abbrev quad : DnsRule
quad = record {
  id = 2;
  kind = fallback_rule;
  domain = none;
  address = text "9.9.9.9";
  position = some 0;
  updated_at = 4;
}

abbrev service : Service ℕ
service = record { rules = home ∷ quad ∷ []; staging = none; outside = 0 }

warned : (delete has_room counting 1 service).0 ≡ done tt (some (text "restarted dnsmasq"))
unfolding delete apply delete_dns_rule warning_of strip after_prefix
warned = refl

change-IsCarriedOut_example :
    ((kind : RuleKind) (domain : Option Text) (address : Text)
      → IsCarriedOut has_room counting service
          (add_dns_rule is_dotted 9 kind domain address service.rules)
          (add has_room counting is_dotted 9 kind domain address service))
    × ((i : ℕ)
        → IsCarriedOut has_room counting service
            (delete_dns_rule i service.rules)
            (delete has_room counting i service))
    × ((i : ℕ) (direction : Direction)
        → IsCarriedOut has_room counting service
            (move_fallback_rule 9 i direction service.rules)
            (move has_room counting is_dotted 9 i direction service))
change-IsCarriedOut_example = change-IsCarriedOut has_room counting is_dotted 9 service

written_rules :
    All (IsDomainRule is_dotted) (home ∷ []) × All (IsFallbackRule is_dotted) (quad ∷ [])
unfolding validate_address validate_domain contains strip is_line_break
written_rules = (((text "home.example", refl, refl, refl, (refl, refl)), tt), ((refl, refl), tt))

import_legacy-render_dnsmasq_example :
    map as_parsed
      (import_legacy has_room counting is_dotted 9
        (some (render_dnsmasq (home ∷ []) (quad ∷ [])))
        (record { rules = []; staging = none; outside = 0 })).1.rules
    ≡ map parsed_domain (by_domain (home ∷ [])) ++ map parsed_fallback (by_position (quad ∷ []))
import_legacy-render_dnsmasq_example =
    import_legacy-render_dnsmasq is_dotted 9 has_room counting (home ∷ []) (quad ∷ []) none 0
      written_rules.0 written_rules.1 ((refl, tt), (tt, tt))

-- Of a file that names a fallback twice, the first line stays stored, the rest is not, nothing is
-- applied, and the preview is gone for good.
abbrev twice : Text
twice = text "server=1.1.1.1" ++ 10 ∷ text "server=1.1.1.1" ++ 10 ∷ text "server=8.8.8.8"

abbrev half_imported : Option (Outcome (ℕ × List Text)) × Service ℕ
half_imported =
    import_legacy has_room counting is_dotted 9 (some twice)
      (record { rules = []; staging = none; outside = 0 })

import_stops :
    (half_imported.0 ≡ some (refused (already_a_fallback (text "1.1.1.1"))))
    × (map (λ r. r.address) half_imported.1.rules ≡ text "1.1.1.1" ∷ [])
    × (half_imported.1.staging ≡ none)
    × (legacy_preview is_dotted 9 (some twice) half_imported.1.rules ≡ none)
unfolding import_legacy legacy_preview read_stripped strip starts_with domain_match after_prefix
    fallback_match validate_address insert_all add_dns_rule text_eq
import_stops = (refl, refl, refl, refl)
