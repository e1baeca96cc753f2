-- ===== src/Dns/Tests.antt =====
-- A domain that the pattern's end of line lets through with a newline in it.
use openvpn_connect_web.Store.DnsRules.{DnsRule, domain_rule, fallback_rule}
use openvpn_connect_web.Prelude.{[], none, refl, some, ◌++◌, ◌∷◌, ◌≡◌, Bool, map, true}
use openvpn_connect_web.Dns.{
  drop_final_newline, is_domain, is_label, is_label_char, rstrip_dots, validate_domain,
  validate_address,
}
use openvpn_connect_web.Prelude.Text.{
  lower, split, starts_with, strip, text, Text, contains, is_line_break, splitlines, after_prefix,
}
use openvpn_connect_web.Dns.Lines.{IsDomainRule, IsFallbackRule, parsed_domain, parsed_fallback}
use openvpn_connect_web.Dns.File.{
  by_domain, by_position, parse_dnsmasq, read_lines, render_dnsmasq, domain_match, fallback_match,
  read_stripped,
}
use openvpn_connect_web.Dns.Reading.{parse_dnsmasq-render_dnsmasq}

newline_in_a_domain : validate_domain (text "corp" ++ 10 ∷ text ".") ≡ some (text "corp" ++ 10 ∷ [])
unfolding validate_domain strip rstrip_dots lower is_domain drop_final_newline is_label split
    starts_with is_label_char
newline_in_a_domain = refl

hyphen_is_refused : validate_domain (text "-corp.example") ≡ none
unfolding validate_domain strip rstrip_dots lower is_domain drop_final_newline is_label split
    starts_with is_label_char
hyphen_is_refused = refl

abbrev corp : DnsRule
corp = record {
  id = 1;
  kind = domain_rule;
  domain = some (text "corp.example");
  address = text "10.0.0.53";
  position = none;
  updated_at = 5;
}

abbrev second : DnsRule
second = record {
  id = 2;
  kind = fallback_rule;
  domain = none;
  address = text "9.9.9.9";
  position = some 1;
  updated_at = 6;
}

abbrev first : DnsRule
first = record second { id = 3; address = text "1.1.1.1"; position = some 0 }

-- an address with no colon, as far as these tests need one
abbrev is_dotted : Text → Bool
is_dotted a = contains (text ".") a

plain_rules :
    IsDomainRule is_dotted corp × (IsFallbackRule is_dotted second × IsFallbackRule is_dotted first)
unfolding validate_address validate_domain contains strip is_line_break
plain_rules = ((text "corp.example", refl, refl, refl, (refl, refl)), ((refl, refl), (refl, refl)))

parse_dnsmasq-render_dnsmasq_example :
    parse_dnsmasq is_dotted (render_dnsmasq (corp ∷ []) (second ∷ first ∷ [])) ≡ (
      map parsed_domain (by_domain (corp ∷ []))
          ++ map parsed_fallback (by_position (second ∷ first ∷ [])),
      [],
    )
parse_dnsmasq-render_dnsmasq_example =
    parse_dnsmasq-render_dnsmasq is_dotted (corp ∷ []) (second ∷ first ∷ []) (plain_rules.0, tt)
      (plain_rules.1.0, (plain_rules.1.1, tt))

fallbacks_in_order : by_position (second ∷ first ∷ []) ≡ first ∷ second ∷ []
fallbacks_in_order = refl

-- an address that `ipaddress` takes as a scoped one brings a line of its own into the file
line_in_an_address :
    (parse_dnsmasq
      (λ a. true)
      (render_dnsmasq []
        (record first { address = text "fe80::1%a" ++ 10 ∷ text "server=8.8.8.8" } ∷ []))).0
    ≡ parsed_fallback (record first { address = text "fe80::1%a" })
      ∷ parsed_fallback (record first { address = text "8.8.8.8" })
      ∷ []
unfolding parse_dnsmasq render_dnsmasq read_lines splitlines read_stripped strip starts_with
    domain_match after_prefix fallback_match validate_address
line_in_an_address = refl
