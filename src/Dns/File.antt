-- ===== src/Dns/File.antt =====
-- The dnsmasq file: what is written, and how an existing one is read (`render_dnsmasq` and
-- `parse_dnsmasq` of app/services/dns.py).
use openvpn_connect_web.Store.DnsRules.{
  DnsRule, RuleKind, text_or_empty, position_of, domain_rule, fallback_rule,
}
use openvpn_connect_web.Dns.{validate_address, validate_domain}
use openvpn_connect_web.Prelude.{
  ◌>>=◌, List, [], none, some, ◌++◌, ◌∷◌, Bool, Option, if◌then◌else◌, leb, map, not, sort, ◌&&◌,
  ◌||◌,
}
use openvpn_connect_web.Prelude.Text.{
  Text, splitlines, text, after_prefix, contains, cut, join, nonempty, starts_with, strip, text_ltb,
}

abbrev pub managed : Text
managed =
    text "# Managed by vpn-connect. "
    ++ text "Do not edit -- changes here are overwritten on the next save."

-- `sorted(domain_rules, key=lambda r: r.domain or "")`
abbrev pub by_domain : List DnsRule → List DnsRule
by_domain = sort (λ r s. not (text_ltb (text_or_empty s.domain) (text_or_empty r.domain)))

-- `sorted(fallback_rules, key=lambda r: r.position or 0)`
abbrev pub by_position : List DnsRule → List DnsRule
by_position = sort (λ r s. leb (position_of r) (position_of s))

-- `f"{rule.domain}"`
abbrev shown : Option Text → Text
shown none = text "None"
shown (some d) = d

unfoldable pub domain_line : DnsRule → Text
domain_line r = text "server=/" ++ shown r.domain ++ 47 ∷ r.address

unfoldable pub fallback_line : DnsRule → Text
fallback_line r = text "server=" ++ r.address

unfoldable pub render_dnsmasq : List DnsRule → List DnsRule → Text
unfolding domain_line fallback_line join text_ltb
render_dnsmasq domain_rules fallback_rules =
    join 10 (
      managed
      ∷ (map domain_line (by_domain domain_rules)
          ++ map fallback_line (by_position fallback_rules)))
    ++ 10 ∷ []

pub record ParsedRule : Type 0 where
  pub kind : RuleKind
  pub domain : Option Text
  pub address : Text

-- `_DOMAIN_LINE`: the domain and the address of "server=/…/…"
unfoldable pub domain_match : Text → Option (Text × Text)
unfolding cut
domain_match line = do
  rest ← after_prefix (text "server=/") line
  address ← (cut 47 rest).1
  if nonempty (cut 47 rest).0 && nonempty address then some ((cut 47 rest).0, address) else none

-- `_FALLBACK_LINE`: the address of "server=…", without a slash
unfoldable pub fallback_match : Text → Option Text
unfolding contains
fallback_match line = do
  address ← after_prefix (text "server=") line
  if nonempty address && not (contains (text "/") address) then some address else none

-- a line that is passed over, one that is a rule, and one that is neither
pub data Line : Type 0 where
  passed_over not_understood : Line
  understood : ParsedRule → Line

abbrev with_address : RuleKind → Option Text → Option Text → Line
with_address kind domain none = not_understood
with_address kind domain (some address) =
    understood (record { kind = kind; domain = domain; address = address })

abbrev with_domain : Option Text → Option Text → Line
with_domain none address = not_understood
with_domain (some domain) address = with_address domain_rule (some domain) address

module _ (is_address : Text → Bool) where
  abbrev fallback_of : Option Text → Line
  fallback_of none = not_understood
  fallback_of (some a) = with_address fallback_rule none (validate_address is_address a)

  abbrev domain_of : Text × Text → Line
  domain_of (d, a) = with_domain (validate_domain d) (validate_address is_address a)

  abbrev rule_of : Option (Text × Text) → Option Text → Line
  rule_of none fallback = fallback_of fallback
  rule_of (some found) fallback = domain_of found

  unfoldable pub read_stripped : Text → Line
  read_stripped line =
      if not (nonempty line) || starts_with line (text "#")
      then passed_over
      else rule_of (domain_match line) (fallback_match line)

  unfoldable pub read_line : Text → Line
  read_line raw = read_stripped (strip raw)

  abbrev with_line : Text → Line → List ParsedRule × List Text → List ParsedRule × List Text
  with_line raw passed_over (rules, unparsed) = (rules, unparsed)
  with_line raw not_understood (rules, unparsed) = (rules, raw ∷ unparsed)
  with_line raw (understood r) (rules, unparsed) = (r ∷ rules, unparsed)

  -- the lines that are not understood come back as they stand
  unfoldable pub read_lines : List Text → List ParsedRule × List Text
  unfolding read_line
  read_lines [] = ([], [])
  read_lines (raw ∷ lines) = with_line raw (read_line raw) (read_lines lines)

  unfoldable pub parse_dnsmasq : Text → List ParsedRule × List Text
  unfolding read_lines splitlines
  parse_dnsmasq file = read_lines (splitlines file)
