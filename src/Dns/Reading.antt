-- ===== src/Dns/Reading.antt =====
-- The file that is written is read back as the rules it was written from.
use openvpn_connect_web.Dns.Lines.{
  IsDomainRule, IsFallbackRule, parsed_domain, parsed_fallback, solid, domain_line-solid,
  fallback_line-solid, read_domain_line, read_fallback_line, solid-unbroken,
}
use openvpn_connect_web.Store.DnsRules.{DnsRule}
use openvpn_connect_web.Dns.File.{
  ParsedRule, by_domain, by_position, domain_line, fallback_line, managed, parse_dnsmasq,
  passed_over, read_line, read_lines, read_stripped, render_dnsmasq,
}
use openvpn_connect_web.Prelude.{
  All, All-append, All-sort, Bool, List, [], all, ap, append_assoc, map, not, refl, true, ◌++◌, ◌∙◌,
  ◌∷◌, ◌≡◌,
}
use openvpn_connect_web.Prelude.Text.{
  Text, is_line_break, join, splitlines, splitlines-append, starts_with, strip,
}

abbrev IsSolid : Text → Type 0
IsSolid s = solid s ≡ true

managed-unbroken : all (λ c. not (is_line_break c)) managed ≡ true
unfolding is_line_break
managed-unbroken = refl

splitlines-join :
    (line : Text) (lines : List Text)
    → all (λ c. not (is_line_break c)) line ≡ true
    → All IsSolid lines
    → splitlines (join 10 (line ∷ lines) ++ 10 ∷ []) ≡ line ∷ lines
unfolding join splitlines
splitlines-join line [] h hs = splitlines-append line [] h
splitlines-join line (l ∷ lines) h hs =
    ap splitlines (append_assoc line (10 ∷ join 10 (l ∷ lines)) (10 ∷ []))
    ∙ splitlines-append line _ h
    ∙ ap (◌∷◌ line) (splitlines-join l lines (solid-unbroken l hs.0) hs.1)

module _ (is_address : Text → Bool) where
  read_lines-domain :
      (rules : List DnsRule) (more : List Text) (parsed : List ParsedRule)
      → All (IsDomainRule is_address) rules
      → read_lines is_address more ≡ (parsed, [])
      → read_lines is_address (map domain_line rules ++ more)
        ≡ (map parsed_domain rules ++ parsed, [])
  unfolding read_lines
  read_lines-domain [] more parsed h e = e
  read_lines-domain (r ∷ rules) more parsed h e =
      rw (read_domain_line is_address r h.0, read_lines-domain rules more parsed h.1 e) refl

  read_lines-fallback :
      (rules : List DnsRule)
      → All (IsFallbackRule is_address) rules
      → read_lines is_address (map fallback_line rules) ≡ (map parsed_fallback rules, [])
  unfolding read_lines
  read_lines-fallback [] h = refl
  read_lines-fallback (r ∷ rules) h =
      rw (read_fallback_line is_address r h.0, read_lines-fallback rules h.1) refl

  domain_lines-IsSolid :
      (rules : List DnsRule)
      → All (IsDomainRule is_address) rules
      → All IsSolid (map domain_line rules)
  domain_lines-IsSolid [] h = tt
  domain_lines-IsSolid (r ∷ rules) h =
      (domain_line-solid is_address r h.0, domain_lines-IsSolid rules h.1)

  fallback_lines-IsSolid :
      (rules : List DnsRule)
      → All (IsFallbackRule is_address) rules
      → All IsSolid (map fallback_line rules)
  fallback_lines-IsSolid [] h = tt
  fallback_lines-IsSolid (r ∷ rules) h =
      (fallback_line-solid is_address r h.0, fallback_lines-IsSolid rules h.1)

  read_first :
      (line : Text) (lines : List Text)
      → read_line is_address line ≡ passed_over
      → read_lines is_address (line ∷ lines) ≡ read_lines is_address lines
  unfolding read_lines
  read_first line lines e = rw e refl

  read_managed : read_line is_address managed ≡ passed_over
  unfolding read_line read_stripped strip starts_with
  read_managed = refl

  -- The file that is written for well-formed rules is read back as those rules and nothing else:
  -- the domain rules by their domains, then the fallback rules by their positions, and no line that
  -- is not understood. A well-formed rule's domain and address are left as they are by the checks,
  -- are not empty, and hold no space, line boundary or slash.
  pub parse_dnsmasq-render_dnsmasq :
      (domain_rules fallback_rules : List DnsRule)
      → All (IsDomainRule is_address) domain_rules
      → All (IsFallbackRule is_address) fallback_rules
      → parse_dnsmasq is_address (render_dnsmasq domain_rules fallback_rules) ≡ (
        map parsed_domain (by_domain domain_rules)
            ++ map parsed_fallback (by_position fallback_rules),
        [],
      )
  unfolding parse_dnsmasq render_dnsmasq
  parse_dnsmasq-render_dnsmasq ds fs hd hf =
      let hd' = All-sort _ (IsDomainRule is_address) ds hd in
      let hf' = All-sort _ (IsFallbackRule is_address) fs hf in
      let body = map domain_line (by_domain ds) ++ map fallback_line (by_position fs) in
      let solid_body =
        All-append IsSolid _ _ (domain_lines-IsSolid (by_domain ds) hd')
          (fallback_lines-IsSolid (by_position fs) hf') in
      ap (read_lines is_address) (splitlines-join managed body managed-unbroken solid_body)
      ∙ read_first managed body read_managed
      ∙ read_lines-domain (by_domain ds) _ _ hd' (read_lines-fallback (by_position fs) hf')
