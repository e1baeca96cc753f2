-- ===== src/Dns/Lines.antt =====
-- A line that is written for a rule is read back as the rule.
use openvpn_connect_web.Store.DnsRules.{DnsRule, domain_rule, fallback_rule}
use openvpn_connect_web.Dns.File.{
  ParsedRule, understood, domain_line, domain_match, fallback_line, read_line, fallback_match,
  read_stripped,
}
use openvpn_connect_web.Prelude.{
  Bool, [], all, all-append, all_weaken, arith, false, none, not, refl, some, true, ℕ, ◌&&◌, ◌++◌,
  ◌==◌, ◌∷◌, ◌≡◌, ◌||◌,
}
use openvpn_connect_web.Prelude.Text.{
  Text, after_prefix, contains, cut, is_line_break, is_space, nonempty, starts_with, strip,
  strip_of_solid, text,
}
use openvpn_connect_web.Dns.{validate_address, validate_domain}

abbrev is_plain_char : ℕ → Bool
is_plain_char c = not (is_space c) && not (is_line_break c) && not (c == 47)

-- not empty, and without a space, a line boundary and a slash
abbrev pub is_plain : Text → Bool
is_plain s = nonempty s && all is_plain_char s

abbrev pub solid : Text → Bool
solid = all (λ c. not (is_space c) && not (is_line_break c))

plain-solid : (s : Text) → is_plain s ≡ true → solid s ≡ true
plain-solid s h = all_weaken is_plain_char _ (λ c e. ground arith) s (ground arith)

plain-slashless : (s : Text) → is_plain s ≡ true → all (λ c. not (c == 47)) s ≡ true
plain-slashless s h = all_weaken is_plain_char _ (λ c e. ground arith) s (ground arith)

solid-strip : (s : Text) → solid s ≡ true → strip s ≡ s
solid-strip s h = strip_of_solid s (all_weaken _ _ (λ c e. ground arith) s h)

pub solid-unbroken : (s : Text) → solid s ≡ true → all (λ c. not (is_line_break c)) s ≡ true
solid-unbroken s h = all_weaken _ _ (λ c e. ground arith) s h

cut_at_slash : (d a : Text) → all (λ c. not (c == 47)) d ≡ true → cut 47 (d ++ 47 ∷ a) ≡ (d, some a)
unfolding cut
cut_at_slash [] a h = refl
cut_at_slash (c ∷ d) a h =
    let other : (c == 47) ≡ false = ground arith in rw (other, cut_at_slash d a (ground arith)) refl

slashless : (a : Text) → all (λ c. not (c == 47)) a ≡ true → contains (text "/") a ≡ false
unfolding contains starts_with
slashless [] h = refl
slashless (c ∷ a) h =
    let other : (c == 47) ≡ false = ground arith in rw (other, slashless a (ground arith)) refl

no_domain : (a : Text) → is_plain a ≡ true → domain_match (text "server=" ++ a) ≡ none
unfolding domain_match after_prefix
no_domain [] h = cc
no_domain (c ∷ a) h = let other : (c == 47) ≡ false = ground arith in rw other refl

abbrev pub parsed_domain : DnsRule → ParsedRule
parsed_domain r = record { kind = domain_rule; domain = r.domain; address = r.address }

abbrev pub parsed_fallback : DnsRule → ParsedRule
parsed_fallback r = record { kind = fallback_rule; domain = none; address = r.address }

module _ (is_address : Text → Bool) where
  -- an address that the check of addresses leaves as it is
  abbrev pub IsAddress : Text → Type 0
  IsAddress a = (validate_address is_address a ≡ some a) × (is_plain a ≡ true)

  abbrev pub IsDomainRule : DnsRule → Type 0
  IsDomainRule r =
      (d : Text) × (r.domain ≡ some d)
      × (validate_domain d ≡ some d)
      × (is_plain d ≡ true)
      × IsAddress r.address

  abbrev pub IsFallbackRule : DnsRule → Type 0
  IsFallbackRule r = IsAddress r.address

  pub domain_line-solid : (r : DnsRule) → IsDomainRule r → solid (domain_line r) ≡ true
  unfolding domain_line is_space is_line_break
  domain_line-solid r (d, named, valid, plain, (passes, fine)) =
      rw
        (
          named,
          all-append (λ c. not (is_space c) && not (is_line_break c)) d (47 ∷ r.address),
          plain-solid d plain,
          plain-solid r.address fine,
        )
        refl

  pub fallback_line-solid : (r : DnsRule) → IsFallbackRule r → solid (fallback_line r) ≡ true
  unfolding fallback_line is_space is_line_break
  fallback_line-solid r (passes, fine) = rw (plain-solid r.address fine) refl

  domain_match-domain_line :
      (r : DnsRule) (h : IsDomainRule r) → domain_match (domain_line r) ≡ some (h.0, r.address)
  unfolding domain_match domain_line after_prefix
  domain_match-domain_line r (d, named, valid, plain, (passes, fine)) =
      rw (named, cut_at_slash d r.address (plain-slashless d plain)) (ground arith)

  fallback_match-fallback_line :
      (r : DnsRule)
      → IsFallbackRule r
      → (domain_match (fallback_line r) ≡ none)
        × (fallback_match (fallback_line r) ≡ some r.address)
  unfolding domain_match fallback_match fallback_line after_prefix
  fallback_match-fallback_line r (passes, fine) = (
    no_domain r.address fine,
    rw (slashless r.address (plain-slashless r.address fine)) (ground arith),
  )

  domain_line-kept :
      (r : DnsRule)
      → (not (nonempty (domain_line r)) || starts_with (domain_line r) (text "#")) ≡ false
  unfolding domain_line starts_with
  domain_line-kept r = refl

  fallback_line-kept :
      (r : DnsRule)
      → (not (nonempty (fallback_line r)) || starts_with (fallback_line r) (text "#")) ≡ false
  unfolding fallback_line starts_with
  fallback_line-kept r = refl

  read_domain :
      (r : DnsRule)
      → IsDomainRule r
      → read_stripped is_address (domain_line r) ≡ understood (parsed_domain r)
  unfolding read_stripped
  read_domain r h =
      let (d, named, valid, plain, (passes, fine)) = h in
      rw (domain_line-kept r, domain_match-domain_line r h, valid, passes, named) refl

  read_fallback :
      (r : DnsRule)
      → IsFallbackRule r
      → read_stripped is_address (fallback_line r) ≡ understood (parsed_fallback r)
  unfolding read_stripped
  read_fallback r h =
      let (no_domain_here, found) = fallback_match-fallback_line r h in
      rw (fallback_line-kept r, no_domain_here, found, h.0) refl

  pub read_domain_line :
      (r : DnsRule)
      → IsDomainRule r
      → read_line is_address (domain_line r) ≡ understood (parsed_domain r)
  unfolding read_line
  read_domain_line r h = rw (solid-strip (domain_line r) (domain_line-solid r h)) (read_domain r h)

  pub read_fallback_line :
      (r : DnsRule)
      → IsFallbackRule r
      → read_line is_address (fallback_line r) ≡ understood (parsed_fallback r)
  unfolding read_line
  read_fallback_line r h =
      rw (solid-strip (fallback_line r) (fallback_line-solid r h)) (read_fallback r h)
