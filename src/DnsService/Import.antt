-- ===== src/DnsService/Import.antt =====
-- A file that the panel wrote, imported into an empty table, brings its rules back.
use openvpn_connect_web.Firewall.{Answer}
use mathlib.Core.Path.{subst}
use openvpn_connect_web.Store.DnsRules.{
  DnsRule, RuleKind, Changed, changed, add_checked, domain_rule, fallback_rule, text_or_empty,
  add_dns_rule, put_domain, put_fallback, rule_id,
}
use openvpn_connect_web.Dns.File.{ParsedRule, by_domain, by_position, render_dnsmasq, parse_dnsmasq}
use openvpn_connect_web.DnsService.{
  Service, import_legacy, insert_all, apply, on_changed, after_change, legacy_preview,
}
use openvpn_connect_web.Prelude.{
  All, All-middle, Bool, List, Option, [], false, find, map, none, refl, some, ℕ, ◌++◌, ◌∷◌, ◌≡◌,
  ap, append-nil, not, sym, true, ◌&&◌, ◌∙◌, Bool-cases, append_assoc, inl, inr, map-append,
  All-append, All-sort,
}
use openvpn_connect_web.Prelude.Text.{Text, text_eq}
use openvpn_connect_web.History.Lines.{stored}
use openvpn_connect_web.Dns.{validate_address, validate_domain}
use openvpn_connect_web.Store.Sessions.{next_id}
use openvpn_connect_web.Login.Tally.{same}
use openvpn_connect_web.Dns.Lines.{IsDomainRule, IsFallbackRule, parsed_domain, parsed_fallback}
use openvpn_connect_web.Dns.Reading.{parse_dnsmasq-render_dnsmasq}

abbrev pub as_parsed : DnsRule → ParsedRule
as_parsed r = record { kind = r.kind; domain = r.domain; address = r.address }

abbrev pub falls_back : RuleKind → Bool
falls_back kind = elim kind [ domain_rule ↦ false | fallback_rule ↦ true ]

-- a rule that would replace another, or be refused for it
abbrev pub clashes : ParsedRule → ParsedRule → Bool
clashes p q = elim p.kind [
  | domain_rule ↦
      not (falls_back q.kind) && text_eq (text_or_empty p.domain) (text_or_empty q.domain)
  | fallback_rule ↦ falls_back q.kind && text_eq p.address q.address
]

abbrev pub IsDistinct : List ParsedRule → Type 0
IsDistinct [] = Unit
IsDistinct (q ∷ rest) = All (λ p. clashes p q ≡ false) rest × IsDistinct rest

earlier_ones :
    (qs : List ParsedRule) (p : ParsedRule) (ps : List ParsedRule)
    → IsDistinct (qs ++ p ∷ ps)
    → All (λ q. clashes p q ≡ false) qs
earlier_ones [] p ps h = tt
earlier_ones (q ∷ qs) p ps h =
    (All-middle (λ r. clashes r q ≡ false) qs p ps h.0, earlier_ones qs p ps h.1)

none-clashes :
    (p : ParsedRule) (rows : List DnsRule)
    → All (λ q. clashes p q ≡ false) (map as_parsed rows)
    → find (λ r. clashes p (as_parsed r)) rows ≡ none
none-clashes p [] h = refl
none-clashes p (r ∷ rows) h = rw h.0 (none-clashes p rows h.1)

module _ (is_address : Text → Bool) (now : ℕ) where
  -- a domain that the check leaves as it is, or, for a fallback, no domain
  abbrev IsNamed : RuleKind → Option Text → Type 0
  IsNamed domain_rule none = true ≡ false
  IsNamed domain_rule (some d) = validate_domain d ≡ some d
  IsNamed fallback_rule none = Unit
  IsNamed fallback_rule (some d) = true ≡ false

  abbrev pub IsImportable : ParsedRule → Type 0
  IsImportable p =
      (validate_address is_address p.address ≡ some p.address) × IsNamed p.kind p.domain

  -- what a rule that clashes with none adds to the table
  IsAppended : ParsedRule → List DnsRule → Changed ℕ × List DnsRule → Type 0
  IsAppended p rows stored =
      (i : ℕ) × (r : DnsRule) × (stored ≡ (changed i, rows ++ r ∷ [])) × (as_parsed r ≡ p)

  add_checked-IsAppended :
      (kind : RuleKind) (domain : Option Text) (a : Text) (rows : List DnsRule)
      → IsNamed kind domain
      → find
          (λ r. clashes (record { kind = kind; domain = domain; address = a }) (as_parsed r))
          rows
        ≡ none
      → IsAppended
          (record { kind = kind; domain = domain; address = a })
          rows
          (add_checked now kind (validate_domain (text_or_empty domain)) a rows)
  unfolding IsAppended add_checked put_domain put_fallback
  add_checked-IsAppended domain_rule none a rows named new = cc named
  add_checked-IsAppended domain_rule (some d) a rows valid new =
      rw (valid, new) (next_id rule_id rows, _, refl, refl)
  add_checked-IsAppended fallback_rule none a rows named new =
      rw new (next_id rule_id rows, _, refl, refl)
  add_checked-IsAppended fallback_rule (some d) a rows named new = cc named

  add-IsAppended :
      (p : ParsedRule) (rows : List DnsRule)
      → IsImportable p
      → All (λ q. clashes p q ≡ false) (map as_parsed rows)
      → IsAppended p rows (add_dns_rule is_address now p.kind p.domain p.address rows)
  unfolding add_dns_rule
  add-IsAppended p rows (valid, named) apart =
      rw (valid, add_dns_rule)
        (add_checked-IsAppended p.kind p.domain p.address rows named (none-clashes p rows apart))

  -- every rule is stored, in this order, behind those that are there
  insert_all-map :
      (ps : List ParsedRule) (rows : List DnsRule)
      → All IsImportable ps
      → IsDistinct (map as_parsed rows ++ ps)
      → (rows' : List DnsRule) × (insert_all is_address now ps rows ≡ (changed tt, rows'))
        × (map as_parsed rows' ≡ map as_parsed rows ++ ps)
  unfolding insert_all IsAppended
  insert_all-map [] rows h apart = (rows, refl, sym (append-nil (map as_parsed rows)))
  insert_all-map (p ∷ ps) rows h apart =
      let (i, r, stored, same) =
        add-IsAppended p rows h.0 (earlier_ones (map as_parsed rows) p ps apart) in
      let e : map as_parsed (rows ++ r ∷ []) ++ ps ≡ map as_parsed rows ++ p ∷ ps =
        ap (λ qs. qs ++ ps)
          (map-append as_parsed rows (r ∷ []) ∙ ap (λ q. map as_parsed rows ++ q ∷ []) same)
        ∙ append_assoc (map as_parsed rows) (p ∷ []) ps in
      let (rows', all_stored, all_same) = insert_all-map ps (rows ++ r ∷ []) h.1 (rw e apart) in
      (rows', ap (on_changed (insert_all is_address now ps)) stored ∙ all_stored, all_same ∙ e)

  domain_rules-IsImportable :
      (rules : List DnsRule)
      → All (IsDomainRule is_address) rules
      → All IsImportable (map parsed_domain rules)
  domain_rules-IsImportable [] h = tt
  domain_rules-IsImportable (r ∷ rules) h =
      let (d, named, valid, plain, (passes, fine)) = h.0 in
      ((passes, subst (IsNamed domain_rule) (sym named) valid), domain_rules-IsImportable rules h.1)

  fallback_rules-IsImportable :
      (rules : List DnsRule)
      → All (IsFallbackRule is_address) rules
      → All IsImportable (map parsed_fallback rules)
  fallback_rules-IsImportable [] h = tt
  fallback_rules-IsImportable (r ∷ rules) h = ((h.0.0, tt), fallback_rules-IsImportable rules h.1)

  module _ {K : Type 0} (writable : K → Bool) (helper : Text → K → Answer × K) where
    after-rules :
        {A : Type 0}
        → (s : Service K) (a : A) (rows : List DnsRule)
        → (after_change writable helper s (changed a, rows)).1.rules ≡ rows
    unfolding apply
    after-rules s a rows = elim (Bool-cases (writable s.outside)) [
      | inl fine ↦ rw fine refl
      | inr full ↦ rw full refl
    ]

    preview_of :
        (file : Text) (p : ParsedRule) (ps : List ParsedRule)
        → parse_dnsmasq is_address file ≡ (p ∷ ps, [])
        → legacy_preview is_address now (some file) []
          ≡ some (record { found = p ∷ ps; unparsed = [] })
    unfolding legacy_preview
    preview_of file p ps e = rw e refl

    no_preview :
        (file : Text)
        → parse_dnsmasq is_address file ≡ ([], [])
        → legacy_preview is_address now (some file) [] ≡ none
    unfolding legacy_preview
    no_preview file e = rw e refl

    import-map :
        (file : Text) (staging : Option Text) (outside : K) (ps : List ParsedRule)
        → parse_dnsmasq is_address file ≡ (ps, [])
        → All IsImportable ps
        → IsDistinct ps
        → let s : Service K = record { rules = []; staging = staging; outside = outside } in
          map as_parsed (import_legacy writable helper is_address now (some file) s).1.rules ≡ ps
    unfolding import_legacy
    import-map file staging outside [] e h apart = rw (no_preview file e) refl
    import-map file staging outside (p ∷ ps) e h apart =
        let (rows, stored, same) = insert_all-map (p ∷ ps) [] h apart in
        let s : Service K = record { rules = []; staging = staging; outside = outside } in
        rw (preview_of file p ps e, stored) (ap (map as_parsed) (after-rules s _ rows) ∙ same)

    -- A file rendered from well-formed rules, of which none clashes with another, and imported into
    -- an empty table, leaves a table of those rules: the domain rules by their domains, then the
    -- fallback rules by their positions, whether or not the helper can then be reached.
    pub import_legacy-render_dnsmasq :
        (domain_rules fallback_rules : List DnsRule) (staging : Option Text) (outside : K)
        → All (IsDomainRule is_address) domain_rules
        → All (IsFallbackRule is_address) fallback_rules
        → let written =
            map parsed_domain (by_domain domain_rules)
            ++ map parsed_fallback (by_position fallback_rules) in
          IsDistinct written
          → let s : Service K = record { rules = []; staging = staging; outside = outside } in
            map as_parsed
              (import_legacy writable helper is_address now
                (some (render_dnsmasq domain_rules fallback_rules))
                s).1.rules
            ≡ map parsed_domain (by_domain domain_rules)
              ++ map parsed_fallback (by_position fallback_rules)
    import_legacy-render_dnsmasq ds fs staging outside hd hf apart =
        import-map _ staging outside _ (parse_dnsmasq-render_dnsmasq is_address ds fs hd hf)
          (All-append IsImportable _ _
            (domain_rules-IsImportable (by_domain ds) (All-sort _ (IsDomainRule is_address) ds hd))
            (fallback_rules-IsImportable (by_position fs)
              (All-sort _ (IsFallbackRule is_address) fs hf)))
          apart
