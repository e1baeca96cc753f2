-- ===== src/DnsService.antt =====
-- The DNS rules as the panel manages them (app/services/dns_rules.py): each change is stored, and
-- then the file is rendered, staged, and installed by the root helper. `writable` says whether the
-- staging file can be written, and `helper` what "dns-apply" answers with the staged text before it:
-- its output, or the text of the `HelperError`. `K` is the state of what is outside.
use mathlib.Core.Option
pub mod Applied
pub mod Import
mod Tests
use openvpn_connect_web.Firewall.{Answer, output, trouble}
use openvpn_connect_web.Store.DnsRules.{
  DnsRule, RuleKind, RuleError, Changed, changed, Direction, add_dns_rule, delete_dns_rule,
  is_fallback, move_fallback_rule, rule_error,
}
use openvpn_connect_web.Prelude.{
  Bool, List, Option, [], filter, if◌then◌else◌, length, none, not, some, ℕ, ◌||◌, ◌∷◌,
}
use openvpn_connect_web.Dns.File.{ParsedRule, by_domain, by_position, parse_dnsmasq, render_dnsmasq}
use openvpn_connect_web.Prelude.Text.{Text, after_prefix, nonempty, strip, text}
use openvpn_connect_web.Controller.Run.{next}

pub record Service (K : Type 0) : Type 0 where
  pub rules : List DnsRule
  pub staging : Option Text
  pub outside : K

-- what was asked for, with the warning; the `StoreError`; or the `OSError` of the staging file
pub data Outcome {ℓ} (A : Type ℓ) : Type ℓ where
  done : A → Option Text → Outcome A
  refused : RuleError → Outcome A
  unwritten : Outcome A

-- `DnsRules.list`: the rows as the store's query orders them
abbrev pub domain_rules : List DnsRule → List DnsRule
domain_rules rows = by_domain (filter (λ r. not (is_fallback r)) rows)

abbrev pub fallback_rules : List DnsRule → List DnsRule
fallback_rules rows = by_position (filter is_fallback rows)

unfoldable pub rendered : List DnsRule → Text
rendered rows = render_dnsmasq (domain_rules rows) (fallback_rules rows)

-- the warning that the helper's answer holds
unfoldable pub warning_of : Answer → Option Text
unfolding strip after_prefix
warning_of (trouble why) = some why
warning_of (output stdout) = Option.map strip (after_prefix (text "applied:") (strip stdout))

pub record LegacyPreview : Type 0 where
  pub found : List ParsedRule
  pub unparsed : List Text

-- the rest of an import, where what comes before it was not refused
abbrev pub on_changed :
    (List DnsRule → Changed (Unit {0}) × List DnsRule)
    → Changed ℕ × List DnsRule
    → Changed (Unit {0}) × List DnsRule
on_changed rest (rule_error e, rows) = (rule_error e, rows)
on_changed rest (changed i, rows) = rest rows

abbrev counted :
    LegacyPreview → Changed (Unit {0}) × List DnsRule → Changed (ℕ × List Text) × List DnsRule
counted preview (rule_error e, rows) = (rule_error e, rows)
counted preview (changed done_with, rows) = (changed (length preview.found, preview.unparsed), rows)

module _ (is_address : Text → Bool) (now : ℕ) where
  -- the legacy file, `none` where there is none, or it cannot be read
  unfoldable pub legacy_preview : Option Text → List DnsRule → Option LegacyPreview
  unfolding parse_dnsmasq
  legacy_preview none rows = none
  legacy_preview (some file) rows =
      let (found, unparsed) = parse_dnsmasq is_address file in
      if nonempty rows || not (nonempty found || nonempty unparsed)
      then none
      else some (record { found = found; unparsed = unparsed })

  -- one row after another, each in a transaction of its own, up to the first that is refused
  unfoldable pub insert_all : List ParsedRule → List DnsRule → Changed (Unit {0}) × List DnsRule
  insert_all [] rows = (changed tt, rows)
  insert_all (p ∷ found) rows =
      on_changed (insert_all found) (add_dns_rule is_address now p.kind p.domain p.address rows)

module _ {K : Type 0} (writable : K → Bool) (helper : Text → K → Answer × K) where
  -- `_apply`
  unfoldable pub apply : {A : Type 0} → A → Service K → Outcome A × Service K
  unfolding rendered warning_of
  apply result s =
      let content = rendered s.rules in
      let answer = helper content s.outside in
      if writable s.outside
      then (
        done result (warning_of answer.0),
        record s { staging = some content; outside = answer.1 },
      )
      else (unwritten, s)

  -- the change is committed, and applied
  abbrev pub after_change :
      {A : Type 0} → Service K → Changed A × List DnsRule → Outcome A × Service K
  after_change s (rule_error e, rows) = (refused e, record s { rules = rows })
  after_change s (changed a, rows) = apply a (record s { rules = rows })

  unfoldable pub delete : ℕ → Service K → Outcome (Unit {0}) × Service K
  delete i s = after_change s (delete_dns_rule i s.rules)

  module _ (is_address : Text → Bool) (now : ℕ) where
    unfoldable pub add : RuleKind → Option Text → Text → Service K → Outcome ℕ × Service K
    add kind domain address s =
        after_change s (add_dns_rule is_address now kind domain address s.rules)

    unfoldable pub move : ℕ → Direction → Service K → Outcome (Unit {0}) × Service K
    move i direction s = after_change s (move_fallback_rule now i direction s.rules)

    abbrev import_found :
        Service K → Option LegacyPreview → Option (Outcome (ℕ × List Text)) × Service K
    import_found s none = (none, s)
    import_found s (some preview) =
        let (outcome, s') =
          after_change s (counted preview (insert_all is_address now preview.found s.rules)) in
        (some outcome, s')

    -- `none` is "There is nothing to import."
    unfoldable pub import_legacy :
        (file : Option Text) → Service K → Option (Outcome (ℕ × List Text)) × Service K
    import_legacy file s = import_found s (legacy_preview is_address now file s.rules)
