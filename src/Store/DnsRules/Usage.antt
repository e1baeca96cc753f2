-- ===== src/Store/DnsRules/Usage.antt =====
-- The table of DNS rules after any use of it.
use openvpn_connect_web.Prelude.{Bool, List, Option, [], arith, ℕ, ◌∷◌}
use openvpn_connect_web.Store.DnsRules.{
  Direction, DnsRule, RuleKind, add_dns_rule, delete_dns_rule, move_fallback_rule,
}
use openvpn_connect_web.Store.DnsRules.Forwarders.{
  IsTidy, add_dns_rule-IsTidy, delete_dns_rule-IsTidy,
}
use openvpn_connect_web.Prelude.Text.{Text}
use openvpn_connect_web.Store.DnsRules.Order.{move_fallback_rule-IsTidy}

-- the calls that write the table
pub data Edit : Type 0 where
  adds : ℕ → RuleKind → Option Text → Text → Edit
  drops : ℕ → Edit
  moves : ℕ → ℕ → Direction → Edit

module _ (is_address : Text → Bool) where
  unfoldable pub edit : Edit → List DnsRule → List DnsRule
  edit (adds now kind domain address) rows =
      (add_dns_rule is_address now kind domain address rows).1
  edit (drops i) rows = (delete_dns_rule i rows).1
  edit (moves now i direction) rows = (move_fallback_rule now i direction rows).1

  unfoldable pub edit_all : List Edit → List DnsRule → List DnsRule
  unfolding edit
  edit_all [] rows = rows
  edit_all (e ∷ edits) rows = edit_all edits (edit e rows)

  edit-IsTidy : (e : Edit) (rows : List DnsRule) → IsTidy rows → IsTidy (edit e rows)
  unfolding edit
  edit-IsTidy (adds now kind domain address) rows h =
      add_dns_rule-IsTidy is_address now kind domain address rows h
  edit-IsTidy (drops i) rows h = delete_dns_rule-IsTidy i rows h
  edit-IsTidy (moves now i direction) rows h = move_fallback_rule-IsTidy now i direction rows h

  edit_all_keeps :
      (edits : List Edit) (rows : List DnsRule) → IsTidy rows → IsTidy (edit_all edits rows)
  unfolding edit_all
  edit_all_keeps [] rows h = h
  edit_all_keeps (e ∷ edits) rows h = edit_all_keeps edits (edit e rows) (edit-IsTidy e rows h)

  -- After any additions, deletions and moves of rules from an empty table on, those that are refused
  -- included: no two rows share an id, no two domain rules a domain, and no two fallback rules an
  -- address or a position.
  pub edit_all-IsTidy : (edits : List Edit) → IsTidy (edit_all edits [])
  edit_all-IsTidy edits = edit_all_keeps edits [] (record {
    ids = λ i. omega arith;
    domains = λ d. omega arith;
    addresses = λ a. omega arith;
    places = λ p. omega arith;
  })
