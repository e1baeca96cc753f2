-- ===== src/Store/DnsRules/Forwarders.antt =====
-- The table after any use of it.
use mathlib.Core.Path.{subst}
use openvpn_connect_web.Prelude.{
  Bool, Bool-cases, List, Option, [], arith, count, count-append, count-filter, filter, find, inl,
  inr, none, refl, some, ℕ, ◌&&◌, ◌++◌, ◌+◌, ◌==◌, ◌∷◌, ◌≡◌, ◌≤◌, Option-cases, ap, count_of_none,
  false, sym, true,
}
use openvpn_connect_web.Store.DnsRules.{
  DnsRule, delete_dns_rule, falls_back_to, forwards, has_rule_id, is_fallback, next_position,
  position_of, put_domain, put_fallback, rule_id, RuleKind, add_checked, add_dns_rule, domain_rule,
  fallback_rule, update,
}
use openvpn_connect_web.Prelude.Text.{Text, text_eq_sound}
use openvpn_connect_web.Store.Sessions.{next_id}
use openvpn_connect_web.Store.DnsRules.Update.{one_if, In, count-update_one, find-In}
use openvpn_connect_web.Dns.{validate_address}

-- a fallback row at a place
abbrev pub is_at : ℕ → DnsRule → Bool
is_at p r = is_fallback r && (position_of r == p)

-- no two rows share an id, no two domain rows a domain, and no two fallback rows an address or a place
pub record IsTidy (rows : List DnsRule) : Type 0 where
  pub ids : (i : ℕ) → count (has_rule_id i) rows ≤ 1
  pub domains : (d : Text) → count (forwards d) rows ≤ 1
  pub addresses : (a : Text) → count (falls_back_to a) rows ≤ 1
  pub places : (p : ℕ) → count (is_at p) rows ≤ 1

fresh_id : (i : ℕ) (rows : List DnsRule) → next_id rule_id rows ≤ i → count (has_rule_id i) rows ≡ 0
fresh_id i [] h = refl
fresh_id i (r ∷ rows) h = ground (arith, fresh_id i rows)

fresh_place : (p : ℕ) (rows : List DnsRule) → next_position rows ≤ p → count (is_at p) rows ≡ 0
unfolding next_position
fresh_place p [] h = refl
fresh_place p (r ∷ rows) h = ground (arith, fresh_place p rows)

count-snoc :
    (q : DnsRule → Bool) (r : DnsRule) (rows : List DnsRule)
    → count q (rows ++ r ∷ []) ≡ count q rows + one_if (q r)
count-snoc q r rows = omega (arith, count-append q rows (r ∷ []))

filter-IsTidy :
    (keep : DnsRule → Bool) (rows : List DnsRule) → IsTidy rows → IsTidy (filter keep rows)
filter-IsTidy keep rows h = record {
  ids = λ i. omega (arith, count-filter (has_rule_id i) keep rows, h.ids i);
  domains = λ d. omega (arith, count-filter (forwards d) keep rows, h.domains d);
  addresses = λ a. omega (arith, count-filter (falls_back_to a) keep rows, h.addresses a);
  places = λ p. omega (arith, count-filter (is_at p) keep rows, h.places p);
}

pub delete_dns_rule-IsTidy :
    (i : ℕ) (rows : List DnsRule) → IsTidy rows → IsTidy (delete_dns_rule i rows).1
unfolding delete_dns_rule
delete_dns_rule-IsTidy i rows h = elim (Bool-cases (count (has_rule_id i) rows == 0)) [
  | inl absent ↦ rw absent h
  | inr present ↦ rw present (filter-IsTidy _ rows h)
]

snoc_le :
    (q : DnsRule → Bool) (r : DnsRule) (rows : List DnsRule)
    → count q rows ≤ 1
    → (q r ≡ true → count q rows ≡ 0)
    → count q (rows ++ r ∷ []) ≤ 1
snoc_le q r rows few fresh = elim (Bool-cases (q r)) [
  | inl hit ↦ ground (arith, count-snoc q r rows, fresh hit, hit)
  | inr miss ↦ ground (arith, count-snoc q r rows, few, miss)
]

put_fallback-IsTidy :
    (now : ℕ) (address : Text) (rows : List DnsRule) (o : Option DnsRule)
    → find (falls_back_to address) rows ≡ o
    → IsTidy rows
    → IsTidy (put_fallback now address rows o).1
unfolding put_fallback
put_fallback-IsTidy now address rows (some duplicate) e h = h
put_fallback-IsTidy now address rows none e h = record {
  ids = λ i.
      snoc_le (has_rule_id i) _ rows (h.ids i) (λ same. fresh_id i rows (ground (arith, same)));
  domains = λ d. snoc_le (forwards d) _ rows (h.domains d) (λ same. cc same);
  addresses = λ a. snoc_le (falls_back_to a) _ rows (h.addresses a) (λ same.
      subst (λ t. count (falls_back_to t) rows ≡ 0) (sym (text_eq_sound a address same))
        (count_of_none (falls_back_to address) rows e));
  places = λ p.
      snoc_le (is_at p) _ rows (h.places p) (λ same. fresh_place p rows (ground (arith, same)));
}

pub update_le :
    (f : DnsRule → DnsRule) (q : DnsRule → Bool) (r : DnsRule) (rows : List DnsRule)
    → In r rows
    → count (has_rule_id r.id) rows ≤ 1
    → q (f r) ≡ q r
    → count q rows ≤ 1
    → count q (update r.id f rows) ≤ 1
update_le f q r rows there unique same few =
    omega (arith, count-update_one f q r rows there unique, ap one_if same, few)

put_domain-IsTidy :
    (now : ℕ) (domain address : Text) (rows : List DnsRule) (o : Option DnsRule)
    → find (forwards domain) rows ≡ o
    → IsTidy rows
    → IsTidy (put_domain now domain address rows o).1
unfolding put_domain update
put_domain-IsTidy now domain address rows none e h = record {
  ids = λ i.
      snoc_le (has_rule_id i) _ rows (h.ids i) (λ same. fresh_id i rows (ground (arith, same)));
  domains = λ d. snoc_le (forwards d) _ rows (h.domains d) (λ same.
      subst (λ t. count (forwards t) rows ≡ 0) (sym (text_eq_sound d domain same))
        (count_of_none (forwards domain) rows e));
  addresses = λ a. snoc_le (falls_back_to a) _ rows (h.addresses a) (λ same. cc same);
  places = λ p. snoc_le (is_at p) _ rows (h.places p) (λ same. cc same);
}
put_domain-IsTidy now domain address rows (some existing) e h =
    let f : DnsRule → DnsRule = λ r. record r { address = address; updated_at = now } in
    let (there, forwarding) = find-In (forwards domain) rows existing e in
    let unique = h.ids existing.id in
    let is_domain_row : is_fallback existing ≡ false = ground arith in
    let same_address : (a : Text) → falls_back_to a (f existing) ≡ falls_back_to a existing =
      λ a. rw is_domain_row refl in
    record {
      ids = λ i. update_le f (has_rule_id i) existing rows there unique refl (h.ids i);
      domains = λ d. update_le f (forwards d) existing rows there unique refl (h.domains d);
      addresses = λ a.
          update_le f (falls_back_to a) existing rows there unique (same_address a) (h.addresses a);
      places = λ p. update_le f (is_at p) existing rows there unique refl (h.places p);
    }

add_checked-IsTidy :
    (now : ℕ) (kind : RuleKind) (domain : Option Text) (address : Text) (rows : List DnsRule)
    → IsTidy rows
    → IsTidy (add_checked now kind domain address rows).1
unfolding add_checked
add_checked-IsTidy now domain_rule none address rows h = h
add_checked-IsTidy now domain_rule (some domain) address rows h =
    put_domain-IsTidy now domain address rows (find (forwards domain) rows) refl h
add_checked-IsTidy now fallback_rule domain address rows h =
    put_fallback-IsTidy now address rows (find (falls_back_to address) rows) refl h

pub add_dns_rule-IsTidy :
    (is_address : Text → Bool) (now : ℕ) (kind : RuleKind) (domain : Option Text) (address : Text)
    (rows : List DnsRule)
    → IsTidy rows
    → IsTidy (add_dns_rule is_address now kind domain address rows).1
unfolding add_dns_rule
add_dns_rule-IsTidy is_address now kind domain address rows h =
    elim (Option-cases (validate_address is_address address)) [
      | inl bad ↦ rw (bad, add_dns_rule) h
      | inr (a, good) ↦ rw (good, add_dns_rule) (add_checked-IsTidy now kind _ a rows h)
    ]
