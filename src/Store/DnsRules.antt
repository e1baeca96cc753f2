-- ===== src/Store/DnsRules.antt =====
-- The table `dns_rules` of app/services/store.py. Times are seconds.
pub mod Update
pub mod Forwarders
pub mod Order
pub mod Usage
mod Tests
use openvpn_connect_web.Prelude.{
  Bool, List, Option, [], count, false, filter, find, if◌then◌else◌, map, max, none, not, some, suc,
  true, ℕ, ◌&&◌, ◌++◌, ◌==◌, ◌∷◌, ltb,
}
use openvpn_connect_web.Prelude.Text.{Text, text, text_eq}
use openvpn_connect_web.Store.Sessions.{next_id}
use openvpn_connect_web.Dns.{validate_address, validate_domain}

pub data RuleKind : Type 0 where
  domain_rule fallback_rule : RuleKind

pub record DnsRule : Type 0 where
  pub id : ℕ
  pub kind : RuleKind
  pub domain : Option Text
  pub address : Text
  pub position : Option ℕ
  pub updated_at : ℕ

-- the `DnsError` of a field, or the `StoreError`; an unknown kind or direction has no value here
pub data RuleError : Type 0 where
  bad_address bad_domain : RuleError
  already_a_fallback : Text → RuleError
  no_such_rule no_such_fallback : ℕ → RuleError

pub data Changed {ℓ} (A : Type ℓ) : Type ℓ where
  changed : A → Changed A
  rule_error : RuleError → Changed A

abbrev pub is_fallback : DnsRule → Bool
is_fallback r = elim r.kind [ domain_rule ↦ false | fallback_rule ↦ true ]

abbrev pub text_or_empty : Option Text → Text
text_or_empty none = []
text_or_empty (some t) = t

-- kind = 'domain' AND domain = ?
abbrev pub forwards : Text → DnsRule → Bool
forwards d r = not (is_fallback r) && text_eq d (text_or_empty r.domain)

-- kind = 'fallback' AND address = ?
abbrev pub falls_back_to : Text → DnsRule → Bool
falls_back_to a r = is_fallback r && text_eq a r.address

abbrev pub has_rule_id : ℕ → DnsRule → Bool
has_rule_id i r = r.id == i

abbrev pub rule_id : DnsRule → ℕ
rule_id r = r.id

-- UPDATE dns_rules SET … WHERE id = ?
unfoldable pub update : ℕ → (DnsRule → DnsRule) → List DnsRule → List DnsRule
update i f rows = map (λ r. if has_rule_id i r then f r else r) rows

-- the column `position` of a fallback row
abbrev pub position_of : DnsRule → ℕ
position_of r = elim r.position [ none ↦ 0 | some p ↦ p ]

-- COALESCE(MAX(position), -1) + 1 over the fallback rows
unfoldable pub next_position : List DnsRule → ℕ
next_position [] = 0
next_position (r ∷ rows) =
    let rest = next_position rows in if is_fallback r then max (suc (position_of r)) rest else rest

unfoldable pub put_domain :
    ℕ → Text → Text → List DnsRule → Option DnsRule → Changed ℕ × List DnsRule
unfolding update
put_domain now domain address rows (some existing) = (
  changed existing.id,
  map
      (λ (r : DnsRule).
        if has_rule_id existing.id r then record r { address = address; updated_at = now } else r)
      rows,
)
put_domain now domain address rows none =
    let i = next_id rule_id rows in
    (
      changed i,
      rows
          ++ record {
            id = i;
            kind = domain_rule;
            domain = some domain;
            address = address;
            position = none;
            updated_at = now;
          }
            ∷ [],
    )

unfoldable pub put_fallback : ℕ → Text → List DnsRule → Option DnsRule → Changed ℕ × List DnsRule
unfolding next_position
put_fallback now address rows (some duplicate) = (rule_error (already_a_fallback address), rows)
put_fallback now address rows none =
    let i = next_id rule_id rows in
    (
      changed i,
      rows
          ++ record {
            id = i;
            kind = fallback_rule;
            domain = none;
            address = address;
            position = some (next_position rows);
            updated_at = now;
          }
            ∷ [],
    )

-- the checked address and domain go into the transaction
unfoldable pub add_checked :
    ℕ → RuleKind → Option Text → Text → List DnsRule → Changed ℕ × List DnsRule
unfolding put_domain put_fallback
add_checked now domain_rule none address rows = (rule_error bad_domain, rows)
add_checked now domain_rule (some domain) address rows =
    put_domain now domain address rows (find (forwards domain) rows)
add_checked now fallback_rule domain address rows =
    put_fallback now address rows (find (falls_back_to address) rows)

-- the rule's id, and the table
unfoldable pub add_dns_rule :
    (Text → Bool) → ℕ → RuleKind → Option Text → Text → List DnsRule → Changed ℕ × List DnsRule
unfolding validate_address validate_domain add_checked
add_dns_rule is_address now kind domain address rows = elim (validate_address is_address address) [
  | none ↦ (rule_error bad_address, rows)
  | some a ↦ add_checked now kind (validate_domain (text_or_empty domain)) a rows
]

unfoldable pub delete_dns_rule : ℕ → List DnsRule → Changed (Unit {0}) × List DnsRule
delete_dns_rule i rows =
    if count (has_rule_id i) rows == 0
    then (rule_error (no_such_rule i), rows)
    else (changed tt, filter (λ r. not (has_rule_id i r)) rows)

pub data Direction : Type 0 where
  upward downward : Direction

-- the better of two neighbours: the later position when moving up, the earlier when moving down
abbrev pub is_nearer : Direction → DnsRule → DnsRule → Bool
is_nearer upward r s = ltb (position_of s) (position_of r)
is_nearer downward r s = ltb (position_of r) (position_of s)

-- position < ?, or position > ?
abbrev pub is_beyond : Direction → ℕ → DnsRule → Bool
is_beyond upward p r = is_fallback r && ltb (position_of r) p
is_beyond downward p r = is_fallback r && ltb p (position_of r)

abbrev pub nearer : Direction → DnsRule → Option DnsRule → DnsRule
nearer direction r none = r
nearer direction r (some s) = if is_nearer direction r s then r else s

-- ORDER BY position … LIMIT 1
unfoldable pub neighbour : Direction → ℕ → List DnsRule → Option DnsRule
neighbour direction p [] = none
neighbour direction p (r ∷ rows) =
    let rest = neighbour direction p rows in
    if is_beyond direction p r then some (nearer direction r rest) else rest

abbrev pub placed : ℕ → Option ℕ → DnsRule → DnsRule
placed now p r = record r { position = p; updated_at = now }

unfoldable pub swap : ℕ → DnsRule → Option DnsRule → List DnsRule → List DnsRule
unfolding update
swap now row none rows = rows
swap now row (some other) rows =
    update other.id (placed now row.position) (update row.id (placed now other.position) rows)

abbrev pub is_fallback_id : ℕ → DnsRule → Bool
is_fallback_id i r = has_rule_id i r && is_fallback r

unfoldable pub move_found :
    ℕ → ℕ → Direction → List DnsRule → Option DnsRule → Changed (Unit {0}) × List DnsRule
unfolding swap neighbour
move_found now i direction rows none = (rule_error (no_such_fallback i), rows)
move_found now i direction rows (some row) =
    (changed tt, swap now row (neighbour direction (position_of row) rows) rows)

unfoldable pub move_fallback_rule :
    ℕ → ℕ → Direction → List DnsRule → Changed (Unit {0}) × List DnsRule
unfolding move_found
move_fallback_rule now i direction rows =
    move_found now i direction rows (find (is_fallback_id i) rows)
