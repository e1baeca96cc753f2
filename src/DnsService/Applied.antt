-- ===== src/DnsService/Applied.antt =====
-- What a change of a rule leaves behind, by how it ended.
use openvpn_connect_web.Firewall.{Answer}
use openvpn_connect_web.Store.DnsRules.{
  DnsRule, RuleKind, Direction, Changed, changed, rule_error, add_checked, add_dns_rule,
  delete_dns_rule, domain_rule, fallback_rule, falls_back_to, forwards, has_rule_id, is_fallback_id,
  move_fallback_rule, move_found, put_domain, put_fallback,
}
use openvpn_connect_web.DnsService.{
  Service, Outcome, add, delete, move, after_change, apply, rendered, done, refused, unwritten,
  warning_of,
}
use openvpn_connect_web.Prelude.{
  Bool, Bool-cases, List, Option, Option-cases, ap, count, false, find, inl, inr, none, refl, some,
  ℕ, ◌==◌, ◌≡◌,
}
use openvpn_connect_web.Prelude.Text.{Text}
use openvpn_connect_web.Dns.{validate_address}
use openvpn_connect_web.Login.Tally.{same}

-- a refused change of the table leaves the table as it is
abbrev pub IsKept : {A : Type 0} → List DnsRule → Changed A × List DnsRule → Type 0
IsKept rows (changed a, rows') = Unit
IsKept rows (rule_error e, rows') = rows' ≡ rows

add_checked-IsKept :
    (now : ℕ) (kind : RuleKind) (domain : Option Text) (a : Text) (rows : List DnsRule)
    → IsKept rows (add_checked now kind domain a rows)
unfolding add_checked put_domain put_fallback
add_checked-IsKept now domain_rule none a rows = refl
add_checked-IsKept now domain_rule (some d) a rows = elim (Option-cases (find (forwards d) rows)) [
  | inl new ↦ rw new tt
  | inr (r, old) ↦ rw old tt
]
add_checked-IsKept now fallback_rule domain a rows =
    elim (Option-cases (find (falls_back_to a) rows)) [
      | inl new ↦ rw new tt
      | inr (r, old) ↦ rw old refl
    ]

add-IsKept :
    (is_address : Text → Bool) (now : ℕ) (kind : RuleKind) (domain : Option Text) (a : Text)
    (rows : List DnsRule)
    → IsKept rows (add_dns_rule is_address now kind domain a rows)
unfolding add_dns_rule
add-IsKept is_address now kind domain a rows = elim (Option-cases (validate_address is_address a)) [
  | inl bad ↦ rw (bad, add_dns_rule) refl
  | inr (b, good) ↦ rw (good, add_dns_rule) (add_checked-IsKept now kind _ b rows)
]

delete-IsKept : (i : ℕ) (rows : List DnsRule) → IsKept rows (delete_dns_rule i rows)
unfolding delete_dns_rule
delete-IsKept i rows = elim (Bool-cases (count (has_rule_id i) rows == 0)) [
  | inl gone ↦ rw gone refl
  | inr there ↦ rw there tt
]

move-IsKept :
    (now i : ℕ) (direction : Direction) (rows : List DnsRule)
    → IsKept rows (move_fallback_rule now i direction rows)
unfolding move_fallback_rule move_found
move-IsKept now i direction rows = elim (Option-cases (find (is_fallback_id i) rows)) [
  | inl gone ↦ rw gone refl
  | inr (r, found) ↦ rw found tt
]

module _ {K : Type 0} (writable : K → Bool) (helper : Text → K → Answer × K) where
  -- What a change left of a service: a refused one nothing at all; any other one the table that the
  -- store made, whatever the helper said, with the staged file rendered from that table and shown to
  -- the helper, or, where it could not be written, the file and the world outside as they were.
  abbrev pub IsCarriedOut :
      {A : Type 0} → Service K → Changed A × List DnsRule → Outcome A × Service K → Type 0
  IsCarriedOut s stored (refused e, s') = (stored.0 ≡ rule_error e) × (s' ≡ s)
  IsCarriedOut s stored (done a warning, s') =
      (stored.0 ≡ changed a)
      × (s'.rules ≡ stored.1)
      × (s'.staging ≡ some (rendered stored.1))
      × (s'.outside ≡ (helper (rendered stored.1) s.outside).1)
      × (warning ≡ warning_of (helper (rendered stored.1) s.outside).0)
  IsCarriedOut s stored (unwritten, s') =
      (writable s.outside ≡ false) × (s' ≡ record s { rules = stored.1 })

  after_change-IsCarriedOut :
      {A : Type 0}
      → (s : Service K) (stored : Changed A × List DnsRule) → IsKept s.rules stored
      → IsCarriedOut s stored (after_change writable helper s stored)
  unfolding apply
  after_change-IsCarriedOut s (rule_error e, rows) same =
      (refl, ap (λ r. record s { rules = r }) same)
  after_change-IsCarriedOut s (changed a, rows) _ = elim (Bool-cases (writable s.outside)) [
    | inl fine ↦ rw fine (refl, refl, refl, refl, refl)
    | inr full ↦ rw full (full, refl)
  ]

  -- Adding, deleting and moving a rule leave the service as `IsCarriedOut` says of what the store
  -- does: a refused change leaves everything as it was, a stored one stays stored whatever the
  -- helper answers, and what the helper is shown, and what stays staged, is the file of the stored
  -- rules.
  pub change-IsCarriedOut :
      (is_address : Text → Bool) (now : ℕ) (s : Service K)
      → ((kind : RuleKind) (domain : Option Text) (address : Text)
          → IsCarriedOut s
              (add_dns_rule is_address now kind domain address s.rules)
              (add writable helper is_address now kind domain address s))
        × ((i : ℕ) → IsCarriedOut s (delete_dns_rule i s.rules) (delete writable helper i s))
        × ((i : ℕ) (direction : Direction)
            → IsCarriedOut s
                (move_fallback_rule now i direction s.rules)
                (move writable helper is_address now i direction s))
  unfolding add delete move
  change-IsCarriedOut is_address now s = (
    λ kind domain address.
        after_change-IsCarriedOut s _ (add-IsKept is_address now kind domain address s.rules),
    λ i. after_change-IsCarriedOut s _ (delete-IsKept i s.rules),
    λ i direction. after_change-IsCarriedOut s _ (move-IsKept now i direction s.rules),
  )
