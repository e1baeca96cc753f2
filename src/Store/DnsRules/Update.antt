-- ===== src/Store/DnsRules/Update.antt =====
-- What an update of one row does to the number of rows that pass a test.
use openvpn_connect_web.Prelude.{
  Bool, Bool-cases, List, [], ap, arith, count, false, find, if◌then◌else◌, inl, inr, refl, some,
  sym, true, ℕ, ◌&&◌, ◌+◌, ◌<◌, ◌∙◌, ◌∷◌, ◌≡◌, ◌≤◌, ◌⊎◌,
}
use openvpn_connect_web.Store.DnsRules.{DnsRule, has_rule_id, update}

-- `r` is a row of the table
abbrev pub In : DnsRule → List DnsRule → Type 0
In r [] = ⊥
In r (x ∷ rows) = (x ≡ r) ⊎ In r rows

pub count_of_row :
    (p : DnsRule → Bool) (r : DnsRule) (rows : List DnsRule)
    → In r rows
    → p r ≡ true
    → 0 < count p rows
count_of_row p r [] there h = absurd there
count_of_row p r (x ∷ rows) (inl e) h = let hit : p x ≡ true = ap p e ∙ h in rw hit (omega arith)
count_of_row p r (x ∷ rows) (inr there) h = omega (arith, count_of_row p r rows there h)

pub find-In :
    (p : DnsRule → Bool) (rows : List DnsRule) (r : DnsRule)
    → find p rows ≡ some r
    → In r rows × (p r ≡ true)
find-In p [] r e = cc e
find-In p (x ∷ rows) r e = elim (Bool-cases (p x)) [
  | inl hit ↦ let same : x ≡ r = cc (rw hit at e) in (inl same, ap p (sym same) ∙ hit)
  | inr miss ↦ let (there, h) = find-In p rows r (rw miss at e) in (inr there, h)
]

count_le :
    (p q : DnsRule → Bool)
    → ((r : DnsRule) → q r ≡ true → p r ≡ true)
    → (rows : List DnsRule) → count q rows ≤ count p rows
count_le p q h [] = omega arith
count_le p q h (x ∷ rows) = elim (Bool-cases (q x)) [
  | inl hit ↦ rw (hit, h x hit) (omega (arith, count_le p q h rows))
  | inr miss ↦ rw miss (omega (arith, count_le p q h rows))
]

-- the rows with an id that pass a further test
abbrev pub both : ℕ → (DnsRule → Bool) → DnsRule → Bool
both i q r = has_rule_id i r && q r

abbrev pub one_if : Bool → ℕ
one_if b = if b then 1 else 0

own_id : (r : DnsRule) → has_rule_id r.id r ≡ true
own_id r = ground arith

-- where the id is unique, its row alone decides
pub count-both :
    (q : DnsRule → Bool) (r : DnsRule) (rows : List DnsRule)
    → In r rows
    → count (has_rule_id r.id) rows ≤ 1
    → count (both r.id q) rows ≡ one_if (q r)
count-both q r [] there unique = absurd there
count-both q r (x ∷ rows) (inl e) unique =
    let hit : has_rule_id r.id x ≡ true = ap (has_rule_id r.id) e ∙ own_id r in
    let alone : count (has_rule_id r.id) rows ≡ 0 = ground (arith, unique, hit) in
    let rest = count_le (has_rule_id r.id) (both r.id q) (λ s h. ground arith) rows in
    rw (hit, ap q e) (omega (arith, alone, rest))
count-both q r (x ∷ rows) (inr there) unique =
    let found = count_of_row (has_rule_id r.id) r rows there (own_id r) in
    elim (Bool-cases (has_rule_id r.id x)) [
      | inl hit ↦ absurd (ground (arith, unique, hit, found))
      | inr miss ↦ rw miss (omega (arith, count-both q r rows there (ground (arith, unique, miss))))
    ]

pub count-update :
    (i : ℕ) (f : DnsRule → DnsRule) (q : DnsRule → Bool) (rows : List DnsRule)
    → count q (update i f rows) + count (both i q) rows
      ≡ count q rows + count (both i (λ r. q (f r))) rows
unfolding update
count-update i f q [] = refl
count-update i f q (x ∷ rows) = elim (Bool-cases (has_rule_id i x)) [
  | inl hit ↦ rw hit (omega (arith, count-update i f q rows))
  | inr miss ↦ rw miss (omega (arith, count-update i f q rows))
]

-- so a row's update moves its own weight, and nothing else
pub count-update_one :
    (f : DnsRule → DnsRule) (q : DnsRule → Bool) (r : DnsRule) (rows : List DnsRule)
    → In r rows
    → count (has_rule_id r.id) rows ≤ 1
    → count q (update r.id f rows) + one_if (q r) ≡ count q rows + one_if (q (f r))
count-update_one f q r rows there unique = omega (
  arith,
  count-update r.id f q rows,
  count-both q r rows there unique,
  count-both (λ r. q (f r)) r rows there unique,
)

pub In-update :
    (i : ℕ) (f : DnsRule → DnsRule) (r : DnsRule) (rows : List DnsRule)
    → has_rule_id i r ≡ false
    → In r rows
    → In r (update i f rows)
unfolding update
In-update i f r [] h there = absurd there
In-update i f r (x ∷ rows) h (inl e) = inl (rw (ap (has_rule_id i) e ∙ h) e)
In-update i f r (x ∷ rows) h (inr there) = inr (In-update i f r rows h there)
