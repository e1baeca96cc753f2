-- ===== src/Store/DnsRules/Order.antt =====
-- Moving a rule exchanges two places, and no use of the table makes two rules clash.
use mathlib.Core.Path.{subst}
use openvpn_connect_web.Prelude.{
  ==_iff, Bool, Bool-cases, List, Option, [], ap, arith, count, false, find, if_elim, inl, inr,
  none, refl, some, true, ℕ, ◌==◌, ◌∷◌, ◌≡◌, ◌≤◌,
}
use openvpn_connect_web.Store.DnsRules.{
  Direction, DnsRule, downward, falls_back_to, forwards, has_rule_id, is_beyond, is_fallback,
  is_fallback_id, is_nearer, move_found, nearer, neighbour, placed, position_of, swap, update,
  upward, move_fallback_rule,
}
use openvpn_connect_web.Store.DnsRules.Update.{
  In, In-update, both, count-both, count-update_one, one_if, find-In,
}
use openvpn_connect_web.Store.DnsRules.Forwarders.{IsTidy, is_at, update_le}

is_beyond-differs :
    (direction : Direction) (p : ℕ) (r : DnsRule)
    → is_beyond direction p r ≡ true
    → (is_fallback r ≡ true) × ((position_of r == p) ≡ false)
is_beyond-differs upward p r h = (ground arith, ground arith)
is_beyond-differs downward p r h = (ground arith, ground arith)

IsBeyond : Direction → ℕ → List DnsRule → DnsRule → Type 0
IsBeyond direction p rows o = In o rows × (is_beyond direction p o ≡ true)

nearer-In :
    (direction : Direction) (p : ℕ) (r : DnsRule) (rows : List DnsRule) (q : Option DnsRule)
    → is_beyond direction p r ≡ true
    → ((o : DnsRule) → q ≡ some o → IsBeyond direction p rows o)
    → IsBeyond direction p (r ∷ rows) (nearer direction r q)
unfolding IsBeyond
nearer-In direction p r rows none hit ih = (inl refl, hit)
nearer-In direction p r rows (some s) hit ih =
    if_elim (IsBeyond direction p (r ∷ rows)) (is_nearer direction r s) (λ _. (inl refl, hit))
      (λ _. let (there, h) = ih s refl in (inr there, h))

neighbour-In :
    (direction : Direction) (p : ℕ) (rows : List DnsRule) (o : DnsRule)
    → neighbour direction p rows ≡ some o
    → IsBeyond direction p rows o
unfolding neighbour IsBeyond
neighbour-In direction p [] o e = cc e
neighbour-In direction p (r ∷ rows) o e = elim (Bool-cases (is_beyond direction p r)) [
  | inr miss ↦ let (there, h) = neighbour-In direction p rows o (rw miss at e) in (inr there, h)
  | inl hit ↦
      let same : nearer direction r (neighbour direction p rows) ≡ o = cc (rw hit at e) in
      subst (IsBeyond direction p (r ∷ rows)) same (
        nearer-In direction p r rows (neighbour direction p rows) hit
          (neighbour-In direction p rows))
]

module _ (now : ℕ) (row other : DnsRule) (rows : List DnsRule) (h : IsTidy rows)
    (mine : In row rows) (theirs : In other rows) (row_is : is_fallback row ≡ true)
    (other_is : is_fallback other ≡ true)
    (apart : (position_of other == position_of row) ≡ false) where
  distinct_ids : has_rule_id row.id other ≡ false
  distinct_ids = elim (Bool-cases (has_rule_id row.id other)) [
    | inr miss ↦ miss
    | inl same ↦
        let e : other.id ≡ row.id = (==_iff other.id row.id).0 same in
        let q = is_at (position_of row) in
        let one : count (both row.id q) rows ≡ one_if (q row) =
          count-both q row rows mine (h.ids row.id) in
        let nought : count (both row.id q) rows ≡ one_if (q other) =
          subst (λ i. count (both i q) rows ≡ one_if (q other)) e
            (count-both q other rows theirs (h.ids other.id)) in
        absurd (ground (arith, one, nought, row_is, other_is, apart))
  ]

  abbrev moved : List DnsRule
  moved = update row.id (placed now other.position) rows

  moved_ids : (i : ℕ) → count (has_rule_id i) moved ≤ 1
  moved_ids i =
      update_le (placed now other.position) (has_rule_id i) row rows mine (h.ids row.id) refl
        (h.ids i)

  theirs_moved : In other moved
  theirs_moved = In-update row.id (placed now other.position) other rows distinct_ids theirs

  swapped_le :
      (q : DnsRule → Bool)
      → q (placed now other.position row) ≡ q row
      → q (placed now row.position other) ≡ q other
      → count q rows ≤ 1
      → count q (update other.id (placed now row.position) moved) ≤ 1
  swapped_le q same_row same_other few =
      update_le (placed now row.position) q other moved theirs_moved (moved_ids other.id) same_other
        (update_le (placed now other.position) q row rows mine (h.ids row.id) same_row few)

  same_places :
      (p : ℕ)
      → count (is_at p) (update other.id (placed now row.position) moved) ≡ count (is_at p) rows
  same_places p =
      let first =
        count-update_one (placed now other.position) (is_at p) row rows mine (h.ids row.id) in
      let second =
        count-update_one (placed now row.position) (is_at p) other moved theirs_moved
          (moved_ids other.id) in
      let out : is_at p (placed now other.position row) ≡ is_at p other =
        rw (row_is, other_is) refl in
      let back : is_at p (placed now row.position other) ≡ is_at p row =
        rw (row_is, other_is) refl in
      omega (arith, first, second, ap one_if out, ap one_if back)

  pub swap-IsTidy : IsTidy (swap now row (some other) rows)
  unfolding swap
  swap-IsTidy = record {
    ids = λ i. swapped_le (has_rule_id i) refl refl (h.ids i);
    domains = λ d. swapped_le (forwards d) refl refl (h.domains d);
    addresses = λ a. swapped_le (falls_back_to a) refl refl (h.addresses a);
    places = λ p. omega (arith, same_places p, h.places p);
  }

with_neighbour-IsTidy :
    (now : ℕ) (direction : Direction) (row : DnsRule) (rows : List DnsRule) (q : Option DnsRule)
    → neighbour direction (position_of row) rows ≡ q
    → In row rows
    → is_fallback row ≡ true
    → IsTidy rows
    → IsTidy (swap now row q rows)
unfolding swap IsBeyond
with_neighbour-IsTidy now direction row rows none e mine row_is h = h
with_neighbour-IsTidy now direction row rows (some other) e mine row_is h =
    let (theirs, beyond) = neighbour-In direction (position_of row) rows other e in
    let (other_is, apart) = is_beyond-differs direction (position_of row) other beyond in
    swap-IsTidy now row other rows h mine theirs row_is other_is apart

move_found-IsTidy :
    (now i : ℕ) (direction : Direction) (rows : List DnsRule) (o : Option DnsRule)
    → find (is_fallback_id i) rows ≡ o
    → IsTidy rows
    → IsTidy (move_found now i direction rows o).1
unfolding move_found
move_found-IsTidy now i direction rows none e h = h
move_found-IsTidy now i direction rows (some row) e h =
    let (mine, chosen) = find-In (is_fallback_id i) rows row e in
    with_neighbour-IsTidy now direction row rows (neighbour direction (position_of row) rows) refl
      mine (ground (arith, chosen)) h

pub move_fallback_rule-IsTidy :
    (now i : ℕ) (direction : Direction) (rows : List DnsRule)
    → IsTidy rows
    → IsTidy (move_fallback_rule now i direction rows).1
unfolding move_fallback_rule
move_fallback_rule-IsTidy now i direction rows h =
    move_found-IsTidy now i direction rows (find (is_fallback_id i) rows) refl h
