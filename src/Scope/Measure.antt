-- ===== src/Scope/Measure.antt =====
-- How many addresses below a bound pass a test, and that this is the size of networks that do not
-- overlap.
use openvpn_connect_web.Scope.{Networks, Family, is_in, space, total_size}
use openvpn_connect_web.Prelude.{
  All, Bool, Bool-cases, List, [], any, arith, false, if◌then◌else◌, inl, inr, leb, ltb, min, not,
  refl, suc, zero, ℕ, ◌&&◌, ◌+◌, ◌-◌, ◌||◌, ◌∙◌, ◌∷◌, ◌≡◌, ◌≤◌, and-false,
}

unfoldable pub count_below : ℕ → (ℕ → Bool) → ℕ
count_below zero p = 0
count_below (suc n) p = (if p n then 1 else 0) + count_below n p

module _ (p q : ℕ → Bool) where
  pub count_below_same : ((a : ℕ) → p a ≡ q a) → (n : ℕ) → count_below n p ≡ count_below n q
  unfolding count_below
  count_below_same h zero = refl
  count_below_same h (suc n) = rw (h n, count_below_same h n) refl

  pub count_below_either :
      ((a : ℕ) → (p a && q a) ≡ false)
      → (n : ℕ) → count_below n (λ a. p a || q a) ≡ count_below n p + count_below n q
  unfolding count_below
  count_below_either h zero = refl
  count_below_either h (suc n) = ground (arith, h n, count_below_either h n)

count_below_le : (p : ℕ → Bool) (n : ℕ) → count_below n p ≤ n
unfolding count_below
count_below_le p zero = omega arith
count_below_le p (suc n) = ground (arith, count_below_le p n)

pub count_below_none : (n : ℕ) → count_below n (λ a. false) ≡ 0
unfolding count_below
count_below_none zero = refl
count_below_none (suc n) = omega (arith, count_below_none n)

pub count_below-not : (p : ℕ → Bool) (n : ℕ) → count_below n (λ a. not (p a)) ≡ n - count_below n p
unfolding count_below
count_below-not p zero = refl
count_below-not p (suc n) = ground (arith, count_below-not p n, count_below_le p n)

count_below_interval :
    (s l n : ℕ) → count_below n (λ a. leb s a && ltb a (s + l)) ≡ min n (s + l) - s
unfolding count_below
count_below_interval s l zero = omega arith
count_below_interval s l (suc n) = ground (arith, count_below_interval s l n)

module _ {N : Type 0} (net : Networks N) where
  -- no address is in two of the networks
  abbrev pub IsApart : List N → Type 0
  IsApart [] = Unit
  IsApart (n ∷ ns) = All (λ m. (a : ℕ) → (is_in net a n && is_in net a m) ≡ false) ns × IsApart ns

  -- what `ipaddress` documents of a family's networks and of collapsing them
  pub record IsFamily (family : Family) : Type 0 where
    pub fits : (n : N) → net.first n + net.size n ≤ space family
    pub collapse_covers :
        (ns : List N) (a : ℕ) → any (is_in net a) (net.collapse ns) ≡ any (is_in net a) ns
    pub collapse_apart : (ns : List N) → IsApart (net.collapse ns)

  apart_any :
      (n : N) (ns : List N)
      → All (λ m. (a : ℕ) → (is_in net a n && is_in net a m) ≡ false) ns
      → (a : ℕ) → (is_in net a n && any (is_in net a) ns) ≡ false
  apart_any n [] h a = and-false (is_in net a n)
  apart_any n (m ∷ ns) h a = elim (Bool-cases (is_in net a n)) [
    | inl inside ↦ rw inside (ground (arith, apart_any n ns h.1 a, h.0 a))
    | inr outside ↦ rw outside refl
  ]

  pub count_below-total_size :
      (bound : ℕ)
      → ((n : N) → net.first n + net.size n ≤ bound)
      → (ns : List N) → IsApart ns
      → count_below bound (λ a. any (is_in net a) ns) ≡ total_size net ns
  count_below-total_size bound fits [] apart = count_below_none bound
  count_below-total_size bound fits (n ∷ ns) apart =
      count_below_either (λ a. is_in net a n) (λ a. any (is_in net a) ns) (apart_any n ns apart.0)
        bound
      ∙ rw
          (
            count_below_interval (net.first n) (net.size n) bound,
            count_below-total_size bound fits ns apart.1,
          )
          (omega (arith, fits n))
