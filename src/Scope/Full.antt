-- ===== src/Scope/Full.antt =====
-- A tunnel is called full by the addresses that it carries_counted, not by a default route.
use openvpn_connect_web.Scope.{
  Networks, Family, Entry, Seen, is_in, look_through, look_at, network_of, counted_in, leaving_by,
  nothing_seen, space, total_size, full, judge, split_tunnel, evaluate, is_one, no_tunnel, ipv4,
  ipv6,
}
use openvpn_connect_web.Prelude.{
  Bool, List, Option, [], any, false, get_or, none, not, some, ℕ, ◌&&◌, ◌||◌, ◌∙◌, ◌∷◌, ◌≡◌,
  Bool-cases, any-append, ap, if◌then◌else◌, inl, inr, or_assoc, or-false, sym, true, ◌-◌, ◌*◌, ◌<◌,
  ◌↔◌, ◌≤◌, arith, refl,
}
use openvpn_connect_web.Prelude.Text.{Text, nonempty, text_eq, text}
use openvpn_connect_web.Scope.Measure.{
  IsFamily, count_below, count_below-not, count_below-total_size, count_below_same,
  count_below_none,
}

verdict-full :
    {N : Type 0} (networks : List N) (space total : ℕ)
    → 0 < space
    → (networks ≡ [] → total ≡ 0)
    → ((if not (nonempty networks)
          then no_tunnel
          else if is_one total space
          then full
          else split_tunnel)
        ≡ full)
      ↔ ((space - total) * 18014398509481984 ≤ space)
verdict-full [] space total some_space none_covered =
    (λ h. ground (arith, h), λ h. absurd (omega (arith, h, some_space, none_covered refl)))
verdict-full (n ∷ ns) space total some_space none_covered =
    (λ h. ground (arith, h), λ h. ground (arith, h))

module _ {N : Type 0} (net : Networks N) (family : Family) (device : Text) where
  -- whether a counted network has an address in it
  abbrev reaches : ℕ → Option N → Bool
  reaches a none = false
  reaches a (some n) = not (net.is_link_local n || net.is_multicast n) && is_in net a n

  -- whether an entry sends an address into the tunnel by a network that the verdict counts: one that is
  -- neither link-local nor multicast
  unfoldable pub carries_counted : ℕ → Entry → Bool
  carries_counted a entry =
      let destination = get_or [] entry.dst in
      let dev = get_or [] entry.dev in
      nonempty destination
      && nonempty dev
      && text_eq dev device
      && reaches a (network_of net family destination)

  held : ℕ → Seen N → Bool
  held a seen = any (is_in net a) seen.networks

  counted_in-held :
      (destination : Text) (o : Option N) (seen : Seen N) (a : ℕ)
      → held a (counted_in net family destination o seen) ≡ (held a seen || reaches a o)
  unfolding held
  counted_in-held destination none seen a = sym (or-false (held a seen))
  counted_in-held destination (some n) seen a =
      elim (Bool-cases (net.is_link_local n || net.is_multicast n)) [
        | inl skipped ↦ rw skipped (sym (or-false (any (is_in net a) seen.networks)))
        | inr kept_one ↦ rw kept_one (
            any-append (is_in net a) seen.networks (n ∷ [])
            ∙ ap (λ b. any (is_in net a) seen.networks || b) (or-false (is_in net a n)))
      ]

  left_alone :
      (dev : Text) (seen : Seen N) (a : ℕ)
      → held a (leaving_by net family dev seen) ≡ (held a seen || false)
  unfolding held
  left_alone dev seen a = sym (or-false (any (is_in net a) seen.networks))

  -- an entry by the answers to the questions that are asked of it
  gathered-held :
      (has_dst has_dev ours leaves : Bool) (destination dev : Text) (o : Option N) (seen : Seen N)
      (a : ℕ)
      → held a (
          if not has_dst || not has_dev
          then seen
          else if ours
          then counted_in net family destination o seen
          else if leaves
          then leaving_by net family dev seen
          else seen)
        ≡ (held a seen || (has_dst && has_dev && ours && reaches a o))
  gathered-held false has_dev ours leaves destination dev o seen a = sym (or-false (held a seen))
  gathered-held true false ours leaves destination dev o seen a = sym (or-false (held a seen))
  gathered-held true true true leaves destination dev o seen a =
      counted_in-held destination o seen a
  gathered-held true true false true destination dev o seen a = left_alone dev seen a
  gathered-held true true false false destination dev o seen a = sym (or-false (held a seen))

  look_at-held :
      (entry : Entry) (seen : Seen N) (a : ℕ)
      → held a (look_at net family device entry seen) ≡ (held a seen || carries_counted a entry)
  unfolding look_at carries_counted
  look_at-held entry seen a =
      gathered-held (nonempty (get_or [] entry.dst)) (nonempty (get_or [] entry.dev))
        (text_eq (get_or [] entry.dev) device) (text_eq (get_or [] entry.dst) (text "default"))
        (get_or [] entry.dst) (get_or [] entry.dev) (network_of net family (get_or [] entry.dst))
        seen a

  look_through-held :
      (entries : List Entry) (seen : Seen N) (a : ℕ)
      → held a (look_through net family device entries seen)
        ≡ (held a seen || any (carries_counted a) entries)
  unfolding look_through
  look_through-held [] seen a = sym (or-false (held a seen))
  look_through-held (entry ∷ entries) seen a =
      look_through-held entries (look_at net family device entry seen) a
      ∙ rw (look_at-held entry seen a)
          (or_assoc (held a seen) (carries_counted a entry) (any (carries_counted a) entries))

  held_all :
      (entries : List Entry) (a : ℕ)
      → any (is_in net a) (look_through net family device entries nothing_seen).networks
        ≡ any (carries_counted a) entries
  unfolding held
  held_all entries a = look_through-held entries nothing_seen a

  -- how many addresses no entry sends into the tunnel by a network that the verdict counts
  unfoldable pub left_out : List Entry → ℕ
  left_out entries = count_below (space family) (λ a. not (any (carries_counted a) entries))

  carried-total_size :
      IsFamily net family
      → (entries : List Entry)
      → count_below (space family) (λ a. any (carries_counted a) entries)
        ≡ total_size net
            (net.collapse (look_through net family device entries nothing_seen).networks)
  carried-total_size laws entries =
      let gathered = (look_through net family device entries nothing_seen).networks in
      count_below_same (λ a. any (carries_counted a) entries)
        (λ a. any (is_in net a) (net.collapse gathered))
        (λ a. sym (laws.collapse_covers gathered a ∙ held_all entries a)) (space family)
      ∙ count_below-total_size net (space family) laws.fits (net.collapse gathered)
          (laws.collapse_apart gathered)

  left_out-total_size :
      IsFamily net family
      → (entries : List Entry)
      → left_out entries
        ≡ space family
          - total_size net
              (net.collapse (look_through net family device entries nothing_seen).networks)
  unfolding left_out
  left_out-total_size laws entries =
      count_below-not (λ a. any (carries_counted a) entries) (space family)
      ∙ ap (λ k. space family - k) (carried-total_size laws entries)

  nothing-total_size : IsFamily net family → total_size net (net.collapse []) ≡ 0
  nothing-total_size laws =
      sym (
        count_below-total_size net (space family) laws.fits (net.collapse [])
          (laws.collapse_apart []))
      ∙ count_below_same (λ a. any (is_in net a) (net.collapse [])) (λ a. false)
          (laws.collapse_covers []) (space family)
      ∙ count_below_none (space family)

  evaluate-full :
      IsFamily net family
      → 0 < space family
      → (entries : List Entry)
      → ((evaluate net family entries device).mode ≡ full)
        ↔ (left_out entries * 18014398509481984 ≤ space family)
  unfolding evaluate judge
  evaluate-full laws some_space entries =
      let gathered = (look_through net family device entries nothing_seen).networks in
      rw (left_out-total_size laws entries) (
        verdict-full gathered (space family) (total_size net (net.collapse gathered)) some_space
          (λ h. rw h (nothing-total_size laws)))

-- An IPv4 tunnel is called full just when every address is carried into it by some entry whose
-- network is neither link-local nor multicast, whatever entries these are. For IPv6 the quotient is a
-- floating-point number, so the tunnel is called full just when the addresses that no such entry
-- carries are at most one in 2 ^ 54.
pub evaluate-full_iff :
    {N M : Type 0} (net4 : Networks N) (net6 : Networks M)
    → IsFamily net4 ipv4
    → IsFamily net6 ipv6
    → (device : Text) (entries : List Entry)
    → (((evaluate net4 ipv4 entries device).mode ≡ full) ↔ (left_out net4 ipv4 device entries ≡ 0))
      × (((evaluate net6 ipv6 entries device).mode ≡ full)
          ↔ (left_out net6 ipv6 device entries * 18014398509481984 ≤ space ipv6))
evaluate-full_iff net4 net6 laws4 laws6 device entries = (
  (let exact = evaluate-full net4 ipv4 device laws4 (omega arith) entries in
      (λ h. omega (arith, exact.0 h), λ h. exact.1 (omega (arith, h)))),
  evaluate-full net6 ipv6 device laws6 (omega arith) entries,
)
