-- ===== src/Scope/Tests.antt =====
-- Tests of the split-tunnel verdict, on the networks that are a family's entire space or one of its
-- halves.
use openvpn_connect_web.Scope.Egress.{leaves}
use openvpn_connect_web.Scope.Leak.{
  read, TunnelScope, partly_bypasses, ran, read_scope, warnings, warnings-read_scope, RouteListing,
}
use openvpn_connect_web.Prelude.{
  Bool, List, Option, [], any, arith, false, if◌then◌else◌, none, refl, some, sym, true, ℕ, ◌&&◌,
  ◌+◌, ◌||◌, ◌∙◌, ◌∷◌, ◌≡◌, ◌≤◌, and-false, leb, not, or-false, or-true, ◌*◌, ◌==◌, ◌↔◌,
}
use openvpn_connect_web.Scope.Measure.{IsApart, IsFamily}
use openvpn_connect_web.Prelude.Text.{Text, text_eq, text, nonempty}
use openvpn_connect_web.Scope.{
  Family, Networks, default_text, ipv4, ipv6, is_in, redirect_pairs, space, evaluate, full,
  split_tunnel,
}
use openvpn_connect_web.Scope.Full.{evaluate-full_iff, left_out}

data Part : Type 0 where
  entire low_half high_half : Part

abbrev half : Family → ℕ
half ipv4 = 2147483648
half ipv6 = 170141183460469231731687303715884105728

abbrev lists_whole : List Part → Bool
lists_whole [] = false
lists_whole (entire ∷ parts) = true
lists_whole (low_half ∷ parts) = lists_whole parts
lists_whole (high_half ∷ parts) = lists_whole parts

abbrev lists_lower : List Part → Bool
lists_lower [] = false
lists_lower (entire ∷ parts) = lists_lower parts
lists_lower (low_half ∷ parts) = true
lists_lower (high_half ∷ parts) = lists_lower parts

abbrev lists_upper : List Part → Bool
lists_upper [] = false
lists_upper (entire ∷ parts) = lists_upper parts
lists_upper (low_half ∷ parts) = lists_upper parts
lists_upper (high_half ∷ parts) = true

abbrev joined : (whole_one lower_one upper_one : Bool) → List Part
joined true lower_one upper_one = entire ∷ []
joined false true true = entire ∷ []
joined false true false = low_half ∷ []
joined false false true = high_half ∷ []
joined false false false = []

abbrev first_of : Family → Part → ℕ
first_of family entire = 0
first_of family low_half = 0
first_of family high_half = half family

abbrev size_of : Family → Part → ℕ
size_of family entire = space family
size_of family low_half = half family
size_of family high_half = half family

abbrev parsed : (names : List Text) → List Part → Text → Option Part
parsed (name ∷ names) (part ∷ parts) t = if text_eq t name then some part else parsed names parts t
parsed [] parts t = none
parsed (name ∷ names) [] t = none

abbrev parts : Family → Networks Part
parts family = record {
  network =
      parsed (default_text family ∷ redirect_pairs family) (entire ∷ low_half ∷ high_half ∷ []);
  first = first_of family;
  size = size_of family;
  is_link_local = λ n. false;
  is_multicast = λ n. false;
  is_public = λ n. true;
  collapse = λ ns. joined (lists_whole ns) (lists_lower ns) (lists_upper ns);
}

two_halves : (family : Family) → half family + half family ≡ space family
two_halves ipv4 = refl
two_halves ipv6 = refl

parts_fit : (family : Family) (n : Part) → first_of family n + size_of family n ≤ space family
parts_fit family entire = omega arith
parts_fit family low_half = omega (arith, two_halves family)
parts_fit family high_half = omega (arith, two_halves family)

absorb_first : (w x r : Bool) → (w || ((x && w) || r)) ≡ (w || r)
absorb_first true x r = refl
absorb_first false x r = rw (and-false x) refl

absorb_second : (l y w r : Bool) → (l || (w || ((y && l) || r))) ≡ (w || (l || r))
absorb_second true y w r = sym (or-true w)
absorb_second false y w r = rw (and-false y) refl

absorb_third : (u z w r : Bool) → (u || (w || (r || (z && u)))) ≡ (w || (r || u))
absorb_third true z w r = rw (or-true r, or-true w) refl
absorb_third false z w r = rw (and-false z) refl

either_half : (l u y z : Bool) → ((l || u) || false) ≡ ((l || u) || ((y && l) || (z && u)))
either_half true u y z = refl
either_half false true y z = refl
either_half false false y z = rw (and-false y, and-false z) refl

module _ (family : Family) (a : ℕ) where
  abbrev inside : Part → Bool
  inside = is_in (parts family) a

  whole_inside : inside entire ≡ (inside low_half || inside high_half)
  whole_inside = ground (arith, two_halves family)

  listed :
      (ns : List Part)
      → any inside ns ≡ (
          (lists_whole ns && inside entire)
          || ((lists_lower ns && inside low_half) || (lists_upper ns && inside high_half)))
  listed [] = refl
  listed (entire ∷ ns) = rw (listed ns) (
      absorb_first (inside entire) (lists_whole ns)
        (lists_lower ns && inside low_half || lists_upper ns && inside high_half))
  listed (low_half ∷ ns) = rw (listed ns) (
      absorb_second (inside low_half) (lists_lower ns) (lists_whole ns && inside entire)
        (lists_upper ns && inside high_half))
  listed (high_half ∷ ns) = rw (listed ns) (
      absorb_third (inside high_half) (lists_upper ns) (lists_whole ns && inside entire)
        (lists_lower ns && inside low_half))

  inside-joined :
      (x y z : Bool)
      → any inside (joined x y z)
        ≡ ((x && inside entire) || ((y && inside low_half) || (z && inside high_half)))
  inside-joined true y z = rw whole_inside (either_half (inside low_half) (inside high_half) y z)
  inside-joined false true true = rw whole_inside (or-false (inside low_half || inside high_half))
  inside-joined false true false = refl
  inside-joined false false true = or-false (inside high_half)
  inside-joined false false false = refl

joined-IsApart : (family : Family) (x y z : Bool) → IsApart (parts family) (joined x y z)
joined-IsApart family true y z = (tt, tt)
joined-IsApart family false true true = (tt, tt)
joined-IsApart family false true false = (tt, tt)
joined-IsApart family false false true = (tt, tt)
joined-IsApart family false false false = tt

parts-IsFamily : (family : Family) → IsFamily (parts family) family
parts-IsFamily family = record {
  fits = parts_fit family;
  collapse_covers = λ ns a.
      inside-joined family a (lists_whole ns) (lists_lower ns) (lists_upper ns)
      ∙ sym (listed family a ns);
  collapse_apart = λ ns. joined-IsApart family (lists_whole ns) (lists_lower ns) (lists_upper ns);
}

abbrev tun : Text
tun = text "tun0"

-- IPv4 by the redirect pair, and both families with a default route of their own
abbrev listed4 : RouteListing
listed4 = ran 0 (
    some (
      some (record { dst = some (text "default"); dev = some (text "eth0") })
      ∷ some (record { dst = some (text "0.0.0.0/1"); dev = some tun })
      ∷ none
      ∷ some (record { dst = some (text "128.0.0.0/1"); dev = some tun })
      ∷ []))

abbrev listed6 : RouteListing
listed6 = ran 0 (
    some (
      some (record { dst = some (text "default"); dev = some (text "eth0") })
      ∷ some (record { dst = some (text "::/1"); dev = some tun })
      ∷ []))

abbrev seen_scope : TunnelScope
seen_scope = read_scope (parts ipv4) (parts ipv6) listed4 listed6 tun

pair_is_full : seen_scope.ipv4.mode ≡ full
unfolding read_scope
pair_is_full = refl

half_is_split : seen_scope.ipv6.mode ≡ split_tunnel
unfolding read_scope
half_is_split = refl

half_is_warned : warnings seen_scope ≡ partly_bypasses (text "eth0") ∷ []
unfolding read_scope warnings
half_is_warned = refl

unread_is_silent : warnings (read_scope (parts ipv4) (parts ipv6) listed4 (ran 1 none) tun) ≡ []
unfolding read_scope warnings
unread_is_silent = refl

evaluate-full_iff_example :
    (((evaluate (parts ipv4) ipv4 (read listed4) tun).mode ≡ full)
      ↔ (left_out (parts ipv4) ipv4 tun (read listed4) ≡ 0))
    × (((evaluate (parts ipv6) ipv6 (read listed4) tun).mode ≡ full)
        ↔ (left_out (parts ipv6) ipv6 tun (read listed4) * 18014398509481984 ≤ space ipv6))
evaluate-full_iff_example =
    evaluate-full_iff (parts ipv4) (parts ipv6) (parts-IsFamily ipv4) (parts-IsFamily ipv6) tun
      (read listed4)

warnings-read_scope_example : nonempty (warnings seen_scope) ≡ (
    (left_out (parts ipv4) ipv4 tun (read listed4) == 0)
    && (not (leb (left_out (parts ipv6) ipv6 tun (read listed6) * 18014398509481984) (space ipv6))
        && any (leaves tun) (read listed6)))
warnings-read_scope_example =
    warnings-read_scope (parts ipv4) (parts ipv6) (parts-IsFamily ipv4) (parts-IsFamily ipv6)
      listed4 listed6 tun
