-- ===== src/Scope/Leak.antt =====
-- Both families' verdicts as the page has them, and the warning about a tunnel that carries all of
-- IPv4 while IPv6 still leaves the machine beside it. The wording of the warnings is left out.
use openvpn_connect_web.Prelude.{
  Bool, List, Option, [], false, if◌then◌else◌, is_some, none, not, some, suc, true, zero, ℕ, ◌&&◌,
  ◌==◌, ◌||◌, ◌∷◌, any, leb, refl, ◌*◌, ◌↔◌, ◌≡◌, ◌≤◌, arith, ◌∙◌,
}
use openvpn_connect_web.Scope.{
  Entry, ipv4, ipv6, full, split_tunnel, no_tunnel, evaluate, FamilyScope, Mode, Networks, space,
}
use openvpn_connect_web.Prelude.Number.{Ratio}
use openvpn_connect_web.Prelude.Text.{Text, nonempty}
use openvpn_connect_web.Scope.Measure.{IsFamily}
use openvpn_connect_web.Scope.Egress.{leaves, evaluate-egress_device}
use openvpn_connect_web.Scope.Full.{left_out, evaluate-full_iff}

pub record TunnelScope : Type 0 where
  pub ipv4 : FamilyScope
  pub ipv6 : FamilyScope
  pub device : Text

-- `self.mode != NONE`, and `self.mode == SPLIT`
abbrev pub is_routed : Mode → Bool
is_routed no_tunnel = false
is_routed _ = true

abbrev pub is_split : Mode → Bool
is_split split_tunnel = true
is_split _ = false

abbrev pub routed : FamilyScope → Bool
routed s = is_routed s.mode

abbrev pub active : TunnelScope → Bool
active scope = routed scope.ipv4 || routed scope.ipv6

unfoldable pub leaking : TunnelScope → FamilyScope → Bool
leaking scope family = active scope && is_some family.egress_device && not (routed family)

pub data Warning : Type 0 where
  -- IPv6 does not go through the tunnel at all, and part of it does not
  bypasses : (via : Text) → Warning
  partly_bypasses : (via : Text) → Warning

unfoldable pub warnings_of : (mode4 mode6 : Mode) → (egress6 : Option Text) → List Warning
warnings_of full full egress = []
warnings_of full no_tunnel none = []
warnings_of full no_tunnel (some via) = bypasses via ∷ []
warnings_of full split_tunnel none = []
warnings_of full split_tunnel (some via) = partly_bypasses via ∷ []
warnings_of split_tunnel mode6 egress = []
warnings_of no_tunnel mode6 egress = []

unfoldable pub warnings : TunnelScope → List Warning
unfolding warnings_of
warnings scope = warnings_of scope.ipv4.mode scope.ipv6.mode scope.ipv6.egress_device

-- the numbers that the notice about public ranges speaks of
unfoldable pub public_notice : TunnelScope → Option (ℕ × Ratio)
public_notice scope =
    if is_split scope.ipv4.mode && not (scope.ipv4.public_prefixes == 0)
    then some (scope.ipv4.public_prefixes, scope.ipv4.public_coverage)
    else none

-- what becomes of running "ip -json -N route show": it cannot be run, or ends with a code and an
-- output, which as JSON is an array of entries, dicts or not
pub data RouteListing : Type 0 where
  not_run : RouteListing
  ran : (returncode : ℕ) (output : Option (List (Option Entry))) → RouteListing

-- the entries that are dicts
abbrev pub dicts : List (Option Entry) → List Entry
dicts [] = []
dicts (none ∷ entries) = dicts entries
dicts (some entry ∷ entries) = entry ∷ dicts entries

-- `_read`
unfoldable pub read : RouteListing → List Entry
read not_run = []
read (ran zero (some entries)) = dicts entries
read (ran zero none) = []
read (ran (suc code) output) = []

module _ {N M : Type 0} (net4 : Networks N) (net6 : Networks M) where
  unfoldable pub read_scope : (answer4 answer6 : RouteListing) → (device : Text) → TunnelScope
  unfolding evaluate read
  read_scope answer4 answer6 device = record {
    ipv4 = evaluate net4 ipv4 (read answer4) device;
    ipv6 = evaluate net6 ipv6 (read answer6) device;
    device = device;
  }

is_full : Mode → Bool
is_full full = true
is_full _ = false

warned_by :
    (mode4 mode6 : Mode) (egress6 : Option Text)
    → nonempty (warnings_of mode4 mode6 egress6)
      ≡ (is_full mode4 && (not (is_full mode6) && is_some egress6))
unfolding is_full warnings_of
warned_by full full egress = refl
warned_by full no_tunnel none = refl
warned_by full no_tunnel (some via) = refl
warned_by full split_tunnel none = refl
warned_by full split_tunnel (some via) = refl
warned_by split_tunnel mode6 egress = refl
warned_by no_tunnel mode6 egress = refl

not_above : (x y : ℕ) → ¬ (x ≤ y) → false ≡ leb x y
not_above x y h = ground (arith, h)

full_by : (mode : Mode) (x y : ℕ) → (mode ≡ full) ↔ (x ≤ y) → is_full mode ≡ leb x y
unfolding is_full
full_by full x y h = ground (arith, h.0 refl)
full_by split_tunnel x y h = not_above x y (λ le. ground (arith, h.1 le))
full_by no_tunnel x y h = not_above x y (λ le. ground (arith, h.1 le))

full_if : (mode : Mode) (x : ℕ) → (mode ≡ full) ↔ (x ≡ 0) → is_full mode ≡ (x == 0)
full_if mode x h =
    full_by mode x 0 ((λ e. omega (arith, h.0 e)), (λ le. h.1 (omega (arith, le)))) ∙ ground arith

-- A warning is given just when every IPv4 address is carried into the tunnel by some entry whose
-- network is neither link-local nor multicast, more than one in 2 ^ 54 of the IPv6 addresses are
-- carried by no such entry, and IPv6 has a default route by another device; this for whatever the two
-- route listings hold.
pub warnings-read_scope :
    {N M : Type 0} (net4 : Networks N) (net6 : Networks M)
    → IsFamily net4 ipv4
    → IsFamily net6 ipv6
    → (answer4 answer6 : RouteListing) (device : Text)
    → nonempty (warnings (read_scope net4 net6 answer4 answer6 device)) ≡ (
        (left_out net4 ipv4 device (read answer4) == 0)
        && (not (leb (left_out net6 ipv6 device (read answer6) * 18014398509481984) (space ipv6))
            && any (leaves device) (read answer6)))
unfolding warnings read_scope
warnings-read_scope net4 net6 laws4 laws6 answer4 answer6 device =
    let verdict4 = evaluate net4 ipv4 (read answer4) device in
    let verdict6 = evaluate net6 ipv6 (read answer6) device in
    let carried = evaluate-full_iff net4 net6 laws4 laws6 device in
    warned_by verdict4.mode verdict6.mode verdict6.egress_device
    ∙ rw
        (
          full_if verdict4.mode (left_out net4 ipv4 device (read answer4))
              (carried (read answer4)).0,
          full_by verdict6.mode (left_out net6 ipv6 device (read answer6) * 18014398509481984)
              (space ipv6) (carried (read answer6)).1,
          evaluate-egress_device net6 ipv6 device (read answer6),
        )
        refl
