-- ===== src/Scope.antt =====
-- What goes through the tunnel (app/services/scope.py). `Networks` holds what the code calls of
-- Python's `ipaddress` for one family, whose addresses are the numbers below `space`. Entries are
-- those of "ip -json route show".
mod Measure
pub mod Full
mod Egress
pub mod Leak
mod Tests
use openvpn_connect_web.Prelude.{
  Bool, List, Option, [], all, any, false, get_or, if◌then◌else◌, leb, length, ltb, none, not,
  or_else, some, ℕ, ◌&&◌, ◌*◌, ◌++◌, ◌+◌, ◌-◌, ◌||◌, ◌∷◌,
}
use openvpn_connect_web.Prelude.Number.{Ratio}
use openvpn_connect_web.Prelude.Text.{Text, nonempty, text, text_eq}

pub data Family : Type 0 where
  ipv4 ipv6 : Family

-- `2 ** _BITS[family]`
abbrev pub space : Family → ℕ
space ipv4 = 4294967296
space ipv6 = 340282366920938463463374607431768211456

pub record Networks (N : Type 0) : Type 0 where
  -- `cls(destination, strict=False)`, with its ValueError
  pub network : Text → Option N
  -- the lowest address, and `num_addresses`
  pub first : N → ℕ
  pub size : N → ℕ
  pub is_link_local : N → Bool
  pub is_multicast : N → Bool
  -- `is_public_network` of app/services/whois.py, by `is_private` and `is_global`
  pub is_public : N → Bool
  -- `ipaddress.collapse_addresses`
  pub collapse : List N → List N

-- `address in network`
abbrev pub is_in : {N : Type 0} → Networks N → ℕ → N → Bool
is_in net a n = leb (net.first n) a && ltb a (net.first n + net.size n)

pub record Entry : Type 0 where
  pub dst : Option Text
  pub dev : Option Text

pub data Mode : Type 0 where
  full split_tunnel no_tunnel : Mode

pub record FamilyScope : Type 0 where
  pub family : Family
  pub mode : Mode
  pub coverage : Ratio
  pub prefixes : ℕ
  pub blocks : ℕ
  pub default_via_tunnel : Bool
  pub redirect_pair : Bool
  pub egress_device : Option Text
  pub public_prefixes : ℕ
  pub public_blocks : ℕ
  pub public_coverage : Ratio

-- REDIRECT_PAIRS
abbrev pub redirect_pairs : Family → List Text
redirect_pairs ipv4 = text "0.0.0.0/1" ∷ text "128.0.0.0/1" ∷ []
redirect_pairs ipv6 = text "::/1" ∷ text "8000::/1" ∷ []

abbrev pub default_text : Family → Text
default_text ipv4 = text "0.0.0.0/0"
default_text ipv6 = text "::/0"

-- what the loop has gathered
pub record Seen (N : Type 0) : Type 0 where
  pub networks : List N
  pub public_networks : List N
  pub destinations : List Text
  pub prefixes : ℕ
  pub default_via_tunnel : Bool
  pub egress_device : Option Text

abbrev pub nothing_seen : {N : Type 0} → Seen N
nothing_seen = record {
  networks = [];
  public_networks = [];
  destinations = [];
  prefixes = 0;
  default_via_tunnel = false;
  egress_device = none;
}

abbrev pub total_size : {N : Type 0} → Networks N → List N → ℕ
total_size net [] = 0
total_size net (n ∷ ns) = net.size n + total_size net ns

-- whether the quotient of two numbers, the first not above the second, is at least 1.0 in floating
-- point: it is rounded to 53 bits, and half way to the even one
abbrev pub is_one : ℕ → ℕ → Bool
is_one total space = leb ((space - total) * 18014398509481984) space

module _ {N : Type 0} (net : Networks N) (family : Family) where
  -- `_network`
  unfoldable pub network_of : Text → Option N
  unfolding text_eq
  network_of destination =
      net.network
        (if text_eq destination (text "default") then default_text family else destination)

  -- `total / (2 ** _BITS[family])`, not rounded
  unfoldable pub coverage_of : List N → Ratio
  coverage_of [] = record { num = 0; den = 1 }
  coverage_of (n ∷ ns) = record { num = total_size net (net.collapse (n ∷ ns)); den = space family }

  -- an entry of the tunnel's device, whose network is counted
  abbrev pub counted_in : Text → Option N → Seen N → Seen N
  counted_in destination none seen = seen
  counted_in destination (some n) seen =
      if net.is_link_local n || net.is_multicast n then seen else record seen {
        networks = seen.networks ++ n ∷ [];
        public_networks =
            if net.is_public n then seen.public_networks ++ n ∷ [] else seen.public_networks;
        destinations = destination ∷ seen.destinations;
        prefixes = seen.prefixes + 1;
        default_via_tunnel = seen.default_via_tunnel || text_eq destination (text "default");
      }

  abbrev pub leaving_by : Text → Seen N → Seen N
  leaving_by dev seen = record seen { egress_device = or_else seen.egress_device (some dev) }

  -- one entry
  unfoldable pub look_at : (device : Text) → Entry → Seen N → Seen N
  unfolding network_of
  look_at device entry seen =
      let destination = get_or [] entry.dst in
      let dev = get_or [] entry.dev in
      if not (nonempty destination) || not (nonempty dev)
      then seen
      else if text_eq dev device
      then counted_in destination (network_of destination) seen
      else if text_eq destination (text "default")
      then leaving_by dev seen
      else seen

  unfoldable pub look_through : (device : Text) → List Entry → Seen N → Seen N
  unfolding look_at
  look_through device [] seen = seen
  look_through device (entry ∷ entries) seen =
      look_through device entries (look_at device entry seen)

  -- the verdict on what was gathered
  unfoldable pub judge : Seen N → FamilyScope
  unfolding coverage_of text_eq
  judge seen =
      let total = total_size net (net.collapse seen.networks) in
      let empty = not (nonempty seen.networks) in
      record {
        family = family;
        mode =
            if empty then no_tunnel else if is_one total (space family) then full else split_tunnel;
        coverage = coverage_of seen.networks;
        prefixes = if empty then 0 else seen.prefixes;
        blocks = if empty then 0 else length (net.collapse seen.networks);
        default_via_tunnel = not empty && seen.default_via_tunnel;
        redirect_pair =
            not empty && all (λ d. any (text_eq d) seen.destinations) (redirect_pairs family);
        egress_device = seen.egress_device;
        public_prefixes = if empty then 0 else length seen.public_networks;
        public_blocks = if empty then 0 else length (net.collapse seen.public_networks);
        public_coverage = coverage_of seen.public_networks;
      }

  unfoldable pub evaluate : List Entry → (device : Text) → FamilyScope
  unfolding judge look_through
  evaluate entries device = judge (look_through device entries nothing_seen)
