-- ===== src/Routing.antt =====
-- The routes that the kernel has for the tunnel (app/services/routing.py). `Ipv4` is what the code
-- calls of `ipaddress.IPv4Network`, and a network is its address and the length of its prefix.
mod Tests
use openvpn_connect_web.Prelude.{
  Bool, List, Option, [], get_or, if◌then◌else◌, leb, ltb, none, not, some, sort, ℕ, ◌&&◌, ◌++◌,
  ◌==◌, ◌||◌, ◌∷◌,
}
use openvpn_connect_web.Prelude.Text.{Text, nonempty, text, text_eq, truthy}

pub record Prefix : Type 0 where
  pub address : ℕ
  pub length : ℕ

abbrev pub same_prefix : Prefix → Prefix → Bool
same_prefix n m = (n.address == m.address) && (n.length == m.length)

pub record Ipv4 : Type 0 where
  -- `IPv4Network(text, strict=False)`, with its ValueError
  pub network : Text → Option Prefix
  -- `str(network)`
  pub shown : Prefix → Text

pub data RouteKind : Type 0 where
  tunnel on_link bypass : RouteKind

abbrev pub kind_order : RouteKind → ℕ
kind_order tunnel = 0
kind_order on_link = 1
kind_order bypass = 2

pub record Route : Type 0 where
  pub destination : Text
  pub gateway : Option Text
  pub device : Text
  pub metric : Option ℕ
  pub kind : RouteKind

-- a dict of the listing; a metric that is no integer is none
pub record RouteEntry : Type 0 where
  pub dst : Option Text
  pub dev : Option Text
  pub gateway : Option Text
  pub metric : Option ℕ

-- the order of tuples of three
abbrev pub key_leb : ℕ × ℕ × ℕ → ℕ × ℕ × ℕ → Bool
key_leb (a, b, c) (x, y, z) = ltb a x || ((a == x) && (ltb b y || ((b == y) && leb c z)))

-- `str(gateway) if gateway else None`
abbrev pub or_none : Option Text → Option Text
or_none g = if truthy g then g else none

module _ (ip : Ipv4) where
  unfoldable pub network_of : Text → Option Prefix
  unfolding text_eq
  network_of destination =
      ip.network (if text_eq destination (text "default") then text "0.0.0.0/0" else destination)

  unfoldable pub sort_key : Route → ℕ × ℕ × ℕ
  unfolding network_of
  sort_key route = elim (network_of route.destination) [
    | none ↦ (kind_order route.kind, 0, 0)
    | some n ↦ (kind_order route.kind, n.address, n.length)
  ]

  module _ (device : Text) (remote_ip : Option Text) where
    unfoldable pub kind_of : (destination entry_device : Text) → Option Text → Option RouteKind
    unfolding text_eq
    kind_of destination entry_device gateway =
        if text_eq entry_device device
        then some (if truthy gateway then tunnel else on_link)
        else if truthy remote_ip && text_eq destination (get_or [] remote_ip)
        then some bypass
        else none

    abbrev pub route_with : RouteEntry → Text → Text → Option RouteKind → List Route
    route_with entry destination entry_device none = []
    route_with entry destination entry_device (some kind) =
        record {
          destination = destination;
          gateway = or_none entry.gateway;
          device = entry_device;
          metric = entry.metric;
          kind = kind;
        }
        ∷ []

    -- the route of an entry, if it is shown
    unfoldable pub route_from : RouteEntry → List Route
    unfolding kind_of
    route_from entry =
        let destination = get_or [] entry.dst in
        let entry_device = get_or [] entry.dev in
        if not (nonempty destination) || not (nonempty entry_device)
        then []
        else route_with entry destination entry_device
            (kind_of destination entry_device entry.gateway)

    unfoldable pub routes_from : List (Option RouteEntry) → List Route
    unfolding route_from
    routes_from [] = []
    routes_from (none ∷ entries) = routes_from entries
    routes_from (some entry ∷ entries) = route_from entry ++ routes_from entries

    -- the payload as JSON: `none` where it is not, or no list
    unfoldable pub parse_routes : Option (List (Option RouteEntry)) → List Route
    unfolding routes_from sort_key
    parse_routes none = []
    parse_routes (some entries) =
        sort (λ r s. key_leb (sort_key r) (sort_key s)) (routes_from entries)
