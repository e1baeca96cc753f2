-- ===== src/Access.antt =====
-- app/services/access.py: which socket peers reach the panel, and which client a login attempt is
-- counted against. Addresses and networks are those of Python's `ipaddress`, outside this library:
-- `Addresses` holds what the code calls of it.
use openvpn_connect_web.Prelude.{
  Bool, List, Option, [], false, if◌then◌else◌, none, not, some, true, ℕ, ◌&&◌, ◌||◌, ◌∷◌, any, map,
  reverse, take_last,
}
use openvpn_connect_web.Prelude.Text.{Text, nonempty, split, strip, text}
pub mod Spoof
mod Tests

pub record Addresses (Address Network : Type 0) : Type 0 where
  -- `ipaddress.ip_address`, with its ValueError
  pub ip_address : Text → Option Address
  -- `address.ipv4_mapped`, of an IPv6 address that has one
  pub ipv4_mapped : Address → Option Address
  -- `ipaddress.ip_network(entry, strict=False)`, with its ValueError
  pub ip_network : Text → Option Network
  -- `address in network`
  pub is_in : Address → Network → Bool
  -- `str(address)`
  pub show : Address → Text

-- the networks, or the entry that the `AccessError` names
pub data Parsed (Network : Type 0) : Type 0 where
  networks : List Network → Parsed Network
  malformed : Text → Parsed Network

abbrev prepend : {Network : Type 0} → Network → Parsed Network → Parsed Network
prepend n (networks ns) = networks (n ∷ ns)
prepend n (malformed entry) = malformed entry

abbrev pub max_forwarded_hops : ℕ
max_forwarded_hops = 20

module _ {Address Network : Type 0} (ip : Addresses Address Network) where
  parse_entries : List Text → Parsed Network
  parse_entries [] = networks []
  parse_entries (token ∷ rest) =
      let later = parse_entries rest in
      if nonempty (strip token)
      then elim (ip.ip_network (strip token)) [
        | none ↦ malformed (strip token)
        | some n ↦ prepend n later
      ]
      else later

  unfoldable pub parse_networks : Option Text → Parsed Network
  unfolding parse_entries
  parse_networks none = networks []
  parse_networks (some raw) =
      if nonempty (strip raw) then parse_entries (split 44 raw) else networks []

  abbrev or_loopback : List Network → Parsed Network → Parsed Network
  or_loopback loopback_only (networks []) = networks loopback_only
  or_loopback loopback_only p = p

  unfoldable pub parse_allow_from : List Network → Option Text → Parsed Network
  parse_allow_from loopback_only raw = or_loopback loopback_only (parse_networks raw)

  abbrev unmapped : Address → Address
  unmapped a = elim (ip.ipv4_mapped a) [ none ↦ a | some v4 ↦ v4 ]

  -- `_parse`
  unfoldable pub parse : Option Text → Option Address
  parse none = none
  parse (some []) = none
  parse (some (c ∷ s)) = elim (ip.ip_address (strip (c ∷ s))) [
    | none ↦ none
    | some a ↦ some (unmapped a)
  ]

  unfoldable pub is_allowed : Option Text → List Network → Bool
  is_allowed remote_addr ns = elim (parse remote_addr) [
    | none ↦ false
    | some address ↦ any (ip.is_in address) ns
  ]

  -- `remote_addr or "unknown"`
  abbrev pub socket_peer : Option Text → Text
  socket_peer none = text "unknown"
  socket_peer (some []) = text "unknown"
  socket_peer (some (c ∷ s)) = c ∷ s

  -- the loop over the hops, the nearest first
  unfoldable pub walk : Option Text → List Network → List Text → Text
  walk remote_addr proxies [] = socket_peer remote_addr
  walk remote_addr proxies (hop ∷ further) =
      let rest = walk remote_addr proxies further in
      if not (nonempty hop) || is_allowed (some hop) proxies
      then rest
      else elim (parse (some hop)) [ none ↦ socket_peer remote_addr | some a ↦ ip.show a ]

  -- `(forwarded_for or "").split(",")`, each stripped
  unfoldable pub hops_of : Option Text → List Text
  hops_of none = map strip (split 44 [])
  hops_of (some forwarded_for) = map strip (split 44 forwarded_for)

  unfoldable pub client_address : Option Text → Option Text → List Network → Text
  client_address remote_addr forwarded_for proxies =
      if not (nonempty proxies) || not (is_allowed remote_addr proxies)
      then socket_peer remote_addr
      else walk remote_addr proxies (reverse (take_last max_forwarded_hops (hops_of forwarded_for)))
