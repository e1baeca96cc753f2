-- ===== src/Access/Tests.antt =====
-- A toy address family: an address is a text that starts with a digit, and a network is one address.
use openvpn_connect_web.Access.{
  parse_entries, Addresses, client_address, hops_of, is_allowed, networks, parse, parse_networks,
}
use openvpn_connect_web.Access.Spoof.{
  nonblank, client_address-forged, is_own, parse_networks_complete,
}
use openvpn_connect_web.Prelude.Text.{Text, isdigit, nonempty, split, strip, text, text_eq}
use openvpn_connect_web.Prelude.{
  [], arith, false, if◌then◌else◌, map, none, refl, some, take, true, ◌++◌, ◌∷◌, ◌≡◌,
}

abbrev toy : Addresses Text Text
toy = record {
  ip_address = λ t. if isdigit (take 1 t) then some t else none;
  ipv4_mapped = λ a. none;
  ip_network = λ t. if isdigit (take 1 t) then some t else none;
  is_in = text_eq;
  show = λ a. a;
}

abbrev proxy : Text
proxy = text "127.0.0.1"

spoofed :
    is_allowed toy (some proxy) (proxy ∷ []) ≡ true
    × (hops_of toy (some (text " 100.64.0.7, 127.0.0.1")) ≡ text "100.64.0.7" ∷ proxy ∷ [])
    × (is_own toy (proxy ∷ []) (text "100.64.0.7") ≡ false)
    × (is_own toy (proxy ∷ []) proxy ≡ true)
    × (parse toy (some (text "100.64.0.7")) ≡ some (text "100.64.0.7"))
unfolding is_allowed hops_of is_own parse text_eq strip isdigit split
spoofed = (refl, refl, refl, refl, refl)

client_address-forged_example :
    client_address toy
      (some proxy)
      (some (text "6.6.6.6" ++ 44 ∷ text " 100.64.0.7, 127.0.0.1"))
      (proxy ∷ [])
    ≡ text "100.64.0.7"
client_address-forged_example =
    client_address-forged toy (proxy ∷ []) (some proxy) (text "6.6.6.6")
      (text " 100.64.0.7, 127.0.0.1") (text "100.64.0.7") (proxy ∷ []) (text "100.64.0.7") spoofed.0
      spoofed.1 (omega arith) spoofed.2 spoofed.4 (spoofed.3, tt)

parsed :
    parse_networks toy (some (text "10.0.0.1, ,7")) ≡ networks (text "10.0.0.1" ∷ text "7" ∷ [])
unfolding parse_networks parse_entries strip split isdigit
parsed = refl

has_text : nonempty (strip (text "10.0.0.1, ,7")) ≡ true
unfolding strip
has_text = refl

parse_networks_complete_example :
    map some (text "10.0.0.1" ∷ text "7" ∷ [])
    ≡ map toy.ip_network (nonblank (split 44 (text "10.0.0.1, ,7")))
parse_networks_complete_example =
    parse_networks_complete toy (text "10.0.0.1, ,7") (text "10.0.0.1" ∷ text "7" ∷ []) parsed
      has_text
