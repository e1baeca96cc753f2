-- ===== src/Routing/Tests.antt =====
-- A test of the routes shown: tunnel routes come first, the host route of the server last.
use openvpn_connect_web.Routing.{Ipv4, Route, RouteEntry, parse_routes}
use openvpn_connect_web.Prelude.{List, Option, [], if◌then◌else◌, none, refl, some, ◌∷◌, ◌≡◌}
use openvpn_connect_web.Prelude.Text.{Text, text, text_eq}

abbrev by_text : Ipv4
by_text = record {
  network = λ t.
      if text_eq t (text "10.8.0.0/24") then some (record { address = 1; length = 24 }) else none;
  shown = λ n. [];
}

abbrev entry : Text → Text → Option Text → RouteEntry
entry dst dev gateway = record { dst = some dst; dev = some dev; gateway = gateway; metric = none }

abbrev destinations : List Route → List Text
destinations [] = []
destinations (r ∷ rs) = r.destination ∷ destinations rs

shown_in_order :
    destinations (
      parse_routes by_text (text "tun0") (some (text "9.9.9.9")) (
        some (
          some (entry (text "9.9.9.9") (text "eth0") (some (text "1.1.1.1")))
          ∷ none
          ∷ some (entry (text "10.8.0.0/24") (text "tun0") none)
          ∷ some (entry (text "192.168.1.0/24") (text "eth0") none)
          ∷ some (entry (text "10.20.0.0/16") (text "tun0") (some (text "10.8.0.1")))
          ∷ [])))
    ≡ text "10.20.0.0/16" ∷ text "10.8.0.0/24" ∷ text "9.9.9.9" ∷ []
unfolding parse_routes
shown_in_order = refl
