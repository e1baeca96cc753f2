-- ===== src/Pushed/Tests.antt =====
-- Tests of the push report: two routes and a redirection, of which one route is installed.
use openvpn_connect_web.Routing.{Ipv4, Prefix, Route, RouteEntry, parse_routes, same_prefix}
use openvpn_connect_web.Prelude.{
  List, Option, [], all, count, if◌then◌else◌, none, refl, some, ◌&&◌, ◌++◌, ◌||◌, ◌∷◌, ◌≡◌, ◌≤◌,
}
use openvpn_connect_web.Pushed.{parse, PushedRoute, report, wholesale}
use openvpn_connect_web.Prelude.Text.{Text, nonempty, text, text_eq, truthy}
use openvpn_connect_web.Pushed.Rejected.{is_missing, report-rejected}

abbrev office : Prefix
office = record { address = 169082880; length = 16 }

abbrev lab : Prefix
lab = record { address = 169148416; length = 16 }

abbrev toy_ip : Ipv4
toy_ip = record {
  network = λ t.
      if text_eq t (text "10.20.0.0/255.255.0.0") || text_eq t (text "10.20.0.0/16")
      then some office
      else if text_eq t (text "10.21.0.0/255.255.0.0") || text_eq t (text "10.21.0.0/16")
      then some lab
      else none;
  shown = λ n. if same_prefix n office then text "10.20.0.0/16" else text "10.21.0.0/16";
}

abbrev line : Text
line =
    text "PUSH: Received control message: 'PUSH_REPLY,route 10.21.0.0 255.255.0.0 vpn_gateway 50,"
    ++ text "route 10.20.0.0 255.255.0.0,topology subnet,redirect-gateway def1'"

abbrev listing : List (Option RouteEntry)
listing =
    some (record {
      dst = some (text "10.20.0.0/16");
      dev = some (text "tun0");
      gateway = some (text "10.8.0.1");
      metric = none;
    })
    ∷ some (record {
      dst = some (text "default");
      dev = some (text "eth0");
      gateway = none;
      metric = none;
    })
    ∷ []

abbrev installed : List Route
installed = parse_routes toy_ip (text "tun0") none (some listing)

abbrev destinations : List PushedRoute → List Text
destinations [] = []
destinations (r ∷ rs) = r.destination ∷ destinations rs

missing_ones :
    destinations (report toy_ip (some line) installed []).rejected
    ≡ text "10.21.0.0/16" ∷ text "default" ∷ []
unfolding report parse_routes
missing_ones = refl

report-rejected_example :
    (count (λ (r : PushedRoute). r.catch_all) (report toy_ip (some line) installed []).rejected ≡ (
      if truthy (some line) && nonempty installed
      then count
          (λ (r : PushedRoute). r.catch_all && is_missing toy_ip installed r)
          (parse toy_ip (some line))
      else 0))
    × (wholesale (report toy_ip (some line) installed []) ≡ (
        (truthy (some line) && nonempty installed)
        && (nonempty (parse toy_ip (some line))
            && all (is_missing toy_ip installed) (parse toy_ip (some line)))))
    × (count
          (λ (r : PushedRoute). text_eq (text "redirect-gateway def1") r.option)
          (parse toy_ip (some line))
        ≤ 1)
report-rejected_example =
    report-rejected toy_ip (some line) installed [] (λ r. r.catch_all)
      (text "redirect-gateway def1")
