-- ===== src/Routes/Reads.antt =====
-- The endpoints that read what the tunnel carries, with the methods of the controller behind them
-- (app/routes/api.py and app/services/openvpn.py): the routes with the push report, the scope, and
-- the lookups of who a route's destination belongs to.
use openvpn_connect_web.Routing.{Route, Ipv4, RouteEntry, parse_routes}
use openvpn_connect_web.Pushed.{PushReport, report, find_reply, nothing_pushed}
use openvpn_connect_web.Prelude.{Bool, List, Option, [], any, filter, if◌then◌else◌, take, ℕ}
use openvpn_connect_web.Whois.{Cache, WhoisResult, lookup_many, max_batch}
use openvpn_connect_web.Controller.State.{Controller}
use openvpn_connect_web.Prelude.Text.{Text, text_eq, truthy}

module _ (ip : Ipv4) (device : Text) {H : Type 0} where
  -- `listing` is the kernel's, `none` where ip cannot be run or fails
  unfoldable pub installed_routes :
      (running : Bool) → (listing : Option (List (Option RouteEntry))) → Controller H → List Route
  unfolding parse_routes
  installed_routes running listing c =
      if running then parse_routes ip device c.status.remote_ip listing else []

  -- `_push_reply`, or the reply that is still in the log
  unfoldable pub push_report :
      (running : Bool) → (installed : List Route) → Controller H → PushReport
  unfolding report find_reply
  push_report running installed c =
      if running
      then report ip (if truthy c.push_reply then c.push_reply else find_reply c.log) installed
          c.log
      else nothing_pushed

  -- the view `routes`: one listing for both
  unfoldable pub routes :
      (running : Bool)
      → (listing : Option (List (Option RouteEntry))) → Controller H
      → List Route × PushReport
  unfolding installed_routes push_report
  routes running listing c =
      let installed = installed_routes running listing c in
      (installed, push_report running installed c)

abbrev pub is_destination : List Route → Text → Bool
is_destination known d = any (λ (r : Route). text_eq d r.destination) known

-- the view `whois`: the first of the requested destinations, as far as there are routes to them
unfoldable pub whois :
    (ask : Text → Option Text)
    → (now : ℕ) → (is_public : Text → Bool) → (known : List Route) → (requested : List Text) → Cache
    → List WhoisResult × Cache
unfolding lookup_many text_eq
whois ask now is_public known requested cache =
    lookup_many ask now is_public (filter (is_destination known) (take max_batch requested)) cache
