-- ===== src/Routes/Tests.antt =====
-- Tests of the endpoints: an attempt under way on "work", and then its tunnel connected.
use openvpn_connect_web.Controller.State.{
  connected, Recorder, State, Controller, connecting, fresh_controller, fresh_status,
}
use openvpn_connect_web.Login.{Session, Request}
use openvpn_connect_web.Routes
use openvpn_connect_web.Routes.{reply, HttpReply, Around, Panel}
use openvpn_connect_web.Firewall.{Answer, output, trouble, Verb}
use openvpn_connect_web.Store.Connections.{Connection}
use openvpn_connect_web.Routes.Guarded.{
  IsRefused, answered_by, handle, handle-cases, is_let_through,
}
use openvpn_connect_web.Prelude.{
  Option, [], false, none, refl, some, true, ◌∷◌, ◌≡◌, ◌≤◌, Bool-cases, arith, if◌then◌else◌, inl,
  inr, length,
}
use openvpn_connect_web.Prelude.Text.{Text, text, text_eq}
use openvpn_connect_web.Routes.InUse.{handle-named}
use openvpn_connect_web.Store.Connections.Names.{named}
use openvpn_connect_web.Prelude.Number.{pos}
use openvpn_connect_web.Vault.Toy.{toy}
use openvpn_connect_web.Routing.{Route, tunnel}
use openvpn_connect_web.Routes.Reads.{is_destination, whois}
use openvpn_connect_web.Login.Tally.{same}
use openvpn_connect_web.Routes.Relay.{whois-known}

instance abbrev no_record : Recorder (Unit {0})
no_record = record {
  start_session = λ _ h. h;
  end_session = λ _ _ h. h;
  flush = λ h. h;
  mark_connected = λ h. h;
  append = λ _ h. h;
  record_event = λ _ _ _ h. h;
  record_sample = λ _ _ h. h;
  is_recording = λ _. false;
  recording-end = λ _ _ _. refl;
  recording-flush = λ _. refl;
  recording-event = λ _ _ _ _. refl;
  recording-append = λ _ _. refl;
  recording-sample = λ _ _ _. refl;
}

abbrev work : Connection
work = record {
  id = 1;
  name = text "work";
  label = [];
  profile = [];
  username = [];
  password = [];
  static_challenge = [];
  is_default = true;
  ignore_pushed_dns = false;
  requires_mfa = true;
  created_at = 1;
  updated_at = 1;
}

abbrev in_state : State → Controller (Unit {0})
in_state s = record (fresh_controller tt false) {
  status = record (fresh_status) { state = s; profile = some (text "work") };
}

abbrev panel : State → Panel toy (Unit {0}) (Unit {0}) (Unit {0})
panel s = record {
  connections = record { rows = work ∷ []; key = some 7; files = λ f. none };
  vault_exists = true;
  controller = in_state s;
  dns = record { rules = []; staging = none; outside = tt };
  firewall = record { setting = none; kernel = tt };
  settings = [];
}

abbrev quiet : Around
quiet = record {
  now = 5;
  iv = 0;
  disk = true;
  running = true;
  pid = some (pos 9);
  is_open = true;
  refused_signal = none;
  refused_stop = none;
  address = none;
  legacy_file = none;
  undelivered = none;
}

abbrev with_token : Option Text → Request
with_token token = record {
  is_post = true;
  session = record { authenticated = true; csrf = some (text "t") };
  client = text "10.0.0.9";
  form_token = token;
  header_token = [];
  password = [];
  next = [];
  now = 5;
  fresh = text "u";
}

abbrev dns_tool : Text → Unit {0} → Answer × Unit {0}
dns_tool content k = (output (text "applied:"), k)

abbrev filter_tool : Verb → Unit {0} → Answer × Unit {0}
filter_tool verb k = (trouble (text "no helper"), k)

abbrev removal : Request → State → HttpReply × Session × Panel toy (Unit {0}) (Unit {0}) (Unit {0})
removal q s =
    handle toy (λ k. true) dns_tool filter_tool (λ t. true) (Routes.delete_connection (text "work"))
      q quiet (panel s)

-- the profile of an attempt under way is refused, that of a connected tunnel is deleted
removals :
    ((removal (with_token (some (text "t"))) connecting).0.code ≡ 409)
    × ((removal (with_token (some (text "t"))) connected).0.code ≡ 200)
    × ((removal (with_token (some (text "t"))) connected).2.connections.rows ≡ [])
    × ((removal (with_token none) connected).0.code ≡ 400)
unfolding handle openvpn_connect_web.Routes.Handlers.delete_connection
    openvpn_connect_web.Controller.Api.snapshot Routes.Connections.delete
    openvpn_connect_web.Store.Connections.delete_connection
    openvpn_connect_web.Store.Connections.promote is_let_through
removals = (refl, refl, refl, refl)

handle-cases_example :
    (is_let_through toy
          (λ k. true)
          dns_tool
          filter_tool
          (λ t. true)
          (Routes.delete_connection (text "work"))
          (with_token none)
          (panel connected)
        ≡ true
      → removal (with_token none) connected
        ≡ answered_by toy
            (λ k. true)
            dns_tool
            filter_tool
            (λ t. true)
            (Routes.delete_connection (text "work"))
            quiet
            (panel connected)
            (with_token none).session)
    × (is_let_through toy
            (λ k. true)
            dns_tool
            filter_tool
            (λ t. true)
            (Routes.delete_connection (text "work"))
            (with_token none)
            (panel connected)
          ≡ false
        → IsRefused toy
            (λ k. true)
            dns_tool
            filter_tool
            (λ t. true)
            (panel connected)
            (removal (with_token none) connected))
handle-cases_example =
    handle-cases toy (λ k. true) dns_tool filter_tool (λ t. true)
      (Routes.delete_connection (text "work")) (with_token none) quiet (panel connected)

handle-named_example :
    named (text "work") (panel connecting).connections.rows
    ≤ named (text "work") (removal (with_token (some (text "t"))) connecting).2.connections.rows
handle-named_example =
    handle-named toy (λ k. true) dns_tool filter_tool (λ t. true)
      (Routes.delete_connection (text "work")) (with_token (some (text "t"))) quiet
      (panel connecting) (text "work") refl refl

abbrev route_to : Text → Route
route_to d = record {
  destination = d;
  gateway = none;
  device = text "tun0";
  metric = none;
  kind = tunnel;
}

abbrev honest : Text → Option Text
honest d = some (text "Example Cloud")

abbrev spiteful : Text → Option Text
spiteful d = if text_eq d (text "5.20.0.0/14") then some (text "Example Cloud") else none

agrees :
    (d : Text)
    → is_destination (route_to (text "5.20.0.0/14") ∷ []) d ≡ true
    → honest d ≡ spiteful d
agrees d h = elim (Bool-cases (text_eq d (text "5.20.0.0/14"))) [
  | inl same ↦ rw same refl
  | inr other ↦ absurd (ground (arith, h, other))
]

whois-known_example :
    let known = route_to (text "5.20.0.0/14") ∷ [] in
    let requested = text "8.8.8.8" ∷ text "5.20.0.0/14" ∷ [] in
    (whois honest 9 (λ d. true) known requested (λ d. none)
      ≡ whois spiteful 9 (λ d. true) known requested (λ d. none))
    × (length (whois honest 9 (λ d. true) known requested (λ d. none)).0 ≤ 40)
whois-known_example =
    whois-known honest spiteful 9 (λ d. true) (route_to (text "5.20.0.0/14") ∷ [])
      (text "8.8.8.8" ∷ text "5.20.0.0/14" ∷ []) (λ d. none) agrees
