-- ===== src/Controller/State.antt =====
-- The state of `OpenVpnController` (app/services/openvpn.py): `VpnStatus`, the fields that
-- `__init__` sets, and what the controller uses of app/services/history.py. Times are in
-- microseconds. An object that the source tests only against `None`, or only asks to act
-- (`_client`, the two events), is the Boolean of that test.
use openvpn_connect_web.Prelude.{ℕ, ◌-◌, ◌/◌, ◌≡◌, Bool, true, false, Option, none, some, List, []}
use openvpn_connect_web.Prelude.Text.{Text}
use openvpn_connect_web.Prelude.Number.{ℤ, pos}

-- DISCONNECTED … UNMANAGED
pub data State : Type 0 where
  disconnected starting authenticating connecting connected disconnecting failed unmanaged : State

pub record Status : Type 0 where
  pub state : State
  pub openvpn_state : Text
  pub detail : Text
  pub profile : Option Text
  pub tun_ip : Option Text
  pub remote_ip : Option Text
  pub connected_since : Option ℕ
  pub bytes_in : ℤ
  pub bytes_out : ℤ
  pub pid : Option ℤ
  pub error : Option Text

-- `VpnStatus()`
abbrev pub fresh_status : Status
fresh_status = record {
  state = disconnected;
  openvpn_state = [];
  detail = [];
  profile = none;
  tun_ip = none;
  remote_ip = none;
  connected_since = none;
  bytes_in = pos 0;
  bytes_out = pos 0;
  pid = none;
  error = none;
}

-- `state in _BUSY_STATES`
abbrev pub is_busy : State → Bool
is_busy starting = true
is_busy authenticating = true
is_busy connecting = true
is_busy disconnecting = true
is_busy _ = false

-- `state == CONNECTED`, and so on
abbrev pub is_connected : State → Bool
is_connected connected = true
is_connected _ = false

abbrev pub is_disconnected : State → Bool
is_disconnected disconnected = true
is_disconnected _ = false

abbrev pub is_failed : State → Bool
is_failed failed = true
is_failed _ = false

-- `uptime_seconds` at the time `now`
unfoldable pub uptime_seconds : ℕ → Status → Option ℕ
uptime_seconds now s = elim s.connected_since [
  | none ↦ none
  | some since ↦ some ((now - since) / 1000000)
]

-- What the controller calls of `History`. A law states what happens to the open session.
pub record Recorder (H : Type 0) : Type 0 where
  pub start_session : Option Text → H → H
  pub end_session : Text → Text → H → H
  pub flush : H → H
  pub mark_connected : H → H
  pub append : Text → H → H
  pub record_event : Text → Text → Option Text → H → H
  pub record_sample : ℤ → ℤ → H → H
  pub is_recording : H → Bool
  pub recording-end :
      (outcome reason : Text) (h : H) → is_recording (end_session outcome reason h) ≡ false
  pub recording-flush : (h : H) → is_recording (flush h) ≡ is_recording h
  pub recording-event :
      (kind reason : Text) (profile : Option Text) (h : H)
      → is_recording (record_event kind reason profile h) ≡ is_recording h
  pub recording-append : (line : Text) (h : H) → is_recording (append line h) ≡ is_recording h
  pub recording-sample :
      (bytes_in bytes_out : ℤ) (h : H)
      → is_recording (record_sample bytes_in bytes_out h) ≡ is_recording h

-- The three messages, "up", "down_manual" and "down_severed".
pub data Kind : Type 0 where
  up down_manual down_severed : Kind

-- a call of `notifier.notify`; `when` is the clock that `strftime` prints
pub record Notice : Type 0 where
  pub kind : Kind
  pub tun_ip : Option Text
  pub server_ip : Option Text
  pub uptime : Option ℕ
  pub when : ℕ

-- credentials that the management socket took, by `send_credentials`
pub record Credentials : Type 0 where
  pub realm : Text
  pub username : Text
  pub secret : Text

pub record Controller (H : Type 0) : Type 0 where
  pub status : Status
  -- `_client is not None`
  pub client : Bool
  pub log : List Text
  pub push_reply : Option Text
  -- the events `_auth_prompt` and `_settled`
  pub auth_prompt : Bool
  pub settled : Bool
  pub pending_secret : Option Text
  pub notified_up : Bool
  pub shutdown_requested : Bool
  pub username : Text
  pub attempt : ℕ
  pub history : H
  -- `_notifier is not None`
  pub notifier : Bool
  -- the credentials submitted, the newest first
  pub submitted : List Credentials
  -- the messages handed to the notifier, the newest first
  pub sent : List Notice

-- `OpenVpnController(…)`
abbrev pub fresh_controller : {H : Type 0} → H → Bool → Controller H
fresh_controller h notifier' = record {
  status = fresh_status;
  client = false;
  log = [];
  push_reply = none;
  auth_prompt = false;
  settled = false;
  pending_secret = none;
  notified_up = false;
  shutdown_requested = false;
  username = [];
  attempt = 0;
  history = h;
  notifier = notifier';
  submitted = [];
  sent = [];
}
