-- ===== src/Controller/Api.antt =====
-- What the routes call: `connect`, `disconnect`, `attach` and `snapshot`. What these ask of the
-- system comes in as arguments: whether the pid file names a live process, what the management
-- socket answers and what the root helper answers (`none` where it succeeds, else its error).
use openvpn_connect_web.Prelude.{
  ℕ, Bool, true, false, not, ◌&&◌, ◌||◌, Option, none, some, List, [], ◌∷◌, ◌+◌, leb, if◌then◌else◌,
  is_some, length,
}
use openvpn_connect_web.Prelude.Digits.{is_numeric}
use openvpn_connect_web.Prelude.Text.{Text, text, strip, nonempty, contains}
use openvpn_connect_web.Prelude.Number.{ℤ}
use openvpn_connect_web.Controller.State.{
  State, starting, connecting, disconnecting, unmanaged, Status, fresh_status, is_connected,
  is_disconnected, is_busy, Recorder, Controller,
}
use openvpn_connect_web.Controller.Announce.{tracked}
use openvpn_connect_web.Controller.Events.{on_state}

-- `Resolved`, as far as the controller reads it
pub record Resolved : Type 0 where
  pub name : Text
  pub username : Text
  pub password : Text
  pub requires_mfa : Bool

-- a value, or the text of the `VpnError`
pub data Result {ℓ} (A : Type ℓ) : Type ℓ where
  ok : A → Result A
  err : Text → Result A

-- the checks of the code against what the profile asks for; `none` where they pass
unfoldable pub check_code : Bool → Text → Option Text
check_code true otp =
    if not (nonempty otp)
    then some (text "An authenticator code is required.")
    else if not (is_numeric otp) || not (leb 4 (length otp) && leb (length otp) 12)
    then some (text "The authenticator code should be 4-12 digits.")
    else none
check_code false otp =
    if nonempty otp then some (text "This connection does not use an authenticator code.") else none

-- the checks under the lock, on the state and the process
unfoldable pub check_idle : Bool → State → Option Text
check_idle running s =
    if is_busy s
    then some (text "A connection attempt is already in progress.")
    else if is_connected s || running
    then some (text "OpenVPN is already running. Disconnect first.")
    else none

-- `a or b`, on two checks of which the first that fails speaks
abbrev pub first_error : Option Text → Option Text → Option Text
first_error none e = e
first_error (some e) _ = some e

module _ {H : Type 0} ⦃r : Recorder H⦄ where
  -- the state that `connect` leaves for the worker
  unfoldable pub begin : Resolved → Controller H → Controller H
  begin resolved c = record c {
    status = record (fresh_status) {
      state = starting;
      profile = some resolved.name;
      detail = text "Launching OpenVPN...";
    };
    log = [];
    push_reply = none;
    history = r.start_session (some resolved.name) c.history;
    auth_prompt = false;
    settled = false;
    shutdown_requested = false;
    notified_up = false;
    attempt = c.attempt + 1;
  }

  -- `guard` is the refusal of the firewall, `resolve` what the connections answer
  unfoldable pub connect :
      Option Text → Result Resolved → Bool → Text → Controller H → Result Resolved × Controller H
  unfolding strip
  connect (some refusal) resolve running otp c = (err refusal, c)
  connect none (err why) running otp c = (err why, c)
  connect none (ok resolved) running otp c =
      elim (first_error (check_code resolved.requires_mfa (strip otp))
        (check_idle running c.status.state)) [
          | some why ↦ (err why, c)
          | none ↦ (ok resolved, begin resolved c)
        ]

  -- the first half of `disconnect`: announce the stop, and say that it was asked for
  unfoldable pub ask_to_stop : ℕ → Controller H → Controller H
  ask_to_stop now c =
      let stopping = λ (c : Controller H). record c {
        status = record (c.status) {
          state = disconnecting;
          detail = text "Stopping OpenVPN...";
          error = none;
        };
      } in
      record (tracked now stopping c) { shutdown_requested = true }

  -- the second half, where the socket could not be asked: `helper` is the root helper's answer
  unfoldable pub force_stop : ℕ → Option Text → Controller H → Result (Unit {0}) × Controller H
  force_stop now (some why) c = (err why, c)
  force_stop now none c =
      let stopped = λ (c : Controller H). record c {
        status = record (fresh_status) { detail = text "OpenVPN stopped." };
      } in
      (ok tt, tracked now stopped c)

  -- the whole call, where nothing comes in while it waits; `reply` is the socket's refusal of the
  -- signal, `helper` the root helper's of "stop"
  unfoldable pub disconnect :
      ℕ → Bool → Bool → Option Text → Option Text → Controller H → Result (Unit {0}) × Controller H
  disconnect now running is_open reply helper c =
      if is_disconnected c.status.state && not running
      then (err (text "OpenVPN is not running."), c)
      else if c.client && is_open && not (is_some reply)
      then (ok tt, ask_to_stop now c)
      else force_stop now helper (ask_to_stop now c)

  -- the lines of `_refresh_state` that hold a comma
  unfoldable pub refresh : ℕ → List Text → Controller H → Controller H
  unfolding contains
  refresh now [] c = c
  refresh now (line ∷ lines) c =
      refresh now lines (if contains (text ",") line then on_state now line c else c)

  -- the socket is taken over: as if connected before, so that no message is sent for it
  unfoldable pub adopt : Controller H → Controller H
  adopt c = record c {
    client = true;
    history = r.start_session none c.history;
    status = record (c.status) {
      state = connecting;
      detail = text "Re-attached to a running OpenVPN process.";
    };
    notified_up = true;
  }

  -- the end of `attach`: whether the tunnel turned out to be up
  unfoldable pub conclude : Controller H → Controller H
  conclude c = record c { notified_up = is_connected c.status.state }

  -- the whole call, likewise; `exists` is whether the socket file is there, `opened` whether it could
  -- be opened, `lines` what it answers to "state" (nothing where that fails)
  unfoldable pub attach : ℕ → Bool → Bool → Bool → List Text → Controller H → Controller H
  attach now is_open exists opened lines c =
      if (c.client && is_open) || not exists || not opened
      then c
      else conclude (refresh now lines (adopt c))

abbrev pub is_unmanaged : State → Bool
is_unmanaged unmanaged = true
is_unmanaged _ = false

-- the three corrections that `snapshot` makes to its copy of the status
abbrev pub adopted : Option ℤ → Status → Status
adopted none s = s
adopted (some p) s =
    if is_disconnected s.state
    then record s {
      state = unmanaged;
      detail =
          text
            "An OpenVPN process is already running that this panel did not start. Disconnect to take control.";
    }
    else s

abbrev pub addressed : Option Text → Status → Status
addressed address s =
    if (is_connected s.state || is_unmanaged s.state) && not (is_some s.tun_ip)
    then record s { tun_ip = address }
    else s

abbrev pub described : Status → Status
described s =
    if is_disconnected s.state && not (nonempty s.detail)
    then record s { detail = text "No tunnel running." }
    else s

-- `pid` is the live process of the pid file, `address` what `ip` says of the device; the log
-- lines of the snapshot are `c.log`
unfoldable pub snapshot : {H : Type 0} → Option ℤ → Option Text → Controller H → Status
snapshot pid address c =
    described (addressed address (adopted pid (record (c.status) { pid = pid })))
