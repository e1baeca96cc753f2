-- ===== src/Controller/Tests.antt =====
-- The controller over a history that only says whether a session is open: tests and examples.
use openvpn_connect_web.Prelude.{
  Bool, Option, [], false, map, none, refl, some, true, ◌↔◌, ◌∷◌, ◌≡◌, ◌≢◌,
}
use openvpn_connect_web.Controller.State.{
  Controller, Credentials, Notice, Recorder, connected, disconnected, down_manual, down_severed,
  failed, fresh_controller, fresh_status, up, uptime_seconds,
}
use openvpn_connect_web.Controller.Attempts.{IsCode, connect_iff}
use openvpn_connect_web.Controller.Api.{
  Resolved, ask_to_stop, begin, check_code, check_idle, connect, disconnect, ok,
}
use openvpn_connect_web.Controller.Soundness.{Run-IsSound, IsSound}
use openvpn_connect_web.Controller.Events.{
  StateLine, answer, on_event, on_password, on_socket_closed, on_state, on_state_line, read_state,
  realm_of,
}
use openvpn_connect_web.Prelude.Text.{Text, strip, text, text_eq}
use openvpn_connect_web.Controller.Worker.{
  abort_daemon, advance, finish, forget, give_up, launch, offer, prompted, raise_if_failed, resume,
  superseded,
}
use openvpn_connect_web.Controller.Announce.{announce, close_session, fail, send, tracked, verdict}
use openvpn_connect_web.Controller.Run.{connects, event, here, next, progress}
use openvpn_connect_web.Controller.Notices.{
  notice_of, on_socket_closed-disconnect, on_socket_closed_severed, reconnecting_silent,
}
use openvpn_connect_web.Prelude.Digits.{is_numeric}

instance abbrev open_session : Recorder Bool
open_session = record {
  start_session = λ _ _. true;
  end_session = λ _ _ _. false;
  flush = λ h. h;
  mark_connected = λ h. h;
  append = λ _ h. h;
  record_event = λ _ _ _ h. h;
  record_sample = λ _ _ h. h;
  is_recording = λ h. h;
  recording-end = λ _ _ _. refl;
  recording-flush = λ _. refl;
  recording-event = λ _ _ _ _. refl;
  recording-append = λ _ _. refl;
  recording-sample = λ _ _ _. refl;
}

abbrev work : Resolved
work = record {
  name = text "work";
  username = text "ann";
  password = text "pw";
  requires_mfa = true;
}

abbrev new : Controller Bool
new = fresh_controller false true

abbrev begun_once : Controller Bool
begun_once = (connect none (ok work) false (text " 123456 ") new).1

controller : Unit {0}
unfolding connect begin check_code is_numeric check_idle on_event on_state on_state_line read_state
    tracked announce verdict close_session send fail on_socket_closed disconnect ask_to_stop
    uptime_seconds launch offer advance answer on_password realm_of prompted resume raise_if_failed
    finish forget give_up superseded abort_daemon
controller = tt

-- a whole attempt: the code, the prompt, the answer, the tunnel
abbrev prompted_once : Controller Bool
prompted_once =
    on_event 0 none (text "PASSWORD") (text "Need 'Auth' username/password")
      (offer (text "SCRV1:x:y") (launch 0 1 (text "ann") none begun_once).1).1

abbrev up_once : Controller Bool
up_once =
    on_event 1000000 none (text "STATE") (text "1,CONNECTED,SUCCESS,10.0.0.2,1.2.3.4,,")
      (prompted 0 1 false prompted_once).1

attempt_succeeds :
    (up_once.status.state ≡ connected)
    × (up_once.pending_secret ≡ none)
    × (up_once.status.tun_ip ≡ some (text "10.0.0.2"))
    × (map (λ (n : Notice). n.kind) up_once.sent ≡ up ∷ [])
    × (map (λ (x : Credentials). x.realm) up_once.submitted ≡ text "Auth" ∷ [])
unfolding controller
attempt_succeeds = (refl, refl, refl, refl, refl)

Run-IsSound_example : IsSound (on_event 5 none (text "DISCONNECTED") [] begun_once)
Run-IsSound_example = Run-IsSound false true _ refl (
    next (next here (connects none (ok work) false (text " 123456 ")))
      (progress (event 5 none (text "DISCONNECTED") [])))

abbrev established : Controller Bool
established = record new {
  status = record (fresh_status) {
    state = connected;
    tun_ip = some (text "10.0.0.2");
    connected_since = some 1000000;
  };
  client = true;
  notified_up = true;
  history = true;
}

on_socket_closed_severed_example :
    ((on_socket_closed 9000000 established).sent
      ≡ notice_of down_severed 9000000 established.status ∷ [])
    × ((on_socket_closed 9000000 established).notified_up ≡ false)
on_socket_closed_severed_example = on_socket_closed_severed 9000000 established refl refl refl refl

on_socket_closed-disconnect_example :
    ((disconnect 2000000 true true none none established).1.sent ≡ [])
    × ((on_socket_closed 9000000 (disconnect 2000000 true true none none established).1).sent
        ≡ notice_of down_manual 9000000 established.status ∷ [])
on_socket_closed-disconnect_example =
    on_socket_closed-disconnect 2000000 9000000 true none established refl refl refl refl

abbrev reconnecting : StateLine
reconnecting = record {
  name = text "RECONNECTING";
  detail = text "ping-restart";
  tun_ip = none;
  remote_ip = none;
}

reconnecting_silent_example :
    let d = on_socket_closed 9000000 (on_state_line 8000000 reconnecting established) in
    (d.status.state ≡ failed) × (d.sent ≡ []) × (d.notified_up ≡ true) × (d.history ≡ false)
reconnecting_silent_example =
    reconnecting_silent 8000000 9000000 reconnecting established refl (unfold text_eq in refl)
      (unfold text_eq in refl)

connect_iff_example :
    (connect none (ok work) false (text "123456") new ≡ (ok work, begin work new)) ↔ (
      ◌≡◌ {A = Option Text} none none
      × (ok work ≡ ok work)
      × IsCode true (strip (text "123456"))
      × (◌≡◌ {A = Bool} false false)
      × (disconnected ≢ connected)
      × (◌≡◌ {A = Bool} false false))
connect_iff_example = connect_iff none (ok work) false (text "123456") new work
