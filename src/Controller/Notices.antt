-- ===== src/Controller/Notices.antt =====
-- What the operator is told when a tunnel ends.
use openvpn_connect_web.Controller.State.{
  Controller, Kind, Notice, Recorder, Status, connected, down_severed, uptime_seconds, down_manual,
  failed,
}
use openvpn_connect_web.Controller.Announce.{announce, send, tracked, verdict, close_session}
use openvpn_connect_web.Prelude.{arith, false, true, ℕ, ◌∷◌, ◌≡◌, Bool, Option, [], none}
use openvpn_connect_web.Controller.Events.{on_socket_closed, StateLine, on_state_line, read_state}
use openvpn_connect_web.Prelude.Text.{Text, text, text_eq}
use openvpn_connect_web.Controller.Api.{ask_to_stop, disconnect}

abbrev pub notice_of : Kind → ℕ → Status → Notice
notice_of kind now s = record {
  kind = kind;
  tun_ip = s.tun_ip;
  server_ip = s.remote_ip;
  uptime = uptime_seconds now s;
  when = now;
}

module _ {H : Type 0} ⦃r : Recorder H⦄ where
  -- A connected tunnel whose end nobody asked for sends exactly one message, of the kind
  -- "down_severed", with the addresses and the uptime from before the end.
  pub on_socket_closed_severed :
      (now : ℕ) (c : Controller H)
      → c.status.state ≡ connected
      → c.notified_up ≡ true
      → c.shutdown_requested ≡ false
      → c.notifier ≡ true
      → ((on_socket_closed now c).sent ≡ notice_of down_severed now c.status ∷ c.sent)
        × ((on_socket_closed now c).notified_up ≡ false)
  unfolding on_socket_closed tracked announce verdict send uptime_seconds
  on_socket_closed_severed now c alive told unasked notifies = ground arith

  -- A connected tunnel that `disconnect` stops through the management socket sends nothing when it
  -- is asked, and exactly one message, of the kind "down_manual", when the socket closes; the
  -- message holds the addresses from before the request and the uptime at the end.
  pub on_socket_closed-disconnect :
      (asked now : ℕ) (running : Bool) (helper : Option Text) (c : Controller H)
      → c.status.state ≡ connected
      → c.client ≡ true
      → c.notified_up ≡ true
      → c.notifier ≡ true
      → ((disconnect asked running true none helper c).1.sent ≡ c.sent)
        × ((on_socket_closed now (disconnect asked running true none helper c).1).sent
            ≡ notice_of down_manual now c.status ∷ c.sent)
  unfolding disconnect ask_to_stop on_socket_closed tracked announce verdict send uptime_seconds
  on_socket_closed-disconnect asked now running helper c alive client told notifies =
      (ground arith, ground arith)

  -- A state line that is neither "CONNECTED" nor "EXITING", such as "RECONNECTING", takes a
  -- connected tunnel back to connecting; if its socket then closes, no message is sent and no
  -- "down" event is recorded: the operator is never told that the tunnel went down.
  pub reconnecting_silent :
      (seen now : ℕ) (l : StateLine) (c : Controller H)
      → c.status.state ≡ connected
      → text_eq l.name (text "CONNECTED") ≡ false
      → text_eq l.name (text "EXITING") ≡ false
      → let d = on_socket_closed now (on_state_line seen l c) in
        (d.status.state ≡ failed)
        × (d.sent ≡ c.sent)
        × (d.notified_up ≡ c.notified_up)
        × (d.history ≡ r.end_session (text "failed") [] (r.flush (r.flush c.history)))
  unfolding on_state_line read_state on_socket_closed tracked announce verdict send close_session
  reconnecting_silent seen now l c alive other going = ground arith
