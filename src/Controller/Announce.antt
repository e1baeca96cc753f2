-- ===== src/Controller/Announce.antt =====
-- `_announce`, `_tracked` and `_fail`: what a transition of the state records and sends.
use openvpn_connect_web.Prelude.{
  ℕ, Bool, true, false, not, ◌&&◌, Option, none, some, [], ◌∷◌, ◌==◌, if◌then◌else◌, or_else,
}
use openvpn_connect_web.Prelude.Text.{Text, text}
use openvpn_connect_web.Controller.State.{
  State, disconnected, starting, authenticating, connecting, connected, disconnecting, failed,
  unmanaged, is_connected, is_failed, uptime_seconds, Recorder, Kind, up, down_manual, down_severed,
  Notice, Controller,
}

-- `before == after`
abbrev pub number : State → ℕ
number disconnected = 0
number starting = 1
number authenticating = 2
number connecting = 3
number connected = 4
number disconnecting = 5
number failed = 6
number unmanaged = 7

abbrev pub same_state : State → State → Bool
same_state a b = number a == number b

-- `before in (CONNECTED, DISCONNECTING)`
abbrev pub was_up : State → Bool
was_up connected = true
was_up disconnecting = true
was_up _ = false

-- `after in (DISCONNECTED, FAILED, UNMANAGED)`
abbrev pub is_down : State → Bool
is_down disconnected = true
is_down failed = true
is_down unmanaged = true
is_down _ = false

abbrev pub event_of : Kind → Text
event_of up = text "UP"
event_of _ = text "DOWN"

abbrev pub reason_of : Option Kind → Text
reason_of (some down_manual) = text "operator-requested"
reason_of (some down_severed) = text "link-lost"
reason_of _ = []

module _ {H : Type 0} where
  -- the first half of `_announce`: which message, if any, and the two flags
  unfoldable pub verdict : State → State → Controller H → Controller H × Option Kind
  verdict before after c =
      if is_connected after && not c.notified_up
      then (record c { notified_up = true }, some up)
      else if was_up before && is_down after && c.notified_up
      then (
        record c { notified_up = false; shutdown_requested = false },
        some (if c.shutdown_requested then down_manual else down_severed),
      )
      else (c, none)

module _ {H : Type 0} ⦃r : Recorder H⦄ where
  -- flush, then close the session or mark it connected
  unfoldable pub close_session : State → Text → H → H
  close_session after reason h =
      let flushed = r.flush h in
      if is_connected after
      then r.mark_connected flushed
      else if is_down after
      then r.end_session (if is_failed after then text "failed" else text "disconnected") reason
          flushed
      else flushed

  -- `_write_event`, and the call of the notifier
  unfoldable pub send :
      ℕ → Option Kind → Option Text → Option Text → Option ℕ → Controller H → Controller H
  send now none tun_ip remote_ip uptime c = c
  send now (some kind) tun_ip remote_ip uptime c =
      let history' =
        r.record_event (event_of kind) (reason_of (some kind)) c.status.profile c.history in
      let notice : Notice = record {
        kind = kind;
        tun_ip = tun_ip;
        server_ip = remote_ip;
        uptime = uptime;
        when = now;
      } in
      record c { history = history'; sent = if c.notifier then notice ∷ c.sent else c.sent }

  unfoldable pub announce :
      ℕ → State → State → Option Text → Option Text → Option ℕ → Controller H → Controller H
  announce now before after tun_ip remote_ip uptime c =
      if same_state before after
      then c
      else let (c', kind) = verdict before after c in
        send now kind tun_ip remote_ip uptime
          (record c' { history = close_session after (reason_of kind) c'.history })

  -- `with self._tracked(): change`, by one thread alone: the change is made under the lock, the
  -- announcement after it has been released
  unfoldable pub tracked : ℕ → (Controller H → Controller H) → Controller H → Controller H
  tracked now change c =
      let c' = change c in
      announce now c.status.state c'.status.state (or_else c'.status.tun_ip c.status.tun_ip)
        c'.status.remote_ip (or_else (uptime_seconds now c'.status) (uptime_seconds now c.status))
        c'

  unfoldable pub fail : ℕ → Text → Controller H → Controller H
  fail now message c =
      let failing = λ (c : Controller H). record c {
        status = record (c.status) {
          state = failed;
          error = some message;
          detail = message;
          connected_since = none;
        };
      } in
      record (tracked now failing c) { settled = true; auth_prompt = true }
