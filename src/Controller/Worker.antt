-- ===== src/Controller/Worker.antt =====
-- The thread that carries an attempt through, `_connect_worker`, cut at the points where it
-- waits; between them other threads run. `mine` is the number that the worker was started with.
use openvpn_connect_web.Prelude.{
  ℕ, Bool, true, not, ◌||◌, Option, none, some, ◌++◌, if◌then◌else◌, ◌==◌,
}
use openvpn_connect_web.Prelude.Text.{Text, text, truthy}
use openvpn_connect_web.Controller.State.{
  State, authenticating, connecting, is_connected, is_disconnected, is_failed, Recorder, Controller,
}
use openvpn_connect_web.Controller.Announce.{fail}
use openvpn_connect_web.Controller.Events.{error_text}
use openvpn_connect_web.Controller.Api.{Resolved}

-- how far a worker has come
pub data Stage : Type 0 where
  launching ready awaiting_prompt awaiting_tunnel done : Stage

module _ (b64 : Text → Text) where
  -- `b64` is base64.b64encode on the text's bytes
  unfoldable pub secret_of : Resolved → Text → Text
  secret_of resolved otp =
      if resolved.requires_mfa
      then text "SCRV1:" ++ b64 resolved.password ++ text ":" ++ b64 otp
      else resolved.password

module _ {H : Type 0} where
  unfoldable pub superseded : ℕ → Controller H → Bool
  superseded mine c = not (c.attempt == mine)

  -- `finally`: the secret goes only where the attempt is still this worker's
  unfoldable pub forget : ℕ → Controller H → Controller H
  forget mine c = if c.attempt == mine then record c { pending_secret = none } else c

  unfoldable pub advance : State → Text → Controller H → Controller H
  advance state detail c =
      if is_connected c.status.state || is_failed c.status.state || is_disconnected c.status.state
      then c
      else record c { status = record (c.status) { state = state; detail = detail } }

  -- the error of `_raise_if_failed`, if it raises
  unfoldable pub raise_if_failed : Controller H → Option Text
  raise_if_failed c =
      if is_failed c.status.state
      then some (
          if truthy c.status.error
          then error_text c.status.error
          else text "The connection attempt failed.")
      else none

  -- `_abort_daemon`: what it asks of the socket and the helper changes nothing here
  unfoldable pub abort_daemon : Controller H → Controller H
  abort_daemon c = if is_connected c.status.state then c else record c { shutdown_requested = true }

module _ {H : Type 0} ⦃r : Recorder H⦄ where
  -- the handlers of `except`, and `finally`
  unfoldable pub give_up : ℕ → ℕ → Text → Controller H → Controller H
  give_up now mine message c =
      forget mine (if superseded mine c then c else abort_daemon (fail now message c))

  -- up to `_open_client`, where nothing comes in while it waits: `problem` is the error of the helper, of the wait for the socket or of
  -- opening it
  unfoldable pub launch : ℕ → ℕ → Text → Option Text → Controller H → Stage × Controller H
  launch now mine username (some problem) c =
      (done, give_up now mine problem (record c { username = username }))
  launch now mine username none c = (ready, record c { username = username; client = true })

  -- from there to the wait for the prompt
  unfoldable pub offer : Text → Controller H → Stage × Controller H
  offer secret c = (
    awaiting_prompt,
    record (advance authenticating (text "Waiting for the credential prompt...") c) {
      pending_secret = some secret;
    },
  )

  -- `raised` is the error that the step raises, if any; else the worker goes on
  unfoldable pub resume :
      ℕ → ℕ → Option Text → Stage × Controller H → Controller H → Stage × Controller H
  resume now mine none next c = next
  resume now mine (some message) next c = (done, give_up now mine message c)

  -- the wait for the prompt is over: `timeout` says that it was in vain
  unfoldable pub prompted : ℕ → ℕ → Bool → Controller H → Stage × Controller H
  prompted now mine timeout c =
      resume now mine
        (if timeout
          then some (text "OpenVPN never asked for credentials -- check the log below.")
          else raise_if_failed c)
        (
          awaiting_tunnel,
          advance connecting (text "Credentials submitted, negotiating tunnel...") c,
        )
        c

  -- the wait for the tunnel is over
  unfoldable pub finish : ℕ → ℕ → Bool → Controller H → Stage × Controller H
  finish now mine timeout c =
      resume now mine
        (if timeout
          then some (text "Timed out waiting for the tunnel to come up.")
          else raise_if_failed c)
        (done, forget mine c) c
