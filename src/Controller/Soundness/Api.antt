-- ===== src/Controller/Soundness/Api.antt =====
-- Every call of a route and every step of a worker keeps the invariant.
use openvpn_connect_web.Controller.Api.{
  connect, disconnect, attach, adopt, conclude, Resolved, Result, begin, check_code, check_idle,
  err, first_error, ok, refresh, ask_to_stop, force_stop,
}
use openvpn_connect_web.Controller.State.{
  Controller, Recorder, State, is_connected, is_busy, is_disconnected, authenticating, connecting,
}
use openvpn_connect_web.Prelude.Text.{Text, contains, text, strip}
use openvpn_connect_web.Prelude.{
  arith, refl, true, ℕ, ◌≡◌, Bool, List, Option, Option-cases, [], inl, inr, none, some, ◌&&◌, ◌∷◌,
  ◌==◌, is_some, not, ◌||◌,
}
use openvpn_connect_web.Controller.Announce.{fail}
use openvpn_connect_web.Controller.Worker.{
  abort_daemon, advance, forget, give_up, superseded, Stage, finish, launch, offer, prompted,
  resume,
}
use openvpn_connect_web.Controller.Soundness.Invariant.{
  IsSound, fail-IsSound, if-IsSound, if-IsSound_snd, relabel-IsSound, tracked-IsSound,
}
use openvpn_connect_web.Controller.Soundness.Events.{on_state-IsSound}

module _ {H : Type 0} ⦃r : Recorder H⦄ where
  pub begin-IsSound : (resolved : Resolved) (c : Controller H) → IsSound (begin resolved c)
  unfolding begin
  begin-IsSound resolved c = record {
    resting = λ d. cc d;
    told = λ d. cc d;
    woken = λ d. cc d;
    reported = λ d. cc d;
  }

  pub connect-IsSound :
      (guard : Option Text) (resolve : Result Resolved) (running : Bool) (otp : Text)
      (c : Controller H)
      → IsSound c
      → IsSound (connect guard resolve running otp c).1
  unfolding connect
  connect-IsSound (some refusal) resolve running otp c s = s
  connect-IsSound none (err why) running otp c s = s
  connect-IsSound none (ok resolved) running otp c s =
      let checks =
        first_error (check_code resolved.requires_mfa (strip otp))
          (check_idle running c.status.state) in
      elim (Option-cases checks) [
        | inl passed ↦ rw (passed, connect) (begin-IsSound resolved c)
        | inr (why, refused) ↦ rw (refused, connect) s
      ]

  pub ask_to_stop-IsSound : (now : ℕ) (c : Controller H) → IsSound c → IsSound (ask_to_stop now c)
  unfolding ask_to_stop
  ask_to_stop-IsSound now c s =
      relabel-IsSound _ _ true _
        (tracked-IsSound now _ c s refl (λ d. cc d) (λ d. cc d) (λ d. cc d))

  pub force_stop-IsSound :
      (now : ℕ) (helper : Option Text) (c : Controller H)
      → IsSound c
      → IsSound (force_stop now helper c).1
  unfolding force_stop
  force_stop-IsSound now none c s =
      tracked-IsSound now _ c s refl (λ d. cc d) (λ d. cc d) (λ d. cc d)
  force_stop-IsSound now (some why) c s = s

  pub disconnect-IsSound :
      (now : ℕ) (running is_open : Bool) (reply helper : Option Text) (c : Controller H)
      → IsSound c
      → IsSound (disconnect now running is_open reply helper c).1
  unfolding disconnect
  disconnect-IsSound now running is_open reply helper c s =
      let asked = ask_to_stop-IsSound now c s in
      if-IsSound_snd (is_disconnected c.status.state && not running) _ _ s (
        if-IsSound_snd (c.client && is_open && not (is_some reply)) _ _ asked
          (force_stop-IsSound now helper (ask_to_stop now c) asked))

  pub refresh-IsSound :
      (now : ℕ) (lines : List Text) (c : Controller H) → IsSound c → IsSound (refresh now lines c)
  unfolding refresh
  refresh-IsSound now [] c s = s
  refresh-IsSound now (line ∷ lines) c s =
      refresh-IsSound now lines _
        (if-IsSound (contains (text ",") line) (on_state-IsSound now line c s) s)

  pub adopt-IsSound : (c : Controller H) → IsSound c → IsSound (adopt c)
  unfolding adopt
  adopt-IsSound c s = record {
    resting = λ d. cc d;
    told = λ d. cc d;
    woken = λ d. cc d;
    reported = s.reported;
  }

  pub conclude-IsSound : (c : Controller H) → IsSound c → IsSound (conclude c)
  unfolding conclude
  conclude-IsSound c s = relabel-IsSound _ _ _ c s

  pub attach-IsSound :
      (now : ℕ) (is_open exists opened : Bool) (lines : List Text) (c : Controller H)
      → IsSound c
      → IsSound (attach now is_open exists opened lines c)
  unfolding attach
  attach-IsSound now is_open exists opened lines c s =
      if-IsSound ((c.client && is_open) || not exists || not opened) s
        (conclude-IsSound _ (refresh-IsSound now lines _ (adopt-IsSound c s)))

  pub forget-IsSound : (mine : ℕ) (c : Controller H) → IsSound c → IsSound (forget mine c)
  unfolding forget
  forget-IsSound mine c s = if-IsSound (c.attempt == mine) (relabel-IsSound _ _ _ c s) s

  pub give_up-IsSound :
      (now mine : ℕ) (message : Text) (c : Controller H)
      → IsSound c
      → IsSound (give_up now mine message c)
  unfolding give_up abort_daemon
  give_up-IsSound now mine message c s =
      let f = fail-IsSound now message c s in
      forget-IsSound mine _ (
        if-IsSound (superseded mine c) s (
          if-IsSound (is_connected (fail now message c).status.state) f
            (relabel-IsSound _ _ _ _ f)))

  pub advance-IsSound :
      (state : State) (detail : Text) (c : Controller H)
      → is_busy state ≡ true
      → IsSound c
      → IsSound (advance state detail c)
  unfolding advance
  advance-IsSound state detail c busy s =
      let moved : IsSound
          (record c { status = record (c.status) { state = state; detail = detail } }) =
        record {
          resting = ground arith;
          told = ground arith;
          woken = ground arith;
          reported = s.reported;
        } in
      if-IsSound _ s moved

  pub launch-IsSound :
      (now mine : ℕ) (username : Text) (problem : Option Text) (c : Controller H)
      → IsSound c
      → IsSound (launch now mine username problem c).1
  unfolding launch
  launch-IsSound now mine username none c s = record {
    resting = s.resting;
    told = s.told;
    woken = s.woken;
    reported = s.reported;
  }
  launch-IsSound now mine username (some problem) c s =
      give_up-IsSound now mine problem _
        (record { resting = s.resting; told = s.told; woken = s.woken; reported = s.reported })

  pub offer-IsSound : (secret : Text) (c : Controller H) → IsSound c → IsSound (offer secret c).1
  unfolding offer
  offer-IsSound secret c s = relabel-IsSound _ _ _ _ (advance-IsSound authenticating _ c refl s)

  resume-IsSound :
      (now mine : ℕ) (raised : Option Text) (onward : Stage × Controller H) (c : Controller H)
      → IsSound c
      → IsSound onward.1
      → IsSound (resume now mine raised onward c).1
  unfolding resume
  resume-IsSound now mine none onward c s t = t
  resume-IsSound now mine (some message) onward c s t = give_up-IsSound now mine message c s

  pub prompted-IsSound :
      (now mine : ℕ) (timeout : Bool) (c : Controller H)
      → IsSound c
      → IsSound (prompted now mine timeout c).1
  unfolding prompted
  prompted-IsSound now mine timeout c s =
      resume-IsSound now mine _ _ c s (advance-IsSound connecting _ c refl s)

  pub finish-IsSound :
      (now mine : ℕ) (timeout : Bool) (c : Controller H)
      → IsSound c
      → IsSound (finish now mine timeout c).1
  unfolding finish
  finish-IsSound now mine timeout c s = resume-IsSound now mine _ _ c s (forget-IsSound mine c s)
