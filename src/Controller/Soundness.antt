-- ===== src/Controller/Soundness.antt =====
-- An invariant of every run of the controller, of its sessions and of the flags that a worker waits
-- for.
mod Invariant
mod Events
mod Api
pub use Invariant.{IsSound}
use Invariant.{IsSound}
use Events.{on_event-IsSound}
use Api.{
  connect-IsSound, disconnect-IsSound, attach-IsSound, ask_to_stop-IsSound, force_stop-IsSound,
  adopt-IsSound, refresh-IsSound, conclude-IsSound, give_up-IsSound, launch-IsSound, offer-IsSound,
  prompted-IsSound, finish-IsSound,
}
use openvpn_connect_web.Prelude.{Bool, false, ◌≡◌}
use openvpn_connect_web.Controller.State.{Controller, Recorder, fresh_controller}
use openvpn_connect_web.Controller.Run.{
  Run, Step, asks, gives_up, names, opens, forces, adopts, refreshes, concludes, attaches, connects,
  disconnects, event, finishes, here, launches, next, offers, resumes, Progress, progress,
}

module _ {H : Type 0} ⦃r : Recorder H⦄ where
  Progress-IsSound : {c d : Controller H} → Progress c d → IsSound c → IsSound d
  Progress-IsSound {c} (event now refusal kind payload) s =
      on_event-IsSound now refusal kind payload c s
  Progress-IsSound {c} (disconnects now running is_open reply helper) s =
      disconnect-IsSound now running is_open reply helper c s
  Progress-IsSound {c} (asks now) s = ask_to_stop-IsSound now c s
  Progress-IsSound {c} (forces now helper) s = force_stop-IsSound now helper c s
  Progress-IsSound {c} adopts s = adopt-IsSound c s
  Progress-IsSound {c} (refreshes now lines) s = refresh-IsSound now lines c s
  Progress-IsSound {c} concludes s = conclude-IsSound c s
  Progress-IsSound {c} (names username) s = record {
    resting = s.resting;
    told = s.told;
    woken = s.woken;
    reported = s.reported;
  }
  Progress-IsSound {c} opens s = record {
    resting = s.resting;
    told = s.told;
    woken = s.woken;
    reported = s.reported;
  }
  Progress-IsSound {c} (gives_up now mine message) s = give_up-IsSound now mine message c s
  Progress-IsSound {c} (launches now mine username problem) s =
      launch-IsSound now mine username problem c s
  Progress-IsSound {c} (offers secret) s = offer-IsSound secret c s
  Progress-IsSound {c} (resumes now mine timeout) s = prompted-IsSound now mine timeout c s
  Progress-IsSound {c} (finishes now mine timeout) s = finish-IsSound now mine timeout c s

  Step-IsSound : {c d : Controller H} → Step c d → IsSound c → IsSound d
  Step-IsSound (progress p) s = Progress-IsSound p s
  Step-IsSound {c} (connects guard resolve running otp) s =
      connect-IsSound guard resolve running otp c s
  Step-IsSound {c} (attaches now is_open exists opened lines) s =
      attach-IsSound now is_open exists opened lines c s

  -- From a new controller whose history records nothing, in any order of events, calls and worker
  -- steps, old workers included: while the tunnel is down no session is open; a connected or
  -- failed attempt has set `_settled`, and a failed one, or one with an error, `_auth_prompt`.
  pub Run-IsSound :
      (h : H) (notifier : Bool) (c : Controller H)
      → r.is_recording h ≡ false
      → Run (fresh_controller h notifier) c
      → IsSound c
  Run-IsSound h notifier _ idle here = record {
    resting = λ _. idle;
    told = λ d. cc d;
    woken = λ d. cc d;
    reported = λ d. cc d;
  }
  Run-IsSound h notifier _ idle (next run step) =
      Step-IsSound step (Run-IsSound h notifier _ idle run)
