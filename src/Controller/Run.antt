-- ===== src/Controller/Run.antt =====
-- Everything that can happen to the controller, in any order: management events, calls of the
-- routes and the steps of connect workers, also of workers that a later attempt has replaced.
-- What the system answers is chosen freely at each step. `disconnect`, `attach` and the launch of a
-- worker wait for the socket and the helper without the lock, so each is a step as a whole and also
-- in parts, between which anything may happen. A change of the state and its announcement are one
-- step, though `_tracked` announces after it has released the lock: what two threads do while both
-- announce is not a run here.

use openvpn_connect_web.Controller.Api
use openvpn_connect_web.Controller.Worker
use openvpn_connect_web.Controller.State.{Controller, Recorder}
use openvpn_connect_web.Prelude.{true, Bool, List, Option, ℕ}
use openvpn_connect_web.Controller.Api.{Resolved, Result}
use openvpn_connect_web.Prelude.Text.{Text}
use openvpn_connect_web.Controller.Events.{on_event}

module _ {H : Type 0} ⦃r : Recorder H⦄ where
  -- what can happen to a tunnel between two attempts
  pub data Progress (c : Controller H) : Controller H → Type 0 where
    event :
        (now : ℕ) (refusal : Option Text) (kind payload : Text)
        → Progress c (on_event now refusal kind payload c)
    disconnects :
        (now : ℕ) (running is_open : Bool) (reply helper : Option Text)
        → Progress c (Api.disconnect now running is_open reply helper c).1
    asks : (now : ℕ) → Progress c (Api.ask_to_stop now c)
    forces : (now : ℕ) (helper : Option Text) → Progress c (Api.force_stop now helper c).1
    names : (username : Text) → Progress c (record c { username = username })
    opens : Progress c (record c { client = true })
    gives_up : (now mine : ℕ) (message : Text) → Progress c (Worker.give_up now mine message c)
    launches :
        (now mine : ℕ) (username : Text) (problem : Option Text)
        → Progress c (Worker.launch now mine username problem c).1
    offers : (secret : Text) → Progress c (Worker.offer secret c).1
    resumes : (now mine : ℕ) (timeout : Bool) → Progress c (Worker.prompted now mine timeout c).1
    adopts : Progress c (Api.adopt c)
    refreshes : (now : ℕ) (lines : List Text) → Progress c (Api.refresh now lines c)
    concludes : Progress c (Api.conclude c)
    finishes : (now mine : ℕ) (timeout : Bool) → Progress c (Worker.finish now mine timeout c).1

  pub data Step (c : Controller H) : Controller H → Type 0 where
    progress : {d : Controller H} → Progress c d → Step c d
    connects :
        (guard : Option Text) (resolve : Result Resolved) (running : Bool) (otp : Text)
        → Step c (Api.connect guard resolve running otp c).1
    attaches :
        (now : ℕ) (is_open exists opened : Bool) (lines : List Text)
        → Step c (Api.attach now is_open exists opened lines c)

  pub data Run (c : Controller H) : Controller H → Type 0 where
    here : Run c c
    next : {d e : Controller H} → Run c d → Step d e → Run c e
