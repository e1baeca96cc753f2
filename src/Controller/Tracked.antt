-- ===== src/Controller/Tracked.antt =====
-- What `_tracked` adds to the change that it holds the lock for: messages and the history, and
-- nothing of the state.
use openvpn_connect_web.Prelude.{
  ℕ, ◌≡◌, arith, Bool-cases, Option, false, inl, inr, none, refl, some, true, ◌∙◌,
}
use openvpn_connect_web.Controller.State.{
  Recorder, Controller, Kind, State, disconnected, failed, unmanaged,
}
use openvpn_connect_web.Controller.Announce.{
  verdict, send, announce, tracked, close_session, is_down, same_state,
}
use openvpn_connect_web.Prelude.Text.{Text}

-- two controllers that differ at most in what `announce` touches
pub record IsAlike {H : Type 0} (c d : Controller H) : Type 0 where
  pub status : c.status ≡ d.status
  pub client : c.client ≡ d.client
  pub log : c.log ≡ d.log
  pub push_reply : c.push_reply ≡ d.push_reply
  pub auth_prompt : c.auth_prompt ≡ d.auth_prompt
  pub settled : c.settled ≡ d.settled
  pub pending_secret : c.pending_secret ≡ d.pending_secret
  pub username : c.username ≡ d.username
  pub attempt : c.attempt ≡ d.attempt
  pub submitted : c.submitted ≡ d.submitted
  pub notifier : c.notifier ≡ d.notifier

module _ {H : Type 0} ⦃r : Recorder H⦄ where
  pub tracked-IsAlike :
      (now : ℕ) (change : Controller H → Controller H) (c : Controller H)
      → IsAlike (tracked now change c) (change c)
  unfolding announce verdict send tracked
  tracked-IsAlike now change c = record {
    status = ground arith;
    client = ground arith;
    log = ground arith;
    push_reply = ground arith;
    auth_prompt = ground arith;
    settled = ground arith;
    pending_secret = ground arith;
    username = ground arith;
    attempt = ground arith;
    submitted = ground arith;
    notifier = ground arith;
  }

  close_session-down :
      (after : State) (reason : Text) (h : H)
      → is_down after ≡ true
      → r.is_recording (close_session after reason h) ≡ false
  unfolding close_session
  close_session-down disconnected reason h d = r.recording-end _ _ _
  close_session-down failed reason h d = r.recording-end _ _ _
  close_session-down unmanaged reason h d = r.recording-end _ _ _
  close_session-down _ reason h d = ground arith

  recording-send :
      (now : ℕ) (kind : Option Kind) (tun_ip remote_ip : Option Text) (uptime : Option ℕ)
      (c : Controller H)
      → r.is_recording (send now kind tun_ip remote_ip uptime c).history ≡ r.is_recording c.history
  unfolding send
  recording-send now none tun_ip remote_ip uptime c = refl
  recording-send now (some kind) tun_ip remote_ip uptime c = r.recording-event _ _ _ _

  recording-announce :
      (now : ℕ) (before after : State) (tun_ip remote_ip : Option Text) (uptime : Option ℕ)
      (c : Controller H)
      → is_down after ≡ true
      → (same_state before after ≡ true → r.is_recording c.history ≡ false)
      → r.is_recording (announce now before after tun_ip remote_ip uptime c).history ≡ false
  unfolding announce
  recording-announce now before after tun_ip remote_ip uptime c down quiet =
      elim (Bool-cases (same_state before after)) [
        | inl same ↦ rw (same, announce) (quiet same)
        | inr other ↦
            let (c', kind) = verdict before after c in
            rw (other, announce)
              (recording-send now kind tun_ip remote_ip uptime _
                ∙ close_session-down after _ _ down)
      ]

  -- A transition into a state without a tunnel closes the open session; where the state was
  -- that one before, none must have been open.
  pub recording-tracked :
      (now : ℕ) (change : Controller H → Controller H) (c : Controller H)
      → is_down (change c).status.state ≡ true
      → (same_state c.status.state (change c).status.state ≡ true
          → r.is_recording (change c).history ≡ false)
      → r.is_recording (tracked now change c).history ≡ false
  unfolding tracked
  recording-tracked now change c down quiet = recording-announce now _ _ _ _ _ _ down quiet
