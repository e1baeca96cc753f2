-- ===== src/Controller/Soundness/Invariant.antt =====
-- The invariant, and that a change under the lock and `_fail` keep it.
use openvpn_connect_web.Controller.State.{
  Controller, Recorder, State, disconnected, failed, is_connected, is_failed, unmanaged,
}
use openvpn_connect_web.Prelude.Text.{Text, truthy}
use openvpn_connect_web.Prelude.{arith, false, refl, true, ℕ, ◌∙◌, ◌≡◌, Bool, Option, if◌then◌else◌}
use openvpn_connect_web.Controller.Announce.{fail, is_down, same_state, tracked}
use openvpn_connect_web.Controller.Tracked.{recording-tracked, tracked-IsAlike}

is_down-same : (a b : State) → same_state a b ≡ true → is_down b ≡ true → is_down a ≡ true
is_down-same a disconnected h d = ground arith
is_down-same a failed h d = ground arith
is_down-same a unmanaged h d = ground arith
is_down-same a _ h d = ground arith

module _ {H : Type 0} ⦃r : Recorder H⦄ where
  pub record IsSound (c : Controller H) : Type 0 where
    pub resting : is_down c.status.state ≡ true → r.is_recording c.history ≡ false
    pub told : is_connected c.status.state ≡ true → c.settled ≡ true
    pub woken : is_failed c.status.state ≡ true → (c.settled ≡ true) × (c.auth_prompt ≡ true)
    pub reported : truthy c.status.error ≡ true → c.auth_prompt ≡ true

  pub if-IsSound :
      (b : Bool) {c d : Controller H} → IsSound c → IsSound d → IsSound (if b then c else d)
  if-IsSound true s _ = s
  if-IsSound false _ s = s

  -- the same of a result with the state beside it
  pub if-IsSound_snd :
      {A : Type 0} (b : Bool) (p q : A × Controller H)
      → IsSound p.1
      → IsSound q.1
      → IsSound (if b then p else q).1
  if-IsSound_snd true p q s _ = s
  if-IsSound_snd false p q _ s = s

  pub tracked-resting :
      (now : ℕ) (change : Controller H → Controller H) (c : Controller H)
      → IsSound c
      → r.is_recording (change c).history ≡ r.is_recording c.history
      → is_down (tracked now change c).status.state ≡ true
      → r.is_recording (tracked now change c).history ≡ false
  tracked-resting now change c s kept d =
      let a = tracked-IsAlike now change c in
      let down : is_down (change c).status.state ≡ true = rw (← a.status) d in
      recording-tracked now change c down
        (λ same. kept ∙ s.resting (is_down-same c.status.state (change c).status.state same down))

  -- Under the lock: a change that keeps the invariant but for the session keeps it whole.
  pub tracked-IsSound :
      (now : ℕ) (change : Controller H → Controller H) (c : Controller H)
      → IsSound c
      → r.is_recording (change c).history ≡ r.is_recording c.history
      → (is_connected (change c).status.state ≡ true → (change c).settled ≡ true)
      → (is_failed (change c).status.state ≡ true
          → ((change c).settled ≡ true) × ((change c).auth_prompt ≡ true))
      → (truthy (change c).status.error ≡ true → (change c).auth_prompt ≡ true)
      → IsSound (tracked now change c)
  tracked-IsSound now change c s kept told woken reported =
      let a = tracked-IsAlike now change c in
      record {
        resting = tracked-resting now change c s kept;
        told = rw (a.status, a.settled) told;
        woken = rw (a.status, a.settled, a.auth_prompt) woken;
        reported = rw (a.status, a.auth_prompt) reported;
      }

  pub fail-IsSound :
      (now : ℕ) (message : Text) (c : Controller H) → IsSound c → IsSound (fail now message c)
  unfolding fail
  fail-IsSound now message c s = record {
    resting = tracked-resting now _ c s refl;
    told = λ _. refl;
    woken = λ _. (refl, refl);
    reported = λ _. refl;
  }

  -- three fields that the invariant does not read
  pub relabel-IsSound :
      (secret : Option Text) (told asked : Bool) (c : Controller H)
      → IsSound c
      → IsSound
          (record c { pending_secret = secret; notified_up = told; shutdown_requested = asked })
  relabel-IsSound secret told asked c s = record {
    resting = s.resting;
    told = s.told;
    woken = s.woken;
    reported = s.reported;
  }
