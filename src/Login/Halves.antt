-- ===== src/Login/Halves.antt =====
-- What the two halves of a sign-in request do to the tally of a client: the part up to the throttle,
-- and the part that checks the password.
use openvpn_connect_web.Prelude.{
  Bool, Bool-cases, Option, Option-cases, false, if_elim, if◌then◌else◌, inl, inr, not, suc, ℕ, ◌*◌,
  ◌+◌, ◌<◌, ◌==◌, ◌≡◌, ◌≤◌, ◌⊎◌,
}
use openvpn_connect_web.Login.{
  App, Reply, Request, admit, check, enter, is_csrf_valid, second, seconds_remaining, throttled,
}
use openvpn_connect_web.Login.Threads.{is_guess}
use openvpn_connect_web.Login.Tally.{
  IsSame, IsTallied, record_failure-IsSame, record_failure-own, reset-IsSame, same,
  seconds_remaining-IsSame, seconds_remaining-own,
}
use openvpn_connect_web.Prelude.Text.{Text, text_eq}

-- what the route up to the throttle leaves of the app
abbrev pub after :
    {Vault : Type 0} {verify : Text → Bool} {unlock : Text → Vault → Option Vault}
    → Reply verify unlock ⊎ App verify unlock
    → App verify unlock
after (inl reply) = reply.app
after (inr app) = app

module _ {Vault : Type 0} (verify : Text → Bool) (unlock : Text → Vault → Option Vault)
    (client : Text) where
  module _ (r : Request) (other : text_eq client r.client ≡ false) where
    pub enter-IsSame :
        (app : App verify unlock)
        → IsSame client app.throttle (enter verify unlock r app).app.throttle
    unfolding enter
    enter-IsSame app = elim (Option-cases (unlock r.password app.vault)) [
      | inl e ↦ rw (e, enter) (same client app.throttle)
      | inr (v, e) ↦ rw (e, enter) (reset-IsSame client r.client other app.throttle)
    ]

    pub check-IsSame :
        (app : App verify unlock)
        → IsSame client app.throttle (check verify unlock r app).app.throttle
    unfolding check
    check-IsSame app = elim (Bool-cases (is_csrf_valid r)) [
      | inr bad ↦ rw bad (same client app.throttle)
      | inl good ↦ elim (Bool-cases (verify r.password)) [
        | inl right ↦ rw (good, right) (enter-IsSame app)
        | inr wrong ↦
            rw (good, wrong) (record_failure-IsSame client r.client other r.now app.throttle)
      ]
    ]

    throttled-IsSame :
        (app : App verify unlock)
        → IsSame client app.throttle (after (throttled verify unlock r app)).throttle
    unfolding throttled
    throttled-IsSame app =
        let s = seconds_remaining-IsSame client r.client other r.now app.throttle in
        elim (Bool-cases ((seconds_remaining r.client r.now app.throttle).0 == 0)) [
          | inr locked ↦ rw locked s
          | inl free ↦ rw free s
        ]

    pub admit-IsSame :
        (app : App verify unlock)
        → IsSame client app.throttle (after (admit verify unlock r app)).throttle
    unfolding admit
    admit-IsSame app =
        let P : Reply verify unlock ⊎ App verify unlock → Type 0 =
          λ x. IsSame client app.throttle (after x).throttle in
        let kept = same client app.throttle in
        if_elim P r.session.authenticated (λ _. kept)
          (λ _.
            if_elim P (not app.has_password) (λ _. kept)
              (λ _. if_elim P r.is_post (λ _. throttled-IsSame app) (λ _. kept)))

module _ {Vault : Type 0} (verify : Text → Bool) (unlock : Text → Vault → Option Vault) (m l t0 : ℕ)
    (r : Request) where
  pub check-own :
      (g : ℕ) (app : App verify unlock)
      → t0 ≤ r.now
      → verify r.password ≡ false
      → IsTallied m l t0 r.client g app.throttle
      → let reply = check verify unlock r app in
        IsTallied m l t0 r.client (if is_guess reply.page then suc g else g) reply.app.throttle
  unfolding check
  check-own g app since wrong h = elim (Bool-cases (is_csrf_valid r)) [
    | inr bad ↦ rw bad h
    | inl good ↦ rw (good, wrong) (record_failure-own m l t0 r.client r.now g app.throttle since h)
  ]

  -- the tally is as it was, and a request is let through only below `max_attempts`
  abbrev pub Passes : ℕ → Reply verify unlock ⊎ App verify unlock → Type 0
  Passes g (inl reply) = IsTallied m l t0 r.client g reply.app.throttle
  Passes g (inr app) = IsTallied m l t0 r.client g app.throttle × (g < m)

  module _ (positive : 0 < m) (within : r.now + second ≤ t0 + l * second) (g : ℕ) where
    throttled-own :
        (app : App verify unlock)
        → IsTallied m l t0 r.client g app.throttle
        → Passes g (throttled verify unlock r app)
    unfolding throttled
    throttled-own app h =
        let (kept, fewer) =
          seconds_remaining-own m l t0 r.client r.now g app.throttle positive within h in
        elim (Bool-cases ((seconds_remaining r.client r.now app.throttle).0 == 0)) [
          | inl free ↦ rw (free, kept) (h, fewer free)
          | inr locked ↦ rw (locked, kept) h
        ]

    pub admit-own :
        (app : App verify unlock)
        → IsTallied m l t0 r.client g app.throttle
        → Passes g (admit verify unlock r app)
    unfolding admit
    admit-own app h =
        if_elim (Passes g) r.session.authenticated (λ _. h)
          (λ _.
            if_elim (Passes g) (not app.has_password) (λ _. h)
              (λ _. if_elim (Passes g) r.is_post (λ _. throttled-own app h) (λ _. h)))
