-- ===== src/Login/Tally.antt =====
-- What the throttle's three operations do to the tally of one client.
use mathlib.Core.Path.{subst}
use openvpn_connect_web.Prelude.{
  Bool-cases, Option, Option-cases, ap, arith, false, inl, inr, ltb, none, refl, some, suc, sym,
  true, ℕ, ◌*◌, ◌+◌, ◌<◌, ◌==◌, ◌∙◌, ◌≡◌, ◌≤◌,
}
use openvpn_connect_web.Prelude.Text.{Text, text_eq, text_eq_refl}
use openvpn_connect_web.Login.{
  Throttle, record_failure, recorded, remaining, reset, second, seconds_remaining,
}

module _ (client : Text) where
  -- what a throttle holds of the client, and its settings, are as they were
  pub record IsSame (t t' : Throttle) : Type 0 where
    pub entry : t'.failures client ≡ t.failures client
    pub maxed : t'.max_attempts ≡ t.max_attempts
    pub window : t'.lockout ≡ t.lockout

  pub same : (t : Throttle) → IsSame t t
  same t = record { entry = refl; maxed = refl; window = refl }

  module _ (key : Text) (other : text_eq client key ≡ false) where
    pub reset-IsSame : (t : Throttle) → IsSame t (reset key t)
    unfolding reset
    reset-IsSame t = record { entry = rw other refl; maxed = refl; window = refl }

    pub record_failure-IsSame : (now : ℕ) (t : Throttle) → IsSame t (record_failure key now t)
    unfolding record_failure
    record_failure-IsSame now t = record { entry = rw other refl; maxed = refl; window = refl }

    pub seconds_remaining-IsSame :
        (now : ℕ) (t : Throttle) → IsSame t (seconds_remaining key now t).1
    unfolding seconds_remaining
    seconds_remaining-IsSame now t =
        let (count, last) = recorded (t.failures key) in
        elim (Bool-cases (ltb count t.max_attempts)) [
          | inl few ↦ rw few (same t)
          | inr many ↦ elim (Bool-cases (remaining t now last == 0)) [
            | inl over ↦ rw (many, over) (reset-IsSame t)
            | inr locked ↦ rw (many, locked) (same t)
          ]
        ]

-- a throttle that has counted `g` failures of the client since `t0`
abbrev pub Tallied : ℕ → ℕ → Option (ℕ × ℕ) → Type 0
Tallied t0 g none = g ≡ 0
Tallied t0 g (some (count, last)) = (count ≡ g) × (t0 ≤ last)

pub record IsTallied (m l t0 : ℕ) (client : Text) (g : ℕ) (t : Throttle) : Type 0 where
  pub maxed : t.max_attempts ≡ m
  pub window : t.lockout ≡ l
  pub tally : Tallied t0 g (t.failures client)

module _ (m l t0 : ℕ) where
  pub IsTallied-IsSame :
      (client : Text) (g : ℕ) (t t' : Throttle)
      → IsSame client t t'
      → IsTallied m l t0 client g t
      → IsTallied m l t0 client g t'
  IsTallied-IsSame client g t t' s h = record {
    maxed = s.maxed ∙ h.maxed;
    window = s.window ∙ h.window;
    tally = subst (Tallied t0 g) (sym s.entry) h.tally;
  }

  still_locked :
      (now last : ℕ) (t : Throttle)
      → t.lockout ≡ l
      → t0 ≤ last
      → now + second ≤ t0 + l * second
      → (remaining t now last == 0) ≡ false
  still_locked now last t e since within = ground arith

  -- the throttle lets the client through only with fewer failures than it allows
  pub seconds_remaining-own :
      (key : Text) (now g : ℕ) (t : Throttle)
      → 0 < m
      → now + second ≤ t0 + l * second
      → IsTallied m l t0 key g t
      → ((seconds_remaining key now t).1 ≡ t)
        × (((seconds_remaining key now t).0 == 0) ≡ true → g < m)
  unfolding seconds_remaining
  seconds_remaining-own key now g t positive within h = elim (Option-cases (t.failures key)) [
    | inl e ↦
        let few : ltb 0 t.max_attempts ≡ true = ground (arith, h.maxed) in
        let none_yet : g ≡ 0 = subst (Tallied t0 g) e h.tally in
        rw (e, few) (refl, λ _. omega arith)
    | inr ((count, last), e) ↦
        let tally : Tallied t0 g (some (count, last)) = subst (Tallied t0 g) e h.tally in
        elim (Bool-cases (ltb count t.max_attempts)) [
          | inl few ↦ rw (e, few) (refl, λ _. ground (arith, h.maxed, tally.0, few))
          | inr many ↦
              let locked = still_locked now last t h.window tally.1 within in
              rw (e, many, locked) (refl, λ zero_left. cc (zero_left, locked))
        ]
  ]

  counted :
      (now g : ℕ) (e : Option (ℕ × ℕ))
      → t0 ≤ now
      → Tallied t0 g e
      → (suc (recorded e).0 ≡ suc g) × (t0 ≤ now)
  counted now g none since h = (ap suc (sym h), since)
  counted now g (some (count, last)) since h = (ap suc h.0, since)

  pub record_failure-own :
      (key : Text) (now g : ℕ) (t : Throttle)
      → t0 ≤ now
      → IsTallied m l t0 key g t
      → IsTallied m l t0 key (suc g) (record_failure key now t)
  unfolding record_failure
  record_failure-own key now g t since h = record {
    maxed = h.maxed;
    window = h.window;
    tally = rw (text_eq_refl key) (counted now g (t.failures key) since h.tally);
  }
