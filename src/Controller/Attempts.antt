-- ===== src/Controller/Attempts.antt =====
-- When `connect` begins an attempt.
use mathlib.Core.Path.{subst}
use openvpn_connect_web.Prelude.{
  Bool, [], arith, false, length, none, true, ◌↔◌, ◌∷◌, ◌≡◌, ◌≤◌, Option, ◌≢◌, ap, refl, some, sym,
}
use openvpn_connect_web.Prelude.Digits.{is_numeric}
use openvpn_connect_web.Prelude.Text.{Text, strip}
use openvpn_connect_web.Controller.Api.{
  check_code, Resolved, Result, begin, connect, err, ok, check_idle,
}
use openvpn_connect_web.Controller.State.{Controller, Recorder, connected, is_busy, State}

-- what `connect` asks of the code: 4 to 12 digits, of any script, where the profile wants one, else nothing
abbrev pub IsCode : Bool → Text → Type 0
IsCode true otp = (is_numeric otp ≡ true) × (4 ≤ length otp) × (length otp ≤ 12)
IsCode false otp = otp ≡ []

check_code-eq-none_iff : (mfa : Bool) (otp : Text) → (check_code mfa otp ≡ none) ↔ IsCode mfa otp
unfolding check_code
check_code-eq-none_iff true [] = ((λ e. cc e), (λ h. absurd (omega arith)))
check_code-eq-none_iff true (c ∷ s) = ground arith
check_code-eq-none_iff false [] = ground arith
check_code-eq-none_iff false (c ∷ s) = ground arith

check_idle-eq-none_iff :
    (running : Bool) (s : State)
    → (check_idle running s ≡ none) ↔ ((is_busy s ≡ false) × (s ≢ connected) × (running ≡ false))
unfolding check_idle
check_idle-eq-none_iff running connected = (λ e. cc e, λ h. absurd (h.1 refl))
check_idle-eq-none_iff running _ = ground arith

module _ {H : Type 0} ⦃r : Recorder H⦄ where
  -- `connect` returns the resolved connection and leaves the state that begins an attempt with it
  -- exactly if the firewall does not refuse, that connection is what the name resolves to, the code
  -- has the form that the profile asks for, the controller is neither busy nor connected, and no
  -- openvpn process runs.
  pub connect_iff :
      (guard : Option Text) (resolve : Result Resolved) (running : Bool) (otp : Text)
      (c : Controller H) (resolved : Resolved)
      → (connect guard resolve running otp c ≡ (ok resolved, begin resolved c)) ↔ (
          (guard ≡ none)
          × (resolve ≡ ok resolved)
          × IsCode resolved.requires_mfa (strip otp)
          × (is_busy c.status.state ≡ false)
          × (c.status.state ≢ connected)
          × (running ≡ false))
  unfolding connect
  connect_iff (some refusal) resolve running otp c resolved =
      (λ e. cc (ap (λ x. x.0) e), λ h. cc (h.0))
  connect_iff none (err why) running otp c resolved = (λ e. cc (ap (λ x. x.0) e), λ h. cc (h.1))
  connect_iff none (ok r') running otp c resolved =
      let (coded, uncoded) = check_code-eq-none_iff r'.requires_mfa (strip otp) in
      let (idled, unidled) = check_idle-eq-none_iff running c.status.state in
      (
        λ e. passed (ap (λ x. x.0) e) coded idled,
        λ h.
            let same : r' ≡ resolved = cc (h.1) in
            let code =
              uncoded
                (subst (λ (q : Resolved). IsCode q.requires_mfa (strip otp)) (sym same) h.2) in
            let idle = unidled (h.3, h.4, h.5) in
            rw (code, idle, connect) (ap (λ q. (ok q, begin q c)) same),
      )
    where
      passed :
          (connect none (ok r') running otp c).0 ≡ ok resolved
          → (check_code r'.requires_mfa (strip otp) ≡ none → IsCode r'.requires_mfa (strip otp))
          → (check_idle running c.status.state ≡ none
              → (is_busy c.status.state ≡ false) × (c.status.state ≢ connected) × (running ≡ false))
          → ◌≡◌ {A = Option Text} none none
            × (ok r' ≡ ok resolved)
            × IsCode resolved.requires_mfa (strip otp)
            × (is_busy c.status.state ≡ false)
            × (c.status.state ≢ connected)
            × (running ≡ false)
      passed e coded idled =
          let facts : (r' ≡ resolved)
              × (check_code r'.requires_mfa (strip otp) ≡ none)
              × (check_idle running c.status.state ≡ none) =
            ground arith in
          let (busy, up', alone) = idled facts.2 in
          (
            refl,
            ap ok facts.0,
            subst (λ (q : Resolved). IsCode q.requires_mfa (strip otp)) facts.0 (coded facts.1),
            busy,
            up',
            alone,
          )
