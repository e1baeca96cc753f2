-- ===== src/Login/Gate.antt =====
-- `login_required`, `vault_locked`, `log_out` and `validate_csrf` of app/auth.py, and the sign-out route
-- of app/routes/ui.py.
use openvpn_connect_web.Login.{Session, Request, is_csrf_valid}
use openvpn_connect_web.Prelude.{
  Bool, Bool-cases, Option, false, if◌then◌else◌, inl, inr, none, not, refl, some, true, ◌&&◌, ◌||◌,
  ◌↔◌, ◌≡◌, ◌≢◌, ap, if_elim, ◌⊎◌,
}
use openvpn_connect_web.Prelude.Text.{Text, starts_with, text}

-- what the app's config holds of the database and the vault
pub record VaultView : Type 0 where
  pub configured : Bool
  pub unlocked : Bool
  pub exists : Bool

abbrev pub vault_locked : VaultView → Bool
vault_locked v = if not v.configured || v.unlocked then false else v.exists

abbrev pub log_out : Session
log_out = record { authenticated = false; csrf = none }

-- what the wrapper answers; the pages redirect to the sign-in with the path to return to
pub data Verdict : Type 0 where
  view : Verdict
  restarted_api unauthenticated_api : Verdict
  restarted_page unauthenticated_page : Text → Verdict

unfoldable pub login_required : Text → VaultView → Session → Verdict × Session
unfolding starts_with
login_required path v s =
    let is_api = starts_with path (text "/api/") in
    if s.authenticated && vault_locked v
    then (if is_api then restarted_api else restarted_page path, log_out)
    else if not s.authenticated
    then (if is_api then unauthenticated_api else unauthenticated_page path, s)
    else (view, s)

-- the route `logout`: `none` where the token is refused
unfoldable pub logout : Request → Option Session
unfolding is_csrf_valid
logout r = if is_csrf_valid r then some log_out else none

module _ (path : Text) (v : VaultView) (s : Session) where
  runs : s.authenticated ≡ true → vault_locked v ≡ false → login_required path v s ≡ (view, s)
  unfolding login_required
  runs signed_in free = rw (signed_in, free) refl

  stops_locked :
      s.authenticated ≡ true
      → vault_locked v ≡ true
      → ((login_required path v s).0 ≢ view) × ((login_required path v s).1.authenticated ≡ false)
  unfolding login_required
  stops_locked signed_in locked =
      rw (signed_in, locked)
        (
          if_elim (λ (a : Verdict). a ≢ view) (starts_with path (text "/api/")) (λ _. λ e. cc e)
              (λ _. λ e. cc e),
          refl,
        )

  stops_stranger :
      s.authenticated ≡ false
      → ((login_required path v s).0 ≢ view) × ((login_required path v s).1.authenticated ≡ false)
  unfolding login_required
  stops_stranger stranger = rw stranger (
    if_elim (λ (a : Verdict). a ≢ view) (starts_with path (text "/api/")) (λ _. λ e. cc e)
        (λ _. λ e. cc e),
    refl,
  )

  gate-cases :
      ((s.authenticated ≡ true) × (vault_locked v ≡ false))
      ⊎ (((login_required path v s).0 ≢ view) × ((login_required path v s).1.authenticated ≡ false))
  gate-cases = elim (Bool-cases s.authenticated) [
    | inr stranger ↦ inr (stops_stranger stranger)
    | inl signed_in ↦ elim (Bool-cases (vault_locked v)) [
      | inl locked ↦ inr (stops_locked signed_in locked)
      | inr free ↦ inl (signed_in, free)
    ]
  ]

-- A guarded view runs exactly if the session is signed in and the vault is not locked. Where it does
-- not run, the session left behind is not signed in, so the next request is refused too, whatever its
-- path and even if the vault has been unlocked since.
login_required_iff :
    (path : Text) (v : VaultView) (s : Session)
    → (((login_required path v s).0 ≡ view) ↔ ((s.authenticated ≡ true) × (vault_locked v ≡ false)))
      × ((login_required path v s).0 ≢ view
          → (path' : Text) (v' : VaultView)
          → (login_required path' v' (login_required path v s).1).0 ≢ view)
login_required_iff path v s = elim (gate-cases path v s) [
  | inl (signed_in, free) ↦
      let ran = runs path v s signed_in free in
      (
        (λ _. (signed_in, free), λ _. ap (λ x. x.0) ran),
        λ stopped. absurd (stopped (ap (λ x. x.0) ran)),
      )
  | inr (stopped, out) ↦ (
    (λ e. absurd (stopped e), λ h. ap (λ x. x.0) (runs path v s h.0 h.1)),
    λ _ path' v'. (stops_stranger path' v' (login_required path v s).1 out).0,
  )
]
