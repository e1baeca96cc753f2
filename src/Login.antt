-- ===== src/Login.antt =====
-- app/auth.py and the sign-in route of app/routes/ui.py: the lockout after failed passwords, the
-- cross-site token, and what one request to /login does, cut where it has passed the throttle: other
-- threads may run there, while its password is hashed. The password hash, the vault and the random
-- tokens are outside; times are in microseconds.
pub mod Tally
pub mod Threads
mod Halves
mod Picking
pub mod Guessing
pub mod Gate
mod Tests
use openvpn_connect_web.Prelude.{
  Bool, Option, [], if◌then◌else◌, ltb, none, not, some, suc, true, ℕ, ◌&&◌, ◌*◌, ◌+◌, ◌-◌, ◌/◌,
  ◌==◌, ◌⊎◌, inl, inr,
}
use openvpn_connect_web.Prelude.Text.{Text, nonempty, starts_with, text, text_eq, truthy}

abbrev pub second : ℕ
second = 1000000

-- `LoginThrottle`: the count and the time of the last failure, by client
pub record Throttle : Type 0 where
  pub max_attempts : ℕ
  pub lockout : ℕ
  pub failures : Text → Option (ℕ × ℕ)

abbrev pub recorded : Option (ℕ × ℕ) → ℕ × ℕ
recorded none = (0, 0)
recorded (some entry) = entry

abbrev pub put : Text → Option (ℕ × ℕ) → (Text → Option (ℕ × ℕ)) → Text → Option (ℕ × ℕ)
put key entry failures = λ k. if text_eq k key then entry else failures k

unfoldable pub reset : Text → Throttle → Throttle
reset key t = record t { failures = put key none t.failures }

-- `int(lockout - (now - last))`, 0 where that is not positive
abbrev pub remaining : Throttle → ℕ → ℕ → ℕ
remaining t now last = (t.lockout * second + last - now) / second

unfoldable pub seconds_remaining : Text → ℕ → Throttle → ℕ × Throttle
seconds_remaining key now t =
    let (count, last) = recorded (t.failures key) in
    if ltb count t.max_attempts
    then (0, t)
    else if remaining t now last == 0
    then (0, reset key t)
    else (remaining t now last, t)

unfoldable pub record_failure : Text → ℕ → Throttle → Throttle
record_failure key now t = record t {
  failures = put key (some (suc (recorded (t.failures key)).0, now)) t.failures;
}

-- the signed session cookie
pub record Session : Type 0 where
  pub authenticated : Bool
  pub csrf : Option Text

pub record Request : Type 0 where
  pub is_post : Bool
  pub session : Session
  pub client : Text
  pub form_token : Option Text
  pub header_token : Text
  pub password : Text
  pub next : Text
  pub now : ℕ
  -- what `secrets.token_urlsafe` would give
  pub fresh : Text

pub data Page : Type 0 where
  home setup form incorrect csrf_refused vault_refused : Page
  locked_out : ℕ → Page
  welcome : Text → Page

unfoldable pub csrf_token : Text → Session → Session
csrf_token fresh s = if truthy s.csrf then s else record s { csrf = some fresh }

abbrev pub or_empty : Option Text → Text
or_empty none = []
or_empty (some t) = t

-- `validate_csrf` does not raise
unfoldable pub is_csrf_valid : Request → Bool
unfolding text_eq
is_csrf_valid r =
    let supplied = if truthy r.form_token then or_empty r.form_token else r.header_token in
    truthy r.session.csrf && nonempty supplied && text_eq (or_empty r.session.csrf) supplied

abbrev pub log_in : Text → Session
log_in fresh = record { authenticated = true; csrf = some fresh }

module _ {Vault : Type 0} (verify : Text → Bool) (unlock : Text → Vault → Option Vault) where
  pub record App : Type 0 where
    pub has_password : Bool
    pub throttle : Throttle
    pub vault : Vault

  pub record Reply : Type 0 where
    pub page : Page
    pub cookie : Session
    pub app : App

  unfoldable pub enter : Request → App → Reply
  unfolding starts_with csrf_token reset
  enter r app = elim (unlock r.password app.vault) [
    | none ↦ record { page = vault_refused; cookie = csrf_token r.fresh r.session; app = app }
    | some v ↦ record {
      page = if starts_with r.next (text "/") then welcome r.next else home;
      cookie = log_in r.fresh;
      app = record app { throttle = reset r.client app.throttle; vault = v };
    }
  ]

  -- the rest of a POST that the throttle has let through: the token, the password, and what follows
  unfoldable pub check : Request → App → Reply
  unfolding is_csrf_valid enter record_failure csrf_token
  check r app =
      if not (is_csrf_valid r)
      then record { page = csrf_refused; cookie = r.session; app = app }
      else if verify r.password
      then enter r app
      else record {
        page = incorrect;
        cookie = csrf_token r.fresh r.session;
        app = record app { throttle = record_failure r.client r.now app.throttle };
      }

  unfoldable pub throttled : Request → App → Reply ⊎ App
  unfolding seconds_remaining csrf_token
  throttled r app =
      let (locked, t) = seconds_remaining r.client r.now app.throttle in
      let app' = record app { throttle = t } in
      if locked == 0
      then inr app'
      else inl
          (record { page = locked_out locked; cookie = csrf_token r.fresh r.session; app = app' })

  -- the route up to the throttle: its reply, or that the POST goes on to `check`, which other
  -- threads may precede
  unfoldable pub admit : Request → App → Reply ⊎ App
  unfolding throttled csrf_token
  admit r app =
      if r.session.authenticated
      then inl (record { page = home; cookie = r.session; app = app })
      else if not app.has_password
      then inl (record { page = setup; cookie = r.session; app = app })
      else if r.is_post
      then throttled r app
      else inl (record { page = form; cookie = csrf_token r.fresh r.session; app = app })
