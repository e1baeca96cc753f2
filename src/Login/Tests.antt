-- ===== src/Login/Tests.antt =====
-- Three attempts against a throttle that allows one, on two threads: two are tested.
use openvpn_connect_web.Login.{
  Session, csrf_token, App, Request, admit, check, is_csrf_valid, record_failure, seconds_remaining,
  throttled,
}
use openvpn_connect_web.Prelude.{
  Bool, List, Option, [], arith, count, false, none, refl, some, true, ℕ, ◌+◌, ◌<◌, ◌∷◌, ◌≡◌,
}
use openvpn_connect_web.Prelude.Text.{Text, text, text_eq, starts_with}
use openvpn_connect_web.Login.Threads.{Turn, arrives, finishes, guesses, is_from, pick, serve}
use openvpn_connect_web.Login.Guessing.{guesses-bounded}
use openvpn_connect_web.Login.Gate.{VaultView, login_required, restarted_api}

abbrev refuse_all : Text → Bool
refuse_all password = false

abbrev no_vault : Text → Unit {0} → Option (Unit {0})
no_vault password v = none

abbrev app : App {Vault = Unit {0}} refuse_all no_vault
app = record {
  has_password = true;
  throttle = record { max_attempts = 1; lockout = 300; failures = λ k. none };
  vault = tt;
}

abbrev attempt_at : ℕ → Request
attempt_at now = record {
  is_post = true;
  session = record { authenticated = false; csrf = some (text "t") };
  client = text "10.0.0.9";
  form_token = some (text "t");
  header_token = [];
  password = text "guess";
  next = [];
  now = now;
  fresh = text "u";
}

-- two requests that are both let through before either is answered
abbrev two_at_once : List Turn
two_at_once =
    arrives (attempt_at 5)
    ∷ arrives (attempt_at 6)
    ∷ finishes 0 7
    ∷ arrives (attempt_at 8)
    ∷ finishes 0 9
    ∷ finishes 0 10
    ∷ []

guesses-bounded_example :
    let (tested, end) =
      guesses refuse_all no_vault 2
        (text "10.0.0.9")
        two_at_once
        (record { app = app; waiting = [] }) in
    tested + count (is_from (text "10.0.0.9")) end.waiting < 1 + 2
guesses-bounded_example =
    guesses-bounded refuse_all no_vault 2 1 300 0 (text "10.0.0.9") two_at_once app (omega arith)
      refl refl refl
      (
        (omega arith, λ _. refl),
        (
          (omega arith, λ _. refl),
          (omega arith, ((omega arith, λ _. refl), (omega arith, (omega arith, tt)))),
        ),
      )

two_are_tested :
    (guesses refuse_all no_vault 2
      (text "10.0.0.9")
      two_at_once
      (record { app = app; waiting = [] })).0
    ≡ 2
unfolding guesses serve admit throttled pick check seconds_remaining record_failure is_csrf_valid
    csrf_token text_eq
two_are_tested = refl

abbrev locked_vault : VaultView
locked_vault = record { configured = true; unlocked = false; exists = true }

abbrev signed_in : Session
signed_in = record { authenticated = true; csrf = some (text "t") }

restarted : (login_required (text "/api/status") locked_vault signed_in).0 ≡ restarted_api
unfolding login_required starts_with
restarted = refl
