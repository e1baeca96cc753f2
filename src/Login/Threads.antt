-- ===== src/Login/Threads.antt =====
-- The route login of app/routes/ui.py under several threads: sign-in requests that have passed the
-- throttle wait for their password to be checked, and are answered in any order.
use openvpn_connect_web.Prelude.{
  ◌⊎◌, Bool, List, Option, [], false, if◌then◌else◌, inl, inr, leb, length, none, some, suc, true,
  zero, ℕ, ◌+◌, ◌∷◌,
}
use openvpn_connect_web.Prelude.Text.{Text, text_eq}
use openvpn_connect_web.Login.{App, Page, Reply, Request, admit, check, incorrect}

-- a request comes in, or the one at a place among those waiting is carried to its end at a time
pub data Turn : Type 0 where
  arrives : Request → Turn
  finishes : (place now : ℕ) → Turn

-- the request at a place, and the others
unfoldable pub pick : ℕ → List Request → Option (Request × List Request)
pick i [] = none
pick zero (r ∷ rs) = some (r, rs)
pick (suc i) (r ∷ rs) = elim (pick i rs) [ none ↦ none | some (x, rest) ↦ some (x, r ∷ rest) ]

abbrev pub is_guess : Page → Bool
is_guess incorrect = true
is_guess _ = false

module _ (client : Text) where
  abbrev pub is_from : Request → Bool
  is_from r = text_eq client r.client

  abbrev pub counted : Option Request → ℕ
  counted none = 0
  counted (some r) = if is_from r then 1 else 0

module _ {Vault : Type 0} (verify : Text → Bool) (unlock : Text → Vault → Option Vault)
    (threads : ℕ) where
  pub record Server : Type 0 where
    pub app : App verify unlock
    -- the requests that the throttle has let through
    pub waiting : List Request

  abbrev pub taken_up : Request → Server → Reply verify unlock ⊎ App verify unlock → Server
  taken_up r s (inl reply) = record s { app = reply.app }
  taken_up r s (inr app) = record { app = app; waiting = r ∷ s.waiting }

  -- the server, and the request whose password was found wrong, if any
  abbrev pub ended : ℕ → Server → Option (Request × List Request) → Server × Option Request
  ended now s none = (s, none)
  ended now s (some (r, rest)) =
      let reply = check verify unlock (record r { now = now }) s.app in
      (record { app = reply.app; waiting = rest }, if is_guess reply.page then some r else none)

  -- one turn; a request is taken up only where a thread is free
  unfoldable pub serve : Turn → Server → Server × Option Request
  unfolding pick admit check
  serve (arrives r) s = (
    if leb threads (length s.waiting) then s else taken_up r s (admit verify unlock r s.app),
    none,
  )
  serve (finishes place now) s = ended now s (pick place s.waiting)

  -- how many passwords of the client are tested in vain over the turns, and the server at the end
  unfoldable pub guesses : Text → List Turn → Server → ℕ × Server
  guesses client [] s = (0, s)
  guesses client (turn ∷ turns) s =
      let (s', guess) = serve turn s in
      let (more, end) = guesses client turns s' in (counted client guess + more, end)
