-- ===== src/Login/Guessing.antt =====
-- How many wrong passwords one client gets to try within a lockout, with requests on several threads.
use mathlib.Core.Path.{subst}
use openvpn_connect_web.Prelude.{
  All, Bool, Bool-cases, List, Option, [], arith, count, false, if_elim, if◌then◌else◌, inl, inr,
  leb, length, none, refl, some, suc, sym, true, ℕ, ◌*◌, ◌+◌, ◌<◌, ◌∷◌, ◌≡◌, ◌≤◌, ◌⊎◌,
}
use openvpn_connect_web.Login.{App, Reply, Request, admit, check, second}
use openvpn_connect_web.Login.Halves.{
  Passes, admit-IsSame, admit-own, after, check-IsSame, check-own,
}
use openvpn_connect_web.Login.Picking.{IsPicked-All, IsPicked-count, count-length, pick-cases}
use openvpn_connect_web.Login.Tally.{IsSame, IsTallied, IsTallied-IsSame}
use openvpn_connect_web.Login.Threads.{
  Server, Turn, arrives, counted, ended, finishes, guesses, is_from, is_guess, serve, taken_up,
}
use openvpn_connect_web.Prelude.Text.{Text, text_eq, text_eq_refl, text_eq_sound}

module _ {Vault : Type 0} (verify : Text → Bool) (unlock : Text → Vault → Option Vault)
    (threads m l t0 : ℕ) (client : Text) where
  abbrev IsWrong : Request → Type 0
  IsWrong r = is_from client r ≡ true → verify r.password ≡ false

  -- `g` passwords of the client have been found wrong
  record IsBounded (g : ℕ) (s : Server verify unlock threads) : Type 0 where
    tally : IsTallied m l t0 client g s.app.throttle
    wrong : All IsWrong s.waiting
    few : suc (g + count (is_from client) s.waiting) ≤ m + threads

  taken_up-own :
      (g : ℕ) (r : Request) (s : Server verify unlock threads)
      (x : Reply verify unlock ⊎ App verify unlock)
      → client ≡ r.client
      → IsWrong r
      → length s.waiting < threads
      → IsBounded g s
      → Passes verify unlock m l t0 r g x
      → IsBounded g (taken_up verify unlock threads r s x)
  taken_up-own g r s (inl reply) own wrong free h passes = record {
    tally = subst (λ c. IsTallied m l t0 c g reply.app.throttle) (sym own) passes;
    wrong = h.wrong;
    few = h.few;
  }
  taken_up-own g r s (inr app) own wrong free h passes = record {
    tally = subst (λ c. IsTallied m l t0 c g app.throttle) (sym own) passes.0;
    wrong = (wrong, h.wrong);
    few = ground (arith, count-length (is_from client) s.waiting, passes.1, free);
  }

  taken_up-other :
      (g : ℕ) (r : Request) (s : Server verify unlock threads)
      (x : Reply verify unlock ⊎ App verify unlock)
      → is_from client r ≡ false
      → IsBounded g s
      → IsSame client s.app.throttle (after x).throttle
      → IsBounded g (taken_up verify unlock threads r s x)
  taken_up-other g r s (inl reply) other h kept = record {
    tally = IsTallied-IsSame m l t0 client g _ _ kept h.tally;
    wrong = h.wrong;
    few = h.few;
  }
  taken_up-other g r s (inr app) other h kept = record {
    tally = IsTallied-IsSame m l t0 client g _ _ kept h.tally;
    wrong = (λ own. cc (own, other), h.wrong);
    few = rw other (omega (arith, h.few));
  }

  counted-own :
      (g : ℕ) (guessed : Bool) (r : Request)
      → is_from client r ≡ true
      → (counted client (if guessed then some r else none) + g ≡ (if guessed then suc g else g))
        × (counted client (if guessed then some r else none) ≤ 1)
  counted-own g true r from = rw from (omega arith, omega arith)
  counted-own g false r from = (omega arith, omega arith)

  ended-own :
      (g now : ℕ) (r : Request) (rest : List Request) (s : Server verify unlock threads)
      → client ≡ r.client
      → verify r.password ≡ false
      → t0 ≤ now
      → All IsWrong rest
      → suc (g + suc (count (is_from client) rest)) ≤ m + threads
      → IsTallied m l t0 client g s.app.throttle
      → let (s', guess) = ended verify unlock threads now s (some (r, rest)) in
        IsBounded (counted client guess + g) s'
  ended-own g now r rest s own wrong since others few h =
      let r' : Request = record r { now = now } in
      let reply = check verify unlock r' s.app in
      let (count_is, at_most) =
        counted-own g (is_guess reply.page) r
          (subst (λ c. text_eq client c ≡ true) own (text_eq_refl client)) in
      let tally =
        check-own verify unlock m l t0 r' g s.app since wrong
          (subst (λ c. IsTallied m l t0 c g s.app.throttle) own h) in
      record {
        tally =
            subst (λ k. IsTallied m l t0 client k reply.app.throttle) (sym count_is)
              (subst
                (λ c.
                  IsTallied m l t0 c (if is_guess reply.page then suc g else g) reply.app.throttle)
                (sym own) tally);
        wrong = others;
        few = omega (arith, at_most, few);
      }

  ended-other :
      (g now : ℕ) (r : Request) (rest : List Request) (s : Server verify unlock threads)
      → is_from client r ≡ false
      → All IsWrong rest
      → suc (g + count (is_from client) rest) ≤ m + threads
      → IsTallied m l t0 client g s.app.throttle
      → let (s', guess) = ended verify unlock threads now s (some (r, rest)) in
        IsBounded (counted client guess + g) s'
  ended-other g now r rest s other others few h =
      let r' : Request = record r { now = now } in
      let reply = check verify unlock r' s.app in
      let none_own : counted client (if is_guess reply.page then some r else none) ≡ 0 =
        if_elim (λ (x : Option Request). counted client x ≡ 0) (is_guess reply.page)
          (λ _. rw other refl) (λ _. refl) in
      let tallied =
        IsTallied-IsSame m l t0 client g _ _ (check-IsSame verify unlock client r' other s.app) h in
      record {
        tally =
            subst (λ k. IsTallied m l t0 client k reply.app.throttle) (omega (arith, none_own))
              tallied;
        wrong = others;
        few = omega (arith, none_own, few);
      }

  -- a request inside the window, which, if the client sent it, carries a wrong password
  abbrev IsWrongGuess : Turn → Type 0
  IsWrongGuess (arrives r) = (r.now + second ≤ t0 + l * second) × IsWrong r
  IsWrongGuess (finishes place now) = t0 ≤ now

  serve-IsBounded :
      (g : ℕ) (turn : Turn) (s : Server verify unlock threads)
      → 0 < m
      → IsWrongGuess turn
      → IsBounded g s
      → let (s', guess) = serve verify unlock threads turn s in
        IsBounded (counted client guess + g) s'
  unfolding serve
  serve-IsBounded g (arrives r) s positive (within, wrong) h =
      subst
        (λ k. IsBounded k (
          if leb threads (length s.waiting)
          then s
          else taken_up verify unlock threads r s (admit verify unlock r s.app)))
        (omega arith)
        (if_elim (IsBounded g) (leb threads (length s.waiting)) (λ full. h)
          (λ room. elim (Bool-cases (is_from client r)) [
            | inl from ↦
                let own = text_eq_sound client r.client from in
                taken_up-own g r s _ own wrong (ground (arith, room)) h (
                  admit-own verify unlock m l t0 r positive within g s.app
                    (subst (λ c. IsTallied m l t0 c g s.app.throttle) own h.tally))
            | inr other ↦
                taken_up-other g r s (admit verify unlock r s.app) other h
                  (admit-IsSame verify unlock client r other s.app)
          ]))
  serve-IsBounded g (finishes place now) s positive since h = elim (pick-cases place s.waiting) [
    | inl e ↦ rw e (subst (λ k. IsBounded k s) (omega arith) h)
    | inr (r, rest, e, picked) ↦
        let (wrong, others) = IsPicked-All IsWrong picked h.wrong in
        let counts = IsPicked-count (is_from client) picked in
        rw e (elim (Bool-cases (is_from client r)) [
          | inl from ↦
              ended-own g now r rest s (text_eq_sound client r.client from) (wrong from) since
                others (ground (arith, counts, from, h.few)) h.tally
          | inr other ↦
              ended-other g now r rest s other others (ground (arith, counts, other, h.few)) h.tally
        ])
  ]

  guesses_from :
      (turns : List Turn) (g : ℕ) (s : Server verify unlock threads)
      → 0 < m
      → All IsWrongGuess turns
      → IsBounded g s
      → let (k, end) = guesses verify unlock threads client turns s in IsBounded (k + g) end
  unfolding guesses
  guesses_from [] g s positive h bounded = subst (λ k. IsBounded k s) (omega arith) bounded
  guesses_from (turn ∷ turns) g s positive h bounded =
      let next = serve verify unlock threads turn s in
      let rest = guesses verify unlock threads client turns next.0 in
      subst (λ k. IsBounded k rest.1) (omega arith)
        (guesses_from turns (counted client next.1 + g) next.0 positive h.1
          (serve-IsBounded g turn s positive h.0 bounded))

  -- However the halves of sign-in requests of several clients interleave on a number of threads, a
  -- client of whom the throttle holds no failure gets at most `max_attempts` and one less than the
  -- number of threads wrong passwords tested, those whose check is still under way included. This
  -- holds from a server without requests under way, if every request is looked at by the throttle
  -- at the latest one second before a lockout from `t0` would end, no failure is recorded before
  -- `t0`, none of the client's passwords is right, and `max_attempts` is positive.
  pub guesses-bounded :
      (turns : List Turn) (app : App verify unlock)
      → 0 < m
      → app.throttle.max_attempts ≡ m
      → app.throttle.lockout ≡ l
      → app.throttle.failures client ≡ none
      → All IsWrongGuess turns
      → let (tested, end) =
          guesses verify unlock threads client turns (record { app = app; waiting = [] }) in
        tested + count (is_from client) end.waiting < m + threads
  guesses-bounded turns app positive maxed window clean h =
      let fresh : IsBounded 0 (record { app = app; waiting = [] }) = record {
        tally = record { maxed = maxed; window = window; tally = rw clean refl };
        wrong = tt;
        few = omega arith;
      } in
      omega (arith, (guesses_from turns 0 _ positive h fresh).few)
