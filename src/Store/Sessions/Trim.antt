-- ===== src/Store/Sessions/Trim.antt =====
-- Trimming keeps the newest rows of one session and every row of the others.
use openvpn_connect_web.Prelude.{
  List, [], arith, drop-nil, refl, sym, take_last, take_last-cons, ℕ, ◌++◌, ◌-◌, ◌∷◌, ◌≡◌, ◌≢◌,
}
use openvpn_connect_web.Store.Sessions.{rows_of, trim}

module _ {A : Type 0} (session_of : A → ℕ) where
  pub rows_of-trim :
      (cap sid : ℕ) (xs : List A)
      → rows_of session_of sid (trim session_of cap sid xs)
        ≡ take_last cap (rows_of session_of sid xs)
  rows_of-trim cap sid [] = sym (drop-nil (0 - cap))
  rows_of-trim cap sid (x ∷ xs) =
      ground (arith, rows_of-trim cap sid xs, take_last-cons cap x (rows_of session_of sid xs))

  pub rows_of-trim_ne :
      (cap sid other : ℕ) (xs : List A)
      → other ≢ sid
      → rows_of session_of other (trim session_of cap sid xs) ≡ rows_of session_of other xs
  rows_of-trim_ne cap sid other [] h = refl
  rows_of-trim_ne cap sid other (x ∷ xs) h = ground (arith, rows_of-trim_ne cap sid other xs h)

  pub rows_of-append :
      (sid : ℕ) (xs ys : List A)
      → rows_of session_of sid (xs ++ ys) ≡ rows_of session_of sid xs ++ rows_of session_of sid ys
  rows_of-append sid [] ys = refl
  rows_of-append sid (x ∷ xs) ys = ground (arith, rows_of-append sid xs ys)
