-- ===== src/Prelude/Number.antt =====
-- Python's `int` of a text, over integers that are built on the native numbers.
use Prim.Native.Nat.{ℕ, zero, suc, ◌+◌, ◌-◌, ◌*◌, ◌/◌, ◌%◌, ◌<◌}
use mathlib.Core.Logic.{inl, inr}
use native.Mathlib.Omega.{arith}
use mathlib.Core.Path.{◌≡◌, refl}
use mathlib.Core.Bool.{Bool, true, false, ◌&&◌}
use mathlib.Core.Option.{Option, none, some}
use mathlib.Core.Option
use mathlib.Core.List.{[], ◌∷◌, ◌++◌}
use openvpn_connect_web.Prelude.Tests.{leb, Bool-cases, ◌==◌, if◌then◌else◌}
use openvpn_connect_web.Prelude.Lists.{all, all-append}
use openvpn_connect_web.Prelude.Text.{Text, text, is_digit, isdigit, nonempty, strip}

-- `negsuc n` is -(n + 1).
pub data ℤ : Type 0 where
  pos : ℕ → ℤ
  negsuc : ℕ → ℤ

-- digits, with single underscores between them; `after` says that a digit has just been read
digits_from : ℕ → Bool → Text → Option ℕ
digits_from n after [] = if after then some n else none
digits_from n after (c ∷ s) =
    let more = digits_from (n * 10 + (c - 48)) true s in
    let gap = digits_from n false s in
    if is_digit c then more else if (c == b'_') && after then gap else none

abbrev negate : ℕ → ℤ
negate zero = pos 0
negate (suc n) = negsuc n

signed : Text → Option ℤ
unfolding digits_from is_digit
signed [] = none
signed (c ∷ s) =
    if c == b'-'
    then Option.map negate (digits_from 0 false s)
    else if c == b'+'
    then Option.map pos (digits_from 0 false s)
    else Option.map pos (digits_from 0 false (c ∷ s))

-- `int(s)`; `none` is the `ValueError`
unfoldable pub parse_int : Text → Option ℤ
unfolding signed strip
parse_int s = signed (strip s)

parse_int_tests :
    (parse_int (text " 1_024 ") ≡ some (pos 1024))
    × (parse_int (text "-7") ≡ some (negsuc 6))
    × (parse_int (text "1__0") ≡ none)
    × (parse_int (text "") ≡ none)
unfolding parse_int
parse_int_tests = (refl, refl, refl, refl)

-- `int(s)` of a text of digits
decimal_from : ℕ → Text → ℕ
decimal_from n [] = n
decimal_from n (c ∷ s) = decimal_from (n * 10 + (c - 48)) s

unfoldable pub decimal : Text → ℕ
unfolding decimal_from
decimal s = decimal_from 0 s

-- `str(n)`; a number has at most as many digits as its successor
decimal_digits : ℕ → ℕ → Text
decimal_digits zero n = []
decimal_digits (suc fuel) n =
    let front = decimal_digits fuel (n / 10) in
    if leb n 9 then (48 + n) ∷ [] else front ++ ((48 + n % 10) ∷ [])

unfoldable pub show_number : ℕ → Text
unfolding decimal_digits
show_number n = decimal_digits (suc n) n

decimal_from-append :
    (n : ℕ) (s : Text) (c : ℕ) → decimal_from n (s ++ (c ∷ [])) ≡ decimal_from n s * 10 + (c - 48)
unfolding decimal_from
decimal_from-append n [] c = refl
decimal_from-append n (d ∷ s) c = decimal_from-append (n * 10 + (d - 48)) s c

decimal_digits-inverse : (fuel n : ℕ) → n < fuel → decimal_from 0 (decimal_digits fuel n) ≡ n
unfolding decimal_from decimal_digits
decimal_digits-inverse zero n h = ground arith
decimal_digits-inverse (suc fuel) n h = elim (Bool-cases (leb n 9)) [
  | inl small ↦ rw small (omega arith)
  | inr big ↦
      rw
        (
          big,
          decimal_from-append 0 (decimal_digits fuel (n / 10)) (48 + n % 10),
          decimal_digits-inverse fuel (n / 10) (ground arith),
        )
        (omega arith)
]

-- a number that is written in digits and read again is the number
pub decimal-show_number : (n : ℕ) → decimal (show_number n) ≡ n
unfolding decimal show_number
decimal-show_number n = decimal_digits-inverse (suc n) n (omega arith)

nonempty_snoc : (s : Text) (c : ℕ) → nonempty (s ++ c ∷ []) ≡ true
nonempty_snoc [] c = refl
nonempty_snoc (d ∷ s) c = refl

last_digit : (d : ℕ) → d < 10 → is_digit (48 + d) ≡ true
unfolding is_digit
last_digit d h = ground arith

isdigit-decimal_digits : (fuel n : ℕ) → n < fuel → isdigit (decimal_digits fuel n) ≡ true
unfolding decimal_digits isdigit
isdigit-decimal_digits zero n h = ground arith
isdigit-decimal_digits (suc fuel) n h = elim (Bool-cases (leb n 9)) [
  | inl small ↦ rw (small, last_digit n (ground arith)) refl
  | inr big ↦
      let front = isdigit-decimal_digits fuel (n / 10) (ground arith) in
      let all_front : all is_digit (decimal_digits fuel (n / 10)) ≡ true = ground arith in
      let last : is_digit (48 + n % 10) ≡ true = last_digit (n % 10) (omega arith) in
      rw
        (
          big,
          all-append is_digit (decimal_digits fuel (n / 10)) ((48 + n % 10) ∷ []),
          all_front,
          last,
          nonempty_snoc (decimal_digits fuel (n / 10)) (48 + n % 10),
        )
        refl
]

pub isdigit-show_number : (n : ℕ) → isdigit (show_number n) ≡ true
unfolding show_number
isdigit-show_number n = isdigit-decimal_digits (suc n) n (omega arith)

-- `a / b`, not reduced
pub record Ratio : Type 0 where
  pub num : ℕ
  pub den : ℕ
