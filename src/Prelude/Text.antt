-- ===== src/Prelude/Text.antt =====
-- Python's `str` as a list of code points, with the methods of `str` that the program calls. The
-- program's protocol text is ASCII: the change of case and `isdigit` here are those of ASCII, and
-- Prelude/Digits has the digits of every script. White space is Python's.
use Prim.Native.Nat.{ℕ, ◌+◌, ◌-◌}
use Prim.Native.Char.{code}
use Prim.Native.String.{String}
use mathlib.Core.Path.{◌≡◌, refl, ap, sym, ◌∙◌}
use mathlib.Core.Logic.{◌↔◌, inl, inr}
use mathlib.Core.Bool.{Bool, true, false, not, ◌&&◌, ◌||◌}
use mathlib.Core.Option.{Option, none, some}
use mathlib.Core.List.{
  List, [], ◌∷◌, ◌++◌, map, reverse, reverse-cons, reverse-reverse, append-nil, append_assoc,
}
use native.Mathlib.Omega.{arith}
use openvpn_connect_web.Prelude.Tests.{leb, ltb, ◌==◌, if◌then◌else◌, Bool-cases}
use openvpn_connect_web.Prelude.Lists.{all}
use openvpn_connect_web.Prelude.Sorting.{all-reverse}

abbrev pub Text : Type 0
Text = List ℕ

-- a literal
abbrev pub text : String → Text
text String.[] = []
text (String.◌∷◌ c s) = code c ∷ text s

-- `a == b`
unfoldable pub text_eq : Text → Text → Bool
text_eq [] [] = true
text_eq [] (_ ∷ _) = false
text_eq (_ ∷ _) [] = false
text_eq (a ∷ s) (b ∷ t) = (a == b) && text_eq s t

pub text_eq_sound : (a b : Text) → text_eq a b ≡ true → a ≡ b
unfolding text_eq
text_eq_sound [] [] h = refl
text_eq_sound (a ∷ s) (b ∷ t) h = ground (arith, text_eq_sound s t)
text_eq_sound [] (_ ∷ _) h = ground arith
text_eq_sound (_ ∷ _) [] h = ground arith

pub text_eq_refl : (a : Text) → text_eq a a ≡ true
unfolding text_eq
text_eq_refl [] = refl
text_eq_refl (a ∷ s) = ground (arith, text_eq_refl s)

pub text_eq_iff : (a b : Text) → (text_eq a b ≡ true) ↔ (a ≡ b)
text_eq_iff a b = (text_eq_sound a b, λ e. ground (arith, text_eq_refl a))

-- `bool(s)`
abbrev pub nonempty {ℓ} : {A : Type ℓ} → List A → Bool
nonempty [] = false
nonempty (_ ∷ _) = true

-- `bool(s)` where `s` may be `None`
abbrev pub truthy : Option Text → Bool
truthy none = false
truthy (some s) = nonempty s

-- the white space beyond ASCII
abbrev is_wide_space : ℕ → Bool
is_wide_space c =
    c == 133
    || c == 160
    || c == 5760
    || (leb 8192 c && leb c 8202)
    || c == 8232
    || c == 8233
    || c == 8239
    || c == 8287
    || c == 12288

-- `c.isspace()`
unfoldable pub is_space : ℕ → Bool
is_space c =
    c == 32 || (leb 9 c && leb c 13) || (leb 28 c && leb c 31) || (leb 133 c && is_wide_space c)

unfoldable pub lstrip : Text → Text
unfolding is_space
lstrip [] = []
lstrip (c ∷ s) = let rest = lstrip s in if is_space c then rest else c ∷ s

unfoldable pub strip : Text → Text
unfolding lstrip
strip s = reverse (lstrip (reverse (lstrip s)))

unfoldable pub is_digit : ℕ → Bool
is_digit c = leb 48 c && leb c 57

-- `s.isdigit()`
unfoldable pub isdigit : Text → Bool
unfolding is_digit
isdigit s = nonempty s && all is_digit s

unfoldable pub lower_char : ℕ → ℕ
lower_char c = if leb 65 c && leb c 90 then c + 32 else c

unfoldable pub upper_char : ℕ → ℕ
upper_char c = if leb 97 c && leb c 122 then c - 32 else c

unfoldable pub lower : Text → Text
unfolding lower_char
lower s = map lower_char s

pub lower-append : (a b : Text) → lower (a ++ b) ≡ lower a ++ lower b
unfolding lower
lower-append [] b = refl
lower-append (c ∷ a) b = ap (◌∷◌ (lower_char c)) (lower-append a b)

unfoldable pub upper : Text → Text
unfolding upper_char
upper s = map upper_char s

-- `s.title()`: a letter is upper-cased after a character that is no letter, else lower-cased
title_from : Bool → Text → Text
unfolding lower_char upper_char
title_from inside [] = []
title_from inside (c ∷ s) =
    let letter = (leb 65 c && leb c 90) || (leb 97 c && leb c 122) in
    (if inside then lower_char c else upper_char c) ∷ title_from letter s

unfoldable pub title : Text → Text
unfolding title_from
title s = title_from false s

-- `s.replace(a, b)` for single characters
unfoldable pub replace_char : ℕ → ℕ → Text → Text
replace_char a b s = map (λ c. if c == a then b else c) s

-- `s.startswith(p)`
unfoldable pub starts_with : Text → Text → Bool
starts_with s [] = true
starts_with [] (_ ∷ _) = false
starts_with (c ∷ s) (d ∷ p) = (c == d) && starts_with s p

-- what follows a prefix (`none` where the text does not begin with it)
unfoldable pub after_prefix : Text → Text → Option Text
after_prefix [] s = some s
after_prefix (_ ∷ _) [] = none
after_prefix (d ∷ p) (c ∷ s) = if c == d then after_prefix p s else none

-- `needle in s`
unfoldable pub contains : Text → Text → Bool
unfolding starts_with
contains needle [] = starts_with [] needle
contains needle (c ∷ s) = starts_with (c ∷ s) needle || contains needle s

-- `s.split(sep)` at a single character; `cur` is the part read so far, reversed
unfoldable pub split_from : ℕ → Text → Text → List Text
split_from sep cur [] = reverse cur ∷ []
split_from sep cur (c ∷ s) =
    let closed = reverse cur ∷ split_from sep [] s in
    let longer = split_from sep (c ∷ cur) s in if c == sep then closed else longer

unfoldable pub split : ℕ → Text → List Text
unfolding split_from
split sep s = split_from sep [] s

split_from-append :
    (sep : ℕ) (cur a b : Text)
    → split_from sep cur (a ++ sep ∷ b) ≡ split_from sep cur a ++ split_from sep [] b
unfolding split_from
split_from-append sep cur [] b = ground arith
split_from-append sep cur (c ∷ a) b = elim (Bool-cases (c == sep)) [
  | inl cut_here ↦ rw cut_here (ap (◌∷◌ (reverse cur)) (split_from-append sep [] a b))
  | inr inside ↦ rw inside (split_from-append sep (c ∷ cur) a b)
]

-- what stands before a separator does not change how the rest is split
pub split-append : (sep : ℕ) (a b : Text) → split sep (a ++ sep ∷ b) ≡ split sep a ++ split sep b
unfolding split
split-append sep a b = split_from-append sep [] a b

split_from_whole :
    (sep : ℕ) (cur s : Text)
    → all (λ c. not (c == sep)) s ≡ true
    → split_from sep cur s ≡ (reverse cur ++ s) ∷ []
unfolding split_from
split_from_whole sep cur [] h = ap (λ t. t ∷ []) (sym (append-nil (reverse cur)))
split_from_whole sep cur (c ∷ s) h =
    let other : (c == sep) ≡ false = ground arith in
    let e : reverse (c ∷ cur) ++ s ≡ reverse cur ++ c ∷ s =
      ap (λ r. r ++ s) (reverse-cons c cur) ∙ append_assoc (reverse cur) (c ∷ []) s in
    rw other (split_from_whole sep (c ∷ cur) s (ground arith) ∙ ap (λ t. t ∷ []) e)

-- a text without the separator is one part
pub split_whole : (sep : ℕ) (s : Text) → all (λ c. not (c == sep)) s ≡ true → split sep s ≡ s ∷ []
unfolding split
split_whole sep s h = split_from_whole sep [] s h

-- `s.partition(sep)` at a single character, less the separator: the part before it, and what
-- follows it (`none` where there is no separator)
unfoldable pub cut : ℕ → Text → Text × Option Text
cut sep [] = ([], none)
cut sep (c ∷ s) = let (a, b) = cut sep s in if c == sep then ([], some s) else (c ∷ a, b)

-- `s.split()`: the runs of characters that are no space; `cur` is the run read so far, reversed
words_from : Text → Text → List Text
unfolding is_space
words_from [] [] = []
words_from (d ∷ cur) [] = reverse (d ∷ cur) ∷ []
words_from cur (c ∷ s) =
    let closed = words_from [] s in
    let longer = words_from (c ∷ cur) s in
    if is_space c then (if nonempty cur then reverse cur ∷ closed else closed) else longer

unfoldable pub words : Text → List Text
unfolding words_from
words s = words_from [] s

prepend_if :
    (cur : Text) (ws vs : List Text)
    → (if nonempty cur then reverse cur ∷ (ws ++ vs) else ws ++ vs)
      ≡ (if nonempty cur then reverse cur ∷ ws else ws) ++ vs
prepend_if [] ws vs = refl
prepend_if (c ∷ cur) ws vs = refl

words_from-append :
    (cur a b : Text) → words_from cur (a ++ 32 ∷ b) ≡ words_from cur a ++ words_from [] b
unfolding words_from
words_from-append [] [] b = ground arith
words_from-append (d ∷ cur) [] b = ground arith
words_from-append cur (c ∷ a) b =
    let inner = words_from-append [] a b in
    let longer = words_from-append (c ∷ cur) a b in
    elim (Bool-cases (is_space c)) [
      | inl gap ↦ rw (gap, inner) (prepend_if cur _ _)
      | inr letter ↦ rw letter longer
    ]

-- a space splits the words before it from those behind it
pub words-append : (a b : Text) → words (a ++ 32 ∷ b) ≡ words a ++ words b
unfolding words
words-append a b = words_from-append [] a b

-- `sep.join(parts)` for a separator of one character
unfoldable pub join : ℕ → List Text → Text
join sep [] = []
join sep (a ∷ []) = a
join sep (a ∷ b ∷ parts) = a ++ sep ∷ join sep (b ∷ parts)

-- `a < b`
unfoldable pub text_ltb : Text → Text → Bool
text_ltb a [] = false
text_ltb [] (_ ∷ _) = true
text_ltb (c ∷ a) (d ∷ b) = ltb c d || ((c == d) && text_ltb a b)

-- a line boundary of `str.splitlines`
unfoldable pub is_line_break : ℕ → Bool
is_line_break c =
    (leb 10 c && leb c 13) || (leb 28 c && leb c 30) || (c == 133) || (c == 8232) || (c == 8233)

-- `cur` is the line read so far, reversed; `after_return` says that a "\r" has just ended a line
lines_from : (after_return : Bool) → Text → Text → List Text
unfolding is_line_break
lines_from after_return cur [] = if nonempty cur then reverse cur ∷ [] else []
lines_from after_return cur (c ∷ s) =
    let skip = lines_from false cur s in
    let closed = lines_from (c == 13) [] s in
    let longer = lines_from false (c ∷ cur) s in
    if after_return && (c == 10)
    then skip
    else if is_line_break c
    then reverse cur ∷ closed
    else longer

-- `s.splitlines()`
unfoldable pub splitlines : Text → List Text
unfolding lines_from
splitlines s = lines_from false [] s

lines_from-append :
    (cur line rest : Text)
    → all (λ c. not (is_line_break c)) line ≡ true
    → lines_from false cur (line ++ 10 ∷ rest) ≡ (reverse cur ++ line) ∷ lines_from false [] rest
unfolding lines_from is_line_break
lines_from-append cur [] rest h = rw (append-nil (reverse cur)) refl
lines_from-append cur (c ∷ line) rest h =
    let inside : is_line_break c ≡ false = ground arith in
    let e : reverse (c ∷ cur) ++ line ≡ reverse cur ++ c ∷ line =
      ap (λ r. r ++ line) (reverse-cons c cur) ∙ append_assoc (reverse cur) (c ∷ []) line in
    rw inside (
      lines_from-append (c ∷ cur) line rest (ground arith)
      ∙ ap (λ l. l ∷ lines_from false [] rest) e)

-- a first line without a boundary in it
pub splitlines-append :
    (line rest : Text)
    → all (λ c. not (is_line_break c)) line ≡ true
    → splitlines (line ++ 10 ∷ rest) ≡ line ∷ splitlines rest
unfolding splitlines
splitlines-append line rest h = lines_from-append [] line rest h

lstrip_of_solid : (s : Text) → all (λ c. not (is_space c)) s ≡ true → lstrip s ≡ s
unfolding lstrip
lstrip_of_solid [] h = refl
lstrip_of_solid (c ∷ s) h = ground arith

-- a text without a space in it
pub strip_of_solid : (s : Text) → all (λ c. not (is_space c)) s ≡ true → strip s ≡ s
unfolding strip
strip_of_solid s h =
    ap (λ t. reverse (lstrip (reverse t))) (lstrip_of_solid s h)
    ∙ ap reverse (lstrip_of_solid (reverse s) (all-reverse _ s h))
    ∙ reverse-reverse s
