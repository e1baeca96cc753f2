-- ===== src/Deploy/Env.antt =====
-- What is said of a damaged environment file, against the keys that its lines assign.
use openvpn_connect_web.Deploy.{
  read_lines, read_line, DriftItem, Tally, assigned, env_damaged, is_passed_over, key_of,
  env_file_damage,
}
use openvpn_connect_web.Prelude.{
  Bool, Bool-cases, List, Option, [], count, if◌then◌else◌, inl, inr, is_some, leb, none, not, refl,
  some, ℕ, ◌&&◌, ◌+◌, ◌∷◌, ◌≡◌, ap, arith, count-append, count-sort, false, sort, sym, true, ◌++◌,
  ◌==◌, ◌∙◌,
}
use openvpn_connect_web.Prelude.Text.{
  Text, strip, text_eq, nonempty, splitlines, text_eq_sound, text_ltb,
}
use openvpn_connect_web.Login.Tally.{same}

-- the keys in the order of their lines, and the lines that assign nothing
abbrev pub keys_of : List Text → List Text
keys_of [] = []
keys_of (line ∷ lines) =
    if is_passed_over (strip line)
    then keys_of lines
    else elim (key_of (strip line)) [ none ↦ keys_of lines | some key ↦ key ∷ keys_of lines ]

abbrev pub is_junk : Text → Bool
is_junk line = not (is_passed_over (strip line)) && not (is_some (key_of (strip line)))

-- what an item says of the file
abbrev pub repeated_of : Option DriftItem → List Text
repeated_of (some (env_damaged repeated junk)) = repeated
repeated_of _ = []

abbrev pub junk_of : Option DriftItem → ℕ
junk_of (some (env_damaged repeated junk)) = junk
junk_of _ = 0

abbrev twice : ℕ → ℕ
twice n = if leb 2 n then 1 else 0

module _ (k : Text) where
  times : List Text → ℕ
  times keys = count (text_eq k) keys

  once_more :
      (repeated : List Text) (key : Text) (n : ℕ) (second : Bool)
      → second ≡ (n == 1)
      → times repeated ≡ twice n
      → text_eq k key ≡ true
      → times (if second then repeated ++ key ∷ [] else repeated)
        ≡ twice ((if text_eq k key then 1 else 0) + n)
  unfolding times
  once_more repeated key n true e h same =
      rw (count-append (text_eq k) repeated (key ∷ []), same) (ground (arith, e, h))
  once_more repeated key n false e h same = rw same (ground (arith, e, h))

  unlike :
      (repeated : List Text) (key : Text) (n : ℕ) (second : Bool)
      → times repeated ≡ twice n
      → text_eq k key ≡ false
      → times (if second then repeated ++ key ∷ [] else repeated)
        ≡ twice ((if text_eq k key then 1 else 0) + n)
  unfolding times
  unlike repeated key n true h other =
      rw (count-append (text_eq k) repeated (key ∷ []), other) (ground (arith, h))
  unlike repeated key n false h other = rw other (ground (arith, h))

  assigned-twice :
      (key : Text) (t : Tally)
      → times t.repeated ≡ twice (times t.keys)
      → times (assigned (some key) t).repeated ≡ twice (times (assigned (some key) t).keys)
  unfolding times
  assigned-twice key t h = elim (Bool-cases (text_eq k key)) [
    | inl same ↦
        let swap : count (text_eq key) t.keys ≡ times t.keys =
          ap (λ x. count (text_eq x) t.keys) (sym (text_eq_sound k key same)) in
        once_more t.repeated key (times t.keys) (count (text_eq key) t.keys == 1)
          (ap (λ n. n == 1) swap) h same
    | inr other ↦ unlike t.repeated key (times t.keys) (count (text_eq key) t.keys == 1) h other
  ]

  -- one line, passed over or with a key or neither
  stepped-twice :
      (passed : Bool) (o : Option Text) (lines : List Text) (t : Tally)
      → ((u : Tally)
          → times u.repeated ≡ twice (times u.keys)
          → times (read_lines lines u).repeated ≡ twice (times (keys_of lines) + times u.keys))
      → times t.repeated ≡ twice (times t.keys)
      → times (read_lines lines (if passed then t else assigned o t)).repeated
        ≡ twice (
            times (
              if passed
              then keys_of lines
              else elim o [ none ↦ keys_of lines | some key ↦ key ∷ keys_of lines ])
            + times t.keys)
  unfolding times
  stepped-twice true o lines t rest h = rest t h
  stepped-twice false none lines t rest h = rest (assigned none t) h
  stepped-twice false (some key) lines t rest h =
      rest (assigned (some key) t) (assigned-twice key t h) ∙ ap twice (omega arith)

  read_lines-twice :
      (lines : List Text) (t : Tally)
      → times t.repeated ≡ twice (times t.keys)
      → times (read_lines lines t).repeated ≡ twice (times (keys_of lines) + times t.keys)
  unfolding read_lines read_line times
  read_lines-twice [] t h = h ∙ ap twice (omega arith)
  read_lines-twice (line ∷ lines) t h =
      stepped-twice (is_passed_over (strip line)) (key_of (strip line)) lines t
        (read_lines-twice lines) h

stepped-junk :
    (passed : Bool) (o : Option Text) (lines : List Text) (t : Tally)
    → ((u : Tally) → (read_lines lines u).junk ≡ count is_junk lines + u.junk)
    → (read_lines lines (if passed then t else assigned o t)).junk
      ≡ (if not passed && not (is_some o) then 1 else 0) + count is_junk lines + t.junk
stepped-junk true o lines t rest = rest t ∙ omega arith
stepped-junk false none lines t rest = rest (assigned none t) ∙ omega arith
stepped-junk false (some key) lines t rest = rest (assigned (some key) t) ∙ omega arith

read_lines-junk :
    (lines : List Text) (t : Tally) → (read_lines lines t).junk ≡ count is_junk lines + t.junk
unfolding read_lines read_line
read_lines-junk [] t = omega arith
read_lines-junk (line ∷ lines) t =
    stepped-junk (is_passed_over (strip line)) (key_of (strip line)) lines t (read_lines-junk lines)

damage-cases :
    (repeated : List Text) (junk : ℕ) (sorted : List Text) (p : Text → Bool)
    → count p sorted ≡ count p repeated
    → let item =
        (if not (nonempty repeated) && (junk == 0) then none else some (env_damaged sorted junk)) in
      (count p (repeated_of item) ≡ count p repeated) × (junk_of item ≡ junk)
damage-cases [] junk sorted p h = elim (Bool-cases (junk == 0)) [
  | inl clean ↦ rw clean (refl, ground (arith, clean))
  | inr damaged ↦ rw damaged (h, refl)
]
damage-cases (key ∷ repeated) junk sorted p h = (h, refl)

-- Of an environment file that can be read, the keys said to be repeated are those that at least two of
-- its lines assign, each said once, and the number of lines said to be no settings is that of the
-- lines that are neither blank, nor comments, nor assignments. Where nothing is reported, there is
-- neither.
pub env_file_damage-keys :
    (content k : Text)
    → (count (text_eq k) (repeated_of (env_file_damage (some content)))
        ≡ (if leb 2 (count (text_eq k) (keys_of (splitlines content))) then 1 else 0))
      × (junk_of (env_file_damage (some content)) ≡ count is_junk (splitlines content))
unfolding env_file_damage times
env_file_damage-keys content k =
    let start : Tally = record { keys = []; repeated = []; junk = 0 } in
    let t = read_lines (splitlines content) start in
    let (keys_said, junk_said) =
      damage-cases t.repeated t.junk (sort (λ a b. not (text_ltb b a)) t.repeated) (text_eq k)
        (count-sort (λ a b. not (text_ltb b a)) (text_eq k) t.repeated) in
    (
      keys_said
          ∙ read_lines-twice k (splitlines content) start (ground arith)
          ∙ ap twice (omega arith),
      junk_said ∙ read_lines-junk (splitlines content) start ∙ omega arith,
    )
