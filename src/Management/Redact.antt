-- ===== src/Management/Redact.antt =====
-- `redact` and `_quote` of app/services/management.py.
use openvpn_connect_web.Prelude.{
  ℕ, zero, suc, ◌+◌, Bool, false, not, ◌&&◌, ◌||◌, Option, none, some, [], ◌∷◌, ◌++◌, reverse, ◌==◌,
  if◌then◌else◌, length, drop,
}
use openvpn_connect_web.Prelude.Text.{
  Text, text, starts_with, contains, lower, strip, lstrip, is_space, cut,
}

-- the part of a text up to its first space, and what follows from that space on
unfoldable pub break_space : Text → Text × Text
unfolding is_space
break_space [] = ([], [])
break_space (c ∷ s) = let (a, b) = break_space s in if is_space c then ([], c ∷ s) else (c ∷ a, b)

-- `\s+"`: at least one space, then a quotation mark; the text behind it
spaces_quote : Text → Option Text
unfolding is_space lstrip
spaces_quote [] = none
spaces_quote (c ∷ s) =
    if is_space c
    then elim (lstrip s) [ [] ↦ none | d ∷ rest ↦ if d == b'"' then some rest else none ]
    else none

-- `.*"$`, on a text without line ends
ends_quoted : Text → Bool
ends_quoted s = elim (reverse s) [ [] ↦ false | c ∷ rest ↦ c == b'"' ]

-- the rest of `_REDACTED` behind the verb: `\s+"[^"]*"\s+".*"$`
quoted_pair : Text → Bool
unfolding spaces_quote ends_quoted cut
quoted_pair s = elim (spaces_quote s) [
  | none ↦ false
  | some realm ↦ elim (cut b'"' realm).1 [
    | none ↦ false
    | some rest ↦ elim (spaces_quote rest) [ none ↦ false | some secret ↦ ends_quoted secret ]
  ]
]

-- `_REDACTED.match`
unfoldable pub is_secret_command : Text → Bool
unfolding quoted_pair lower starts_with
is_secret_command s =
    (starts_with (lower s) (text "password") || starts_with (lower s) (text "username"))
    && quoted_pair (drop 8 s)

-- `re.sub(r"SCRV1:\S+", "SCRV1:[redacted]", …)`: the first argument is how many characters of a
-- match, which has been replaced, are still to be dropped
unfoldable pub redact_scrv1_from : ℕ → Text → Text
unfolding starts_with lower break_space
redact_scrv1_from skip [] = []
redact_scrv1_from (suc skip) (c ∷ s) = redact_scrv1_from skip s
redact_scrv1_from zero (c ∷ s) =
    let run = length (break_space (drop 5 s)).0 in
    let kept = redact_scrv1_from zero s in
    let dropped = redact_scrv1_from (5 + run) s in
    if starts_with (lower (c ∷ s)) (text "scrv1:") && not (run == 0)
    then text "SCRV1:[redacted]" ++ dropped
    else c ∷ kept

unfoldable pub redact : Text → Text
unfolding is_secret_command redact_scrv1_from contains strip
redact line =
    if is_secret_command (strip line)
    then (break_space (strip line)).0 ++ text " [redacted]"
    else if contains (text "auth-user-pass") (lower line) || contains (text "scrv1:") (lower line)
    then redact_scrv1_from zero line
    else line

-- `value.replace("\\", "\\\\").replace('"', '\\"')`
unfoldable pub quote : Text → Text
quote [] = []
quote (c ∷ s) =
    if c == b'\\'
    then b'\\' ∷ b'\\' ∷ quote s
    else if c == b'"'
    then b'\\' ∷ b'"' ∷ quote s
    else c ∷ quote s
