-- ===== src/Release.antt =====
-- The number of the next release (tools/next_version.py). An error is `none`.
use mathlib.Core.Option
pub mod Reading
pub mod Forward
mod Tests
use openvpn_connect_web.Prelude.{
  Bool, List, Option, [], if◌then◌else◌, ltb, none, not, some, ℕ, ◌&&◌, ◌++◌, ◌+◌, ◌==◌, ◌>>=◌,
  ◌||◌, ◌∷◌,
}
use openvpn_connect_web.Prelude.Text.{Text, isdigit, split, strip}
use openvpn_connect_web.Prelude.Number.{decimal, show_number}

pub record Version : Type 0 where
  pub major : ℕ
  pub minor : ℕ
  pub patch : ℕ

-- the order of tuples
abbrev pub is_before : Version → Version → Bool
is_before a b =
    ltb a.major b.major
    || ((a.major == b.major)
        && (ltb a.minor b.minor || ((a.minor == b.minor) && ltb a.patch b.patch)))

-- `VERSION.match`, of the parts between the dots
abbrev pub of_parts : List Text → Option Version
of_parts (a ∷ b ∷ c ∷ []) =
    if isdigit a && isdigit b && isdigit c
    then some (record { major = decimal a; minor = decimal b; patch = decimal c })
    else none
of_parts _ = none

-- `.removeprefix("v")`
abbrev pub without_v : Text → Text
without_v [] = []
without_v (c ∷ s) = if c == b'v' then s else c ∷ s

unfoldable pub parse : Text → Option Version
unfolding strip split isdigit decimal
parse value = of_parts (split 46 (without_v (strip value)))

-- ".".join(str(part) for part in version)
unfoldable pub show_version : Version → Text
unfolding show_number
show_version v = show_number v.major ++ 46 ∷ (show_number v.minor ++ 46 ∷ show_number v.patch)

abbrev pub larger : Version → Option Version → Version
larger a none = a
larger a (some b) = if is_before a b then b else a

-- `max` of the tags that are versions
abbrev pub with_tag : Option Version → Option Version → Option Version
with_tag none best = best
with_tag (some v) best = some (larger v best)

unfoldable pub greatest : List Text → Option Version
unfolding parse
greatest [] = none
greatest (tag ∷ tags) = with_tag (parse tag) (greatest tags)

unfoldable pub highest : List Text → Option Text
unfolding greatest show_version
highest tags = Option.map show_version (greatest tags)

pub data Part : Type 0 where
  major_part minor_part patch_part : Part

abbrev pub bumped : Part → Version → Version
bumped major_part v = record { major = v.major + 1; minor = 0; patch = 0 }
bumped minor_part v = record { major = v.major; minor = v.minor + 1; patch = 0 }
bumped patch_part v = record { major = v.major; minor = v.minor; patch = v.patch + 1 }

unfoldable pub bump : Text → Part → Option Text
unfolding parse show_version
bump version part = Option.map (λ v. show_version (bumped part v)) (parse version)

-- `parse(chosen) <= parse(previous)`
abbrev pub is_not_ahead : Version → Version → Bool
is_not_ahead chosen previous = not (is_before previous chosen)

abbrev pub resolve_explicit : Text → Option Text → Option (Text × Option Text)
resolve_explicit chosen none = some (chosen, none)
resolve_explicit chosen (some previous) = do
  c ← parse chosen
  p ← parse previous
  if is_not_ahead c p then none else some (chosen, some previous)

abbrev pub resolve_bump : Part → Text → Option Text → Option (Text × Option Text)
resolve_bump part seed none = some (seed, none)
resolve_bump part seed (some previous) =
    Option.map (λ next. (next, some previous)) (bump previous part)

-- the next version and the one before it
unfoldable pub resolve :
    List Text → Part → (seed : Text) → (explicit : Option Text) → Option (Text × Option Text)
unfolding highest bump
resolve tags part seed none = resolve_bump part seed (highest tags)
resolve tags part seed (some []) = resolve_bump part seed (highest tags)
resolve tags part seed (some (c ∷ s)) = do
  v ← parse (c ∷ s)
  resolve_explicit (show_version v) (highest tags)
