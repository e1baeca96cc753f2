-- ===== src/Release/Forward.antt =====
-- A release is ahead of every tag.
use mathlib.Core.Option
use openvpn_connect_web.Release.{
  Version, parse, show_version, greatest, highest, resolve, resolve_bump, resolve_explicit, bump,
  bumped, is_before, with_tag, Part, major_part, minor_part, patch_part,
}
use openvpn_connect_web.Release.Reading.{parse-show_version}
use openvpn_connect_web.Prelude.{
  All, Bool-cases, List, Option, [], ap, arith, false, inl, inr, none, some, sym, true, ◌∙◌, ◌∷◌,
  ◌≡◌, Bool, ltb, refl, ℕ, ◌&&◌, ◌<◌, ◌==◌, ◌||◌, ◌⊎◌, bind-eq-some, or-true,
}
use openvpn_connect_web.Prelude.Text.{Text}

-- one place of a lexicographic order, by the test that it is and by what it says
abbrev lex : ℕ → ℕ → Bool → Bool
lex x y p = ltb x y || ((x == y) && p)

lex-cases : (x y : ℕ) (p : Bool) → lex x y p ≡ true → (x < y) ⊎ ((x ≡ y) × (p ≡ true))
lex-cases x y p h = elim (Bool-cases (ltb x y)) [
  | inl less ↦ inl (ground arith)
  | inr not_less ↦
      let same : ((x == y) && p) ≡ true = rw not_less at h in inr (ground arith, ground arith)
]

lex_less : (x y : ℕ) (p : Bool) → x < y → lex x y p ≡ true
lex_less x y p h = let less : ltb x y ≡ true = ground arith in rw less refl

lex_same : (x y : ℕ) (p : Bool) → x ≡ y → p ≡ true → lex x y p ≡ true
lex_same x y p e h = let same : (x == y) ≡ true = ground arith in rw (same, h) (or-true (ltb x y))

lex_trans :
    (x y z : ℕ) (p q r : Bool)
    → lex x y p ≡ true
    → lex y z q ≡ true
    → (p ≡ true → q ≡ true → r ≡ true)
    → lex x z r ≡ true
lex_trans x y z p q r h k f = elim (lex-cases x y p h) [
  | inl less ↦ elim (lex-cases y z q k) [
    | inl less' ↦ lex_less x z r (omega (arith, less, less'))
    | inr (same', hq) ↦ lex_less x z r (omega (arith, less, same'))
  ]
  | inr (same, hp) ↦ elim (lex-cases y z q k) [
    | inl less' ↦ lex_less x z r (omega (arith, same, less'))
    | inr (same', hq) ↦ lex_same x z r (same ∙ same') (f hp hq)
  ]
]

is_before_trans :
    (a b c : Version) → is_before a b ≡ true → is_before b c ≡ true → is_before a c ≡ true
is_before_trans a b c h k =
    lex_trans a.major b.major c.major _ _ _ h k
      (λ h' k'. lex_trans a.minor b.minor c.minor _ _ _ h' k' (λ h'' k''. ground (arith, h'', k'')))

-- of two versions one is before the other, or they are one
lex-total : (x y : ℕ) (p : Bool) → lex x y p ≡ false → (y < x) ⊎ ((x ≡ y) × (p ≡ false))
lex-total x y p h = elim (Bool-cases (ltb y x)) [
  | inl more ↦ inl (ground arith)
  | inr not_more ↦
      let same : x ≡ y = ground arith in
      let same_test : (x == y) ≡ true = ground arith in
      let less : ltb x y ≡ false = ground arith in inr (same, rw (less, same_test) at h)
]

lex-not_after :
    (x y z : ℕ) (p q r : Bool)
    → lex y x p ≡ false
    → lex y z q ≡ true
    → (p ≡ false → q ≡ true → r ≡ true)
    → lex x z r ≡ true
lex-not_after x y z p q r h k f = elim (lex-total y x p h) [
  | inl less ↦ elim (lex-cases y z q k) [
    | inl less' ↦ lex_less x z r (omega (arith, less, less'))
    | inr (same', hq) ↦ lex_less x z r (omega (arith, less, same'))
  ]
  | inr (same, hp) ↦ elim (lex-cases y z q k) [
    | inl less' ↦ lex_less x z r (omega (arith, same, less'))
    | inr (same', hq) ↦ lex_same x z r (sym same ∙ same') (f hp hq)
  ]
]

is_before-not_after :
    (a b c : Version) → is_before b a ≡ false → is_before b c ≡ true → is_before a c ≡ true
is_before-not_after a b c h k = lex-not_after a.major b.major c.major _ _ _ h k (λ h' k'.
    lex-not_after a.minor b.minor c.minor _ _ _ h' k' (λ h'' k''. ground (arith, h'', k'')))

-- before this version, where it is one at all
abbrev pub IsBehind : Version → Option Version → Type 0
IsBehind v none = Unit
IsBehind v (some u) = is_before u v ≡ true

with_tag-IsBehind :
    (v : Version) (o best : Option Version)
    → IsBehind v (with_tag o best)
    → IsBehind v o × IsBehind v best
with_tag-IsBehind v none best h = (tt, h)
with_tag-IsBehind v (some a) none h = (h, tt)
with_tag-IsBehind v (some a) (some b) h = elim (Bool-cases (is_before a b)) [
  | inl less ↦
      let above : is_before b v ≡ true = rw less at h in (is_before_trans a b v less above, above)
  | inr more ↦
      let above : is_before a v ≡ true = rw more at h in
      (above, is_before-not_after b a v more above)
]

All-IsBehind :
    (v : Version) (tags : List Text)
    → IsBehind v (greatest tags)
    → All (λ tag. IsBehind v (parse tag)) tags
unfolding greatest
All-IsBehind v [] h = tt
All-IsBehind v (tag ∷ tags) h =
    let (this, rest) = with_tag-IsBehind v (parse tag) (greatest tags) h in
    (this, All-IsBehind v tags rest)

ahead_of_bump : (part : Part) (g : Version) → is_before g (bumped part g) ≡ true
ahead_of_bump major_part g = ground arith
ahead_of_bump minor_part g = ground arith
ahead_of_bump patch_part g = ground arith

-- a text that is a version, ahead of the greatest there is
abbrev IsAheadOf : Option Version → Text → Type 0
IsAheadOf best chosen = (v : Version) × (parse chosen ≡ some v) × IsBehind v best

bump-IsAheadOf :
    (part : Part) (seed : Text) (first : Version) (best : Option Version) (chosen : Text)
    (previous : Option Text)
    → parse seed ≡ some first
    → resolve_bump part seed (Option.map show_version best) ≡ some (chosen, previous)
    → IsAheadOf best chosen
unfolding bump
bump-IsAheadOf part seed first none chosen previous good_seed e =
    let named : seed ≡ chosen = cc e in (first, ap parse (sym named) ∙ good_seed, tt)
bump-IsAheadOf part seed first (some g) chosen previous good_seed e =
    let e' = rw (parse-show_version g) at e in
    let named : show_version (bumped part g) ≡ chosen = cc e' in
    (bumped part g, ap parse (sym named) ∙ parse-show_version (bumped part g), ahead_of_bump part g)

explicit-IsAheadOf :
    (v : Version) (best : Option Version) (chosen : Text) (previous : Option Text)
    → resolve_explicit (show_version v) (Option.map show_version best) ≡ some (chosen, previous)
    → IsAheadOf best chosen
explicit-IsAheadOf v none chosen previous e =
    let named : show_version v ≡ chosen = cc e in
    (v, ap parse (sym named) ∙ parse-show_version v, tt)
explicit-IsAheadOf v (some g) chosen previous e =
    let e' = rw (parse-show_version v, parse-show_version g) at e in
    elim (Bool-cases (is_before g v)) [
      | inl ahead ↦
          let named : show_version v ≡ chosen = cc (rw ahead at e') in
          (v, ap parse (sym named) ∙ parse-show_version v, ahead)
      | inr not_ahead ↦ cc (rw not_ahead at e')
    ]

-- Whatever is asked for, the version that comes out is one, and every tag that is a version is
-- before it, where the version that the project declares is one.
pub resolve-IsForward :
    (tags : List Text) (part : Part) (seed : Text) (first : Version) (explicit : Option Text)
    (chosen : Text) (previous : Option Text)
    → parse seed ≡ some first
    → resolve tags part seed explicit ≡ some (chosen, previous)
    → (v : Version) × (parse chosen ≡ some v) × All (λ tag. IsBehind v (parse tag)) tags
unfolding resolve highest
resolve-IsForward tags part seed first none chosen previous good_seed e =
    let (v, read, behind) =
      bump-IsAheadOf part seed first (greatest tags) chosen previous good_seed e in
    (v, read, All-IsBehind v tags behind)
resolve-IsForward tags part seed first (some []) chosen previous good_seed e =
    let (v, read, behind) =
      bump-IsAheadOf part seed first (greatest tags) chosen previous good_seed e in
    (v, read, All-IsBehind v tags behind)
resolve-IsForward tags part seed first (some (c ∷ s)) chosen previous good_seed e =
    let (u, asked, chose) = bind-eq-some (parse (c ∷ s)) _ e in
    let (v, read, behind) = explicit-IsAheadOf u (greatest tags) chosen previous chose in
    (v, read, All-IsBehind v tags behind)
