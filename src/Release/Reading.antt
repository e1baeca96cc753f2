-- ===== src/Release/Reading.antt =====
-- A version that is written is read back.
use openvpn_connect_web.Release.{Version, parse, show_version, of_parts, without_v}
use openvpn_connect_web.Prelude.Text.{
  Text, is_digit, is_space, isdigit, split, split-append, split_whole, strip_of_solid,
}
use openvpn_connect_web.Prelude.{
  [], all, all-append, all_weaken, arith, false, not, refl, some, true, ℕ, ◌++◌, ◌==◌, ◌∙◌, ◌∷◌,
  ◌≡◌, ap,
}
use openvpn_connect_web.Prelude.Number.{decimal-show_number, isdigit-show_number, show_number}

-- what is not written in a number
isdigit_apart :
    (c : ℕ) → is_digit c ≡ false → (s : Text) → isdigit s ≡ true → all (λ d. not (d == c)) s ≡ true
unfolding isdigit is_digit
isdigit_apart c off s h =
    all_weaken is_digit (λ d. not (d == c)) (λ d digit. ground (arith, digit, off)) s (ground arith)

isdigit-solid : (s : Text) → isdigit s ≡ true → all (λ c. not (is_space c)) s ≡ true
unfolding isdigit is_digit is_space
isdigit-solid s h =
    all_weaken is_digit (λ c. not (is_space c)) (λ d digit. ground (arith, digit)) s (ground arith)

without_v_of_digits : (s t : Text) → isdigit s ≡ true → without_v (s ++ t) ≡ s ++ t
unfolding isdigit is_digit
without_v_of_digits [] t h = cc h
without_v_of_digits (c ∷ s) t h = let digit : (c == b'v') ≡ false = ground arith in rw digit refl

dot_is_no_digit : is_digit 46 ≡ false
unfolding is_digit
dot_is_no_digit = refl

split_numbers :
    (a b c : Text)
    → isdigit a ≡ true
    → isdigit b ≡ true
    → isdigit c ≡ true
    → split 46 (a ++ 46 ∷ (b ++ 46 ∷ c)) ≡ a ∷ b ∷ c ∷ []
split_numbers a b c ha hb hc =
    let no_dot : is_digit 46 ≡ false = dot_is_no_digit in
    let whole : (s : Text) → isdigit s ≡ true → split 46 s ≡ s ∷ [] =
      λ s h. split_whole 46 s (isdigit_apart 46 no_dot s h) in
    split-append 46 a (b ++ 46 ∷ c)
    ∙ rw (split-append 46 b c, whole a ha, whole b hb, whole c hc) refl

solid_version :
    (a b c : Text)
    → isdigit a ≡ true
    → isdigit b ≡ true
    → isdigit c ≡ true
    → all (λ d. not (is_space d)) (a ++ 46 ∷ (b ++ 46 ∷ c)) ≡ true
unfolding is_space
solid_version a b c ha hb hc =
    all-append _ a (46 ∷ (b ++ 46 ∷ c))
    ∙ rw
        (
          isdigit-solid a ha,
          all-append (λ d. not (is_space d)) b (46 ∷ c),
          isdigit-solid b hb,
          isdigit-solid c hc,
        )
        refl

pub parse-show_version : (v : Version) → parse (show_version v) ≡ some v
unfolding parse show_version
parse-show_version v =
    let a = isdigit-show_number v.major in
    let b = isdigit-show_number v.minor in
    let c = isdigit-show_number v.patch in
    let x = show_number v.major in
    let y = show_number v.minor in
    let z = show_number v.patch in
    let rest : Text = 46 ∷ (show_number v.minor ++ 46 ∷ show_number v.patch) in
    ap (λ t. of_parts (split 46 (without_v t)))
      (strip_of_solid (x ++ rest) (solid_version x y z a b c))
    ∙ ap (λ t. of_parts (split 46 t)) (without_v_of_digits (show_number v.major) rest a)
    ∙ ap of_parts (split_numbers x y z a b c)
    ∙ rw
        (
          a,
          b,
          c,
          decimal-show_number v.major,
          decimal-show_number v.minor,
          decimal-show_number v.patch,
        )
        refl
