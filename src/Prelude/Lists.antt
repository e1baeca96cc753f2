-- ===== src/Prelude/Lists.antt =====
-- Lists measured by native numbers, under the library's names, and a predicate on all elements.
use Prim.Native.Nat.{◌<◌, ◌≤◌, ℕ, zero, suc, ◌+◌, ◌-◌, min}
use mathlib.Core.Path.{◌≡◌, refl, ap, sym, ◌∙◌}
use mathlib.Core.Bool.{Bool, true, false, ◌&&◌, ◌||◌}
use mathlib.Core.List.{map, List, [], ◌∷◌, ◌++◌, reverse, reverse-cons}
use mathlib.Core.Path.{subst}
use mathlib.Core.Option.{Option, none, some}
use mathlib.Core.Logic.{◌⊎◌, inl, inr}
use openvpn_connect_web.Prelude.Tests.{leb, Bool-cases, if◌then◌else◌}
use native.Mathlib.Omega.{arith}

module _ {ℓ} {A : Type ℓ} where
  abbrev pub length : List A → ℕ
  length [] = 0
  length (x ∷ xs) = suc (length xs)

  abbrev pub take : ℕ → List A → List A
  take zero xs = []
  take (suc n) [] = []
  take (suc n) (x ∷ xs) = x ∷ take n xs

  abbrev pub drop : ℕ → List A → List A
  drop zero xs = xs
  drop (suc n) [] = []
  drop (suc n) (x ∷ xs) = drop n xs

  -- `xs[-n:]` for n > 0: the newest n of a list that grows at its end
  abbrev pub take_last : ℕ → List A → List A
  take_last n xs = drop (length xs - n) xs

  abbrev pub any : (A → Bool) → List A → Bool
  any p [] = false
  any p (x ∷ xs) = p x || any p xs

  abbrev pub all : (A → Bool) → List A → Bool
  all p [] = true
  all p (x ∷ xs) = p x && all p xs

  pub List-cases : (xs : List A) → (xs ≡ []) ⊎ ((x : A) × (rest : List A) × (xs ≡ x ∷ rest))
  List-cases [] = inl refl
  List-cases (x ∷ xs) = inr (x, xs, refl)

  pub any-append : (p : A → Bool) (xs ys : List A) → any p (xs ++ ys) ≡ (any p xs || any p ys)
  any-append p [] ys = refl
  any-append p (x ∷ xs) ys = rw (any-append p xs ys) (ground arith)

  pub all-append : (p : A → Bool) (xs ys : List A) → all p (xs ++ ys) ≡ (all p xs && all p ys)
  all-append p [] ys = refl
  all-append p (x ∷ xs) ys = rw (all-append p xs ys) (ground arith)

  pub length-append : (xs ys : List A) → length (xs ++ ys) ≡ length xs + length ys
  length-append [] ys = omega arith
  length-append (x ∷ xs) ys = omega (arith, length-append xs ys)

  pub length-drop : (n : ℕ) (xs : List A) → length (drop n xs) ≡ length xs - n
  length-drop zero xs = omega arith
  length-drop (suc n) [] = omega arith
  length-drop (suc n) (x ∷ xs) = omega (arith, length-drop n xs)

  pub length-take : (n : ℕ) (xs : List A) → length (take n xs) ≡ min n (length xs)
  length-take zero xs = omega arith
  length-take (suc n) [] = omega arith
  length-take (suc n) (x ∷ xs) = omega (arith, length-take n xs)

  pub take-drop : (n : ℕ) (xs : List A) → take n xs ++ drop n xs ≡ xs
  take-drop zero xs = refl
  take-drop (suc n) [] = refl
  take-drop (suc n) (x ∷ xs) = ap (◌∷◌ x) (take-drop n xs)

  pub length-take_last : (n : ℕ) (xs : List A) → length (take_last n xs) ≡ min n (length xs)
  length-take_last n xs = omega (arith, length-drop (length xs - n) xs)

module _ {ℓ} {A : Type ℓ} where
  pub drop-nil : (n : ℕ) → ◌≡◌ {A = List A} (drop n []) []
  drop-nil zero = refl
  drop-nil (suc n) = refl

  -- the newest n where there are more, and all of them where there are not
  pub take_last-cons :
      (n : ℕ) (x : A) (xs : List A)
      → take_last n (x ∷ xs) ≡ (if leb n (length xs) then take_last n xs else x ∷ xs)
  take_last-cons n x xs = elim (Bool-cases (leb n (length xs))) [
    | inl more ↦
        let e : suc (length xs) - n ≡ suc (length xs - n) = ground arith in
        rw more (ap (λ k. drop k (x ∷ xs)) e)
    | inr few ↦
        let e : suc (length xs) - n ≡ 0 = ground arith in rw few (ap (λ k. drop k (x ∷ xs)) e)
  ]

  pub take_last_of_more :
      (n : ℕ) (x : A) (xs : List A) → n ≤ length xs → take_last n (x ∷ xs) ≡ take_last n xs
  take_last_of_more n x xs h = ground (arith, take_last-cons n x xs)

  -- Keeping the newest n of a part first changes nothing.
  pub take_last-append :
      (n : ℕ) (xs ys : List A) → take_last n (take_last n xs ++ ys) ≡ take_last n (xs ++ ys)
  take_last-append n [] ys = ap (λ zs. take_last n (zs ++ ys)) (drop-nil (0 - n))
  take_last-append n (x ∷ xs) ys = elim (Bool-cases (leb n (length xs))) [
    | inl more ↦
        let e = take_last_of_more n x xs (ground arith) in
        let e' = take_last_of_more n x (xs ++ ys) (ground (arith, length-append xs ys)) in
        ap (λ zs. take_last n (zs ++ ys)) e ∙ take_last-append n xs ys ∙ sym e'
    | inr few ↦
        ap (λ zs. take_last n (zs ++ ys))
          (take_last-cons n x xs ∙ ap (λ b. if b then take_last n xs else x ∷ xs) few)
  ]

module _ {ℓ κ} {A : Type ℓ} {B : Type κ} (f : A → B) where
  pub map-append : (xs ys : List A) → map f (xs ++ ys) ≡ map f xs ++ map f ys
  map-append [] ys = refl
  map-append (x ∷ xs) ys = ap (◌∷◌ (f x)) (map-append xs ys)

  pub length-map : (xs : List A) → length (map f xs) ≡ length xs
  length-map [] = refl
  length-map (x ∷ xs) = ap suc (length-map xs)

  pub map-take_last : (n : ℕ) (xs : List A) → map f (take_last n xs) ≡ take_last n (map f xs)
  map-take_last n [] = ap (map f) (drop-nil (0 - n)) ∙ sym (drop-nil (0 - n))
  map-take_last n (x ∷ xs) = elim (Bool-cases (leb n (length xs))) [
    | inl more ↦
        let e = take_last_of_more n x xs (ground arith) in
        let e' = take_last_of_more n (f x) (map f xs) (ground (arith, length-map xs)) in
        ap (map f) e ∙ map-take_last n xs ∙ sym e'
    | inr few ↦
        let k : length (map f (x ∷ xs)) - n ≡ 0 = ground (arith, length-map xs) in
        let j : length (x ∷ xs) - n ≡ 0 = ground arith in
        ap (λ i. map f (drop i (x ∷ xs))) j ∙ ap (λ i. drop i (map f (x ∷ xs))) (sym k)
  ]

module _ {ℓ κ} {A : Type ℓ} where
  abbrev pub All : (A → Type κ) → List A → Type κ
  All P [] = Unit
  All P (x ∷ xs) = P x × All P xs

  pub All-append : (P : A → Type κ) (xs ys : List A) → All P xs → All P ys → All P (xs ++ ys)
  All-append P [] ys hx hy = hy
  All-append P (x ∷ xs) ys hx hy = (hx.0, All-append P xs ys hx.1 hy)

  pub All-middle : (P : A → Type κ) (xs : List A) (y : A) (ys : List A) → All P (xs ++ y ∷ ys) → P y
  All-middle P [] y ys h = h.0
  All-middle P (x ∷ xs) y ys h = All-middle P xs y ys h.1

module _ {ℓ} {A : Type ℓ} where
  pub drop-append : (k : ℕ) (xs ys : List A) → k ≤ length xs → drop k (xs ++ ys) ≡ drop k xs ++ ys
  drop-append zero xs ys h = refl
  drop-append (suc k) [] ys h = ground arith
  drop-append (suc k) (x ∷ xs) ys h = drop-append k xs ys (ground arith)

  -- the newest n, where all of a last part are among them
  pub take_last-append_short :
      (n : ℕ) (xs ys : List A)
      → length ys ≤ n
      → take_last n (xs ++ ys) ≡ take_last (n - length ys) xs ++ ys
  take_last-append_short n xs ys h =
      let e : length (xs ++ ys) - n ≡ length xs - (n - length ys) =
        omega (arith, length-append xs ys) in
      ap (λ k. drop k (xs ++ ys)) e ∙ drop-append _ xs ys (omega arith)

  pub All-reverse {κ} : (P : A → Type κ) (xs : List A) → All P xs → All P (reverse xs)
  All-reverse P [] h = tt
  All-reverse P (x ∷ xs) h =
      subst (All P) (sym (reverse-cons x xs))
        (All-append P (reverse xs) (x ∷ []) (All-reverse P xs h.1) (h.0, tt))

-- how many elements pass a test
module _ {ℓ} {A : Type ℓ} where
  abbrev pub count : (A → Bool) → List A → ℕ
  count p [] = 0
  count p (x ∷ xs) = (if p x then 1 else 0) + count p xs

  abbrev pub filter : (A → Bool) → List A → List A
  filter p [] = []
  filter p (x ∷ xs) = if p x then x ∷ filter p xs else filter p xs

  -- the first that passes
  abbrev pub find : (A → Bool) → List A → Option A
  find p [] = none
  find p (x ∷ xs) = if p x then some x else find p xs

  pub count-append : (p : A → Bool) (xs ys : List A) → count p (xs ++ ys) ≡ count p xs + count p ys
  count-append p [] ys = omega arith
  count-append p (x ∷ xs) ys = omega (arith, count-append p xs ys)

  pub count-filter : (p q : A → Bool) (xs : List A) → count p (filter q xs) ≤ count p xs
  count-filter p q [] = omega arith
  count-filter p q (x ∷ xs) = ground (arith, count-filter p q xs)

  pub count_of_none : (p : A → Bool) (xs : List A) → find p xs ≡ none → count p xs ≡ 0
  count_of_none p [] h = refl
  count_of_none p (x ∷ xs) h = elim (Bool-cases (p x)) [
    | inl hit ↦ cc (rw hit at h)
    | inr miss ↦ rw miss (omega (arith, count_of_none p xs (rw miss at h)))
  ]

  pub count_of_some : (p : A → Bool) (xs : List A) (a : A) → find p xs ≡ some a → 0 < count p xs
  count_of_some p [] a h = cc h
  count_of_some p (x ∷ xs) a h = elim (Bool-cases (p x)) [
    | inl hit ↦ rw hit (omega arith)
    | inr miss ↦ rw miss (omega (arith, count_of_some p xs a (rw miss at h)))
  ]

  pub find_of_count :
      (p : A → Bool) (xs : List A) → 0 < count p xs → (a : A) × (find p xs ≡ some a) × (p a ≡ true)
  find_of_count p [] h = absurd (omega arith)
  find_of_count p (x ∷ xs) h = elim (Bool-cases (p x)) [
    | inl hit ↦ (x, ap (λ b. if b then some x else find p xs) hit, hit)
    | inr miss ↦
        let (a, e, hit) = find_of_count p xs (ground (arith, h, miss)) in
        (a, ap (λ b. if b then some x else find p xs) miss ∙ e, hit)
  ]
