-- ===== src/Prelude/Sorting.antt =====
-- Sorting, and what sorts, filters and flattenings keep.
use Prim.Native.Nat.{◌≤◌, suc, ◌+◌}
use mathlib.Core.Path.{◌≡◌, refl, ap, ◌∙◌}
use mathlib.Core.Bool.{and-true, and-false}
use openvpn_connect_web.Prelude.Tests.{◌==◌}
use mathlib.Core.Bool.{Bool, true, false, ◌&&◌, ◌||◌}
use mathlib.Core.List.{List, [], ◌∷◌, ◌++◌, reverse, reverse-cons}
use mathlib.Core.Logic.{inl, inr}
use openvpn_connect_web.Prelude.Tests.{Bool-cases, if◌then◌else◌}
use native.Mathlib.Omega.{arith}
use openvpn_connect_web.Prelude.Lists.{all, all-append, any, All, count, filter, length}

-- `sorted`, with the order's `≤`: stable
module _ {ℓ} {A : Type ℓ} (below : A → A → Bool) where
  abbrev pub insert : A → List A → List A
  insert x [] = x ∷ []
  insert x (y ∷ ys) = if below x y then x ∷ y ∷ ys else y ∷ insert x ys

  abbrev pub sort : List A → List A
  sort [] = []
  sort (x ∷ xs) = insert x (sort xs)

module _ {ℓ κ} {A : Type ℓ} (below : A → A → Bool) (P : A → Type κ) where
  pub All-insert : (x : A) (ys : List A) → P x → All P ys → All P (insert below x ys)
  All-insert x [] hx h = (hx, tt)
  All-insert x (y ∷ ys) hx h = elim (Bool-cases (below x y)) [
    | inl fits ↦ rw fits (hx, h)
    | inr larger ↦ rw larger (h.0, All-insert x ys hx h.1)
  ]

  pub All-sort : (xs : List A) → All P xs → All P (sort below xs)
  All-sort [] h = tt
  All-sort (x ∷ xs) h = All-insert x (sort below xs) h.0 (All-sort xs h.1)

module _ {ℓ} {A : Type ℓ} (p : A → Bool) where
  pub all-reverse : (xs : List A) → all p xs ≡ true → all p (reverse xs) ≡ true
  all-reverse [] h = refl
  all-reverse (x ∷ xs) h =
      rw (reverse-cons x xs, all-append p (reverse xs) (x ∷ [])) (ground (arith, all-reverse xs))

module _ {ℓ} {A : Type ℓ} (p q : A → Bool) where
  pub all_weaken :
      ((x : A) → p x ≡ true → q x ≡ true) → (xs : List A) → all p xs ≡ true → all q xs ≡ true
  all_weaken f [] h = refl
  all_weaken f (x ∷ xs) h = ground (arith, f x, all_weaken f xs)

module _ {ℓ κ} {A : Type ℓ} (P Q : A → Type κ) where
  pub All-weaken : ((x : A) → P x → Q x) → (xs : List A) → All P xs → All Q xs
  All-weaken f [] h = tt
  All-weaken f (x ∷ xs) h = (f x h.0, All-weaken f xs h.1)

module _ {ℓ} {A : Type ℓ} (below : A → A → Bool) (p : A → Bool) where
  any-insert : (x : A) (ys : List A) → any p (insert below x ys) ≡ (p x || any p ys)
  any-insert x [] = refl
  any-insert x (y ∷ ys) = elim (Bool-cases (below x y)) [
    | inl fits ↦ rw fits refl
    | inr larger ↦ rw (larger, any-insert x ys) (ground arith)
  ]

  pub any-sort : (xs : List A) → any p (sort below xs) ≡ any p xs
  any-sort [] = refl
  any-sort (x ∷ xs) = any-insert x (sort below xs) ∙ ap (λ b. p x || b) (any-sort xs)

abbrev pub concat {ℓ} : {A : Type ℓ} → List (List A) → List A
concat [] = []
concat (w ∷ lists) = w ++ concat lists

-- the empty ones hold nothing
pub concat-filter {ℓ} :
    {A : Type ℓ}
    → (p : List A → Bool) (lists : List (List A)) → ((xs : List A) → p xs ≡ false → xs ≡ [])
    → concat (filter p lists) ≡ concat lists
concat-filter p [] h = refl
concat-filter p (xs ∷ lists) h = elim (Bool-cases (p xs)) [
  | inl held ↦ rw held (ap (◌++◌ xs) (concat-filter p lists h))
  | inr empty_one ↦ rw (empty_one, h xs empty_one) (concat-filter p lists h)
]

pub length-filter {ℓ} :
    {A : Type ℓ} → (p : A → Bool) (xs : List A) → length (filter p xs) ≤ length xs
length-filter p [] = omega arith
length-filter p (x ∷ xs) = ground (arith, length-filter p xs)

module _ {ℓ} {A : Type ℓ} (below : A → A → Bool) where
  count-insert :
      (p : A → Bool) (x : A) (ys : List A) → count p (insert below x ys) ≡ count p (x ∷ ys)
  count-insert p x [] = refl
  count-insert p x (y ∷ ys) = elim (Bool-cases (below x y)) [
    | inl fits ↦ rw fits refl
    | inr larger ↦ rw (larger, count-insert p x ys) (ground arith)
  ]

  -- sorting loses nothing and adds nothing
  pub count-sort : (p : A → Bool) (xs : List A) → count p (sort below xs) ≡ count p xs
  count-sort p [] = refl
  count-sort p (x ∷ xs) =
      count-insert p x (sort below xs) ∙ ap (λ n. (if p x then 1 else 0) + n) (count-sort p xs)

  length-insert : (x : A) (ys : List A) → length (insert below x ys) ≡ suc (length ys)
  length-insert x [] = refl
  length-insert x (y ∷ ys) = elim (Bool-cases (below x y)) [
    | inl fits ↦ rw fits refl
    | inr larger ↦ rw larger (ap suc (length-insert x ys))
  ]

  pub length-sort : (xs : List A) → length (sort below xs) ≡ length xs
  length-sort [] = refl
  length-sort (x ∷ xs) = length-insert x (sort below xs) ∙ ap suc (length-sort xs)

module _ {ℓ} {A : Type ℓ} (q : A → Bool) where
  pub count-filter_by :
      (p : A → Bool) (xs : List A) → count p (filter q xs) ≡ count (λ x. p x && q x) xs
  count-filter_by p [] = refl
  count-filter_by p (x ∷ xs) = elim (Bool-cases (q x)) [
    | inl taken ↦ rw (taken, and-true (p x), count-filter_by p xs) refl
    | inr left ↦ rw (left, and-false (p x)) (omega (arith, count-filter_by p xs))
  ]

  length-filter_le : (xs : List A) → length (filter q xs) ≤ length xs
  length-filter_le [] = omega arith
  length-filter_le (x ∷ xs) = ground (arith, length-filter_le xs)

  -- a filter keeps the length exactly if it takes all
  pub length-filter-all : (xs : List A) → (length (filter q xs) == length xs) ≡ all q xs
  length-filter-all [] = refl
  length-filter-all (x ∷ xs) = elim (Bool-cases (q x)) [
    | inl taken ↦ ground (arith, taken, length-filter-all xs)
    | inr left ↦ ground (arith, left, length-filter_le xs)
  ]
