-- ===== src/Migrations/Order.antt =====
-- What `discover` makes of the files: migrations by strictly ascending number, without a gap.
use mathlib.Core.Path.{subst}
use openvpn_connect_web.Migrations.{
  Migration, File, good, collect, range_to, has_version, number_of, by_version,
}
use openvpn_connect_web.Prelude.{
  All, Bool, List, [], any, arith, false, refl, ℕ, ◌++◌, ◌<◌, ◌==◌, ◌∷◌, ◌≡◌, ◌≤◌, Bool-cases,
  Option-cases, any-append, ap, inl, inr, insert, map, sort, sym, ◌||◌, ◌∙◌, All-append, All-insert,
  All-weaken, any-sort, leb, suc, zero, ◌&&◌,
}
use openvpn_connect_web.Login.Tally.{same}

abbrev pub IsAscending : List ℕ → Type 0
IsAscending [] = Unit
IsAscending (n ∷ ns) = All (λ k. n < k) ns × IsAscending ns

abbrev pub member : ℕ → List ℕ → Bool
member k = any (λ n. n == k)

pub above : (k n : ℕ) (ns : List ℕ) → k ≤ n → All (λ j. n < j) ns → member k ns ≡ false
above k n [] h a = refl
above k n (j ∷ ns) h a = ground (arith, above k n ns h a.1, a.0)

same_tail :
    (k x y : ℕ) (xs ys : List ℕ)
    → x ≡ y
    → All (λ j. x < j) xs
    → All (λ j. y < j) ys
    → member k (x ∷ xs) ≡ member k (y ∷ ys)
    → member k xs ≡ member k ys
same_tail k x y xs ys e hx hy same = elim (Bool-cases (x == k)) [
  | inl at ↦ above k x xs (ground arith) hx ∙ sym (above k y ys (ground arith) hy)
  | inr off ↦
      let off' : (y == k) ≡ false = ground arith in
      ap (λ b. b || member k xs) (sym off) ∙ same ∙ ap (λ b. b || member k ys) off'
]

-- two ascending lists with the same members are one
pub ascending_unique :
    (xs ys : List ℕ)
    → IsAscending xs
    → IsAscending ys
    → ((k : ℕ) → member k xs ≡ member k ys)
    → xs ≡ ys
ascending_unique [] [] hx hy same = refl
ascending_unique [] (y ∷ ys) hx hy same = ground (arith, same y)
ascending_unique (x ∷ xs) [] hx hy same = ground (arith, same x)
ascending_unique (x ∷ xs) (y ∷ ys) hx hy same =
    let e : x ≡ y = ground (arith, same x, same y, above x y ys, above y x xs, hx.0, hy.0) in
    let rest : xs ≡ ys =
      ascending_unique xs ys hx.1 hy.1 (λ k. same_tail k x y xs ys e hx.0 hy.0 (same k)) in
    rw (e, rest) refl

abbrev pub IsNumberedOnce : List Migration → Type 0
IsNumberedOnce [] = Unit
IsNumberedOnce (m ∷ ms) = (any (has_version m.version) ms ≡ false) × IsNumberedOnce ms

snoc-IsNumberedOnce :
    (ms : List Migration) (m : Migration)
    → IsNumberedOnce ms
    → any (has_version m.version) ms ≡ false
    → IsNumberedOnce (ms ++ m ∷ [])
snoc-IsNumberedOnce [] m h new = (refl, tt)
snoc-IsNumberedOnce (l ∷ ms) m h new = (
  any-append (has_version l.version) ms (m ∷ []) ∙ ground (arith, h.0, new),
  snoc-IsNumberedOnce ms m h.1 (ground arith),
)

pub collect-IsNumberedOnce :
    (files : List File) (found ms : List Migration)
    → IsNumberedOnce found
    → collect files found ≡ good ms
    → IsNumberedOnce ms
unfolding collect
collect-IsNumberedOnce [] found ms h e = let same : found ≡ ms = cc e in subst IsNumberedOnce same h
collect-IsNumberedOnce (f ∷ files) found ms h e = elim (Option-cases (number_of f.name)) [
  | inl none_there ↦ cc (rw none_there at e)
  | inr (n, numbered) ↦ elim (Bool-cases (any (has_version n) found)) [
    | inl twice ↦ cc (rw (numbered, twice) at e)
    | inr new ↦
        collect-IsNumberedOnce files (found ++ record { version = n; file = f } ∷ []) ms
          (snoc-IsNumberedOnce found _ h new) (rw (numbered, new) at e)
  ]
]

-- by strictly ascending number
abbrev pub IsInOrder : List Migration → Type 0
IsInOrder [] = Unit
IsInOrder (m ∷ ms) = All (λ l. m.version < l.version) ms × IsInOrder ms

insert-IsInOrder :
    (m : Migration) (ms : List Migration)
    → IsInOrder ms
    → any (has_version m.version) ms ≡ false
    → IsInOrder (insert by_version m ms)
insert-IsInOrder m [] h new = (tt, tt)
insert-IsInOrder m (l ∷ ms) h new = elim (Bool-cases (by_version m l)) [
  | inl fits ↦
      let before_l : m.version < l.version = ground arith in
      rw fits (
        (
          before_l,
          All-weaken _ (λ k. m.version < k.version) (λ k after. omega (arith, before_l, after)) ms
              h.0,
        ),
        h,
      )
  | inr later ↦ rw later (
    All-insert by_version (λ k. l.version < k.version) m ms (ground arith) h.0,
    insert-IsInOrder m ms h.1 (ground arith),
  )
]

pub sort-IsInOrder : (ms : List Migration) → IsNumberedOnce ms → IsInOrder (sort by_version ms)
sort-IsInOrder [] h = tt
sort-IsInOrder (m ∷ ms) h =
    insert-IsInOrder m (sort by_version ms) (sort-IsInOrder ms h.1)
      (any-sort by_version (has_version m.version) ms ∙ h.0)

abbrev pub versions : List Migration → List ℕ
versions ms = map (λ m. m.version) ms

All-versions :
    (n : ℕ) (ms : List Migration) → All (λ l. n < l.version) ms → All (λ k. n < k) (versions ms)
All-versions n [] h = tt
All-versions n (m ∷ ms) h = (h.0, All-versions n ms h.1)

pub versions-IsAscending : (ms : List Migration) → IsInOrder ms → IsAscending (versions ms)
versions-IsAscending [] h = tt
versions-IsAscending (m ∷ ms) h = (All-versions m.version ms h.0, versions-IsAscending ms h.1)

pub member-versions :
    (k : ℕ) (ms : List Migration) → member k (versions ms) ≡ any (has_version k) ms
member-versions k [] = refl
member-versions k (m ∷ ms) = ap (λ b. (m.version == k) || b) (member-versions k ms)

pub range_below : (n k : ℕ) → n < k → All (λ j. j < k) (range_to n)
range_below zero k h = tt
range_below (suc n) k h =
    All-append (λ j. j < k) (range_to n) (suc n ∷ []) (range_below n k (omega arith)) (h, tt)

snoc-IsAscending :
    (ns : List ℕ) (k : ℕ) → IsAscending ns → All (λ j. j < k) ns → IsAscending (ns ++ k ∷ [])
snoc-IsAscending [] k h below = (tt, tt)
snoc-IsAscending (n ∷ ns) k h below =
    (All-append (λ j. n < j) ns (k ∷ []) h.0 (below.0, tt), snoc-IsAscending ns k h.1 below.1)

pub range_to-IsAscending : (n : ℕ) → IsAscending (range_to n)
range_to-IsAscending zero = tt
range_to-IsAscending (suc n) =
    snoc-IsAscending (range_to n) (suc n) (range_to-IsAscending n)
      (range_below n (suc n) (omega arith))

pub member-range_to : (k n : ℕ) → member k (range_to n) ≡ (leb 1 k && leb k n)
member-range_to k zero = ground arith
member-range_to k (suc n) =
    any-append (λ j. j == k) (range_to n) (suc n ∷ []) ∙ ground (arith, member-range_to k n)
