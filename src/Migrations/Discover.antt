-- ===== src/Migrations/Discover.antt =====
-- The migrations that `discover` returns are numbered without a gap.
use mathlib.Core.Path.{subst}
use openvpn_connect_web.Migrations.{
  Migration, File, Result, good, bad, collect, discover, ordered, absent, highest, range_to,
  has_version, by_version, and_then,
}
use openvpn_connect_web.Migrations.Order.{
  IsInOrder, versions, IsAscending, member, member-range_to, IsNumberedOnce, ascending_unique,
  member-versions, range_to-IsAscending, sort-IsInOrder, versions-IsAscending,
  collect-IsNumberedOnce,
}
use openvpn_connect_web.Prelude.{
  Bool, Bool-cases, List, [], any, arith, false, filter, inl, inr, leb, not, true, ℕ, ◌&&◌, ◌==◌,
  ◌||◌, ◌∙◌, ◌∷◌, ◌≡◌, ◌≤◌, All, All-append, List-cases, any-sort, ap, if◌then◌else◌, refl, sort,
  suc, sym, zero, ◌<◌, ◌⊎◌,
}

filter_empty :
    (p : ℕ → Bool) (xs : List ℕ) (k : ℕ) → filter p xs ≡ [] → member k xs ≡ true → p k ≡ false
filter_empty p [] k e h = cc h
filter_empty p (x ∷ xs) k e h = elim (Bool-cases (p x)) [
  | inl kept_one ↦ cc (rw kept_one at e)
  | inr left_out ↦ elim (Bool-cases (x == k)) [
    | inl at ↦ let same : x ≡ k = ground arith in subst (λ j. p j ≡ false) same left_out
    | inr off ↦ filter_empty p xs k (rw left_out at e) (rw off at h)
  ]
]

within : (k : ℕ) (found : List Migration) → any (has_version k) found ≡ true → k ≤ highest found
within k [] h = cc h
within k (m ∷ found) h = ground (arith, within k found)

without_gap :
    (found : List Migration) (k : ℕ)
    → absent found ≡ []
    → 1 ≤ k
    → k ≤ highest found
    → any (has_version k) found ≡ true
unfolding absent
without_gap found k e low high =
    let inside : member k (range_to (highest found)) ≡ true =
      member-range_to k (highest found) ∙ ground arith in
    let there =
      filter_empty (λ n. not (any (has_version n) found)) (range_to (highest found)) k e inside in
    ground (arith, there)

-- the numbers that are there, by whether zero is
numbered :
    (found : List Migration) (k : ℕ)
    → absent found ≡ []
    → any (has_version k) found
      ≡ ((k == 0) && any (has_version 0) found || (leb 1 k && leb k (highest found)))
numbered found zero e = elim (Bool-cases (any (has_version 0) found)) [
  | inl there ↦ rw there refl
  | inr gone ↦ rw gone refl
]
numbered found (suc k) e = elim (Bool-cases (leb (suc k) (highest found))) [
  | inl inside ↦ ground (arith, without_gap found (suc k) e, inside)
  | inr outside ↦ elim (Bool-cases (any (has_version (suc k)) found)) [
    | inl there ↦ let bound = within (suc k) found there in ground arith
    | inr gone ↦ ground arith
  ]
]

-- the numbers in order
in_a_row : Bool → ℕ → List ℕ
in_a_row zero_too n = if zero_too then 0 ∷ range_to n else range_to n

positive : (n : ℕ) → All (λ j. 0 < j) (range_to n)
positive zero = tt
positive (suc n) = All-append (λ j. 0 < j) (range_to n) (suc n ∷ []) (positive n) (omega arith, tt)

in_a_row-IsAscending : (b : Bool) (n : ℕ) → IsAscending (in_a_row b n)
unfolding in_a_row
in_a_row-IsAscending true n = (positive n, range_to-IsAscending n)
in_a_row-IsAscending false n = range_to-IsAscending n

member-in_a_row :
    (b : Bool) (n k : ℕ) → member k (in_a_row b n) ≡ ((k == 0) && b || (leb 1 k && leb k n))
unfolding in_a_row
member-in_a_row true n k = ground (arith, member-range_to k n)
member-in_a_row false n k = ground (arith, member-range_to k n)

ordered-versions :
    (found ms : List Migration)
    → IsNumberedOnce found
    → ordered found ≡ good ms
    → IsInOrder ms × (versions ms ≡ in_a_row (any (has_version 0) found) (highest found))
unfolding ordered
ordered-versions found ms once e = elim (List-cases (absent found)) [
  | inr (n, rest, gap) ↦ cc (rw gap at e)
  | inl full ↦
      let same : sort by_version found ≡ ms = cc (rw full at e) in
      let sorted = sort-IsInOrder found once in
      let row = in_a_row (any (has_version 0) found) (highest found) in
      let all_there : versions (sort by_version found) ≡ row =
        ascending_unique (versions (sort by_version found)) row (versions-IsAscending _ sorted)
          (in_a_row-IsAscending _ _)
          (λ k.
            member-versions k (sort by_version found)
            ∙ any-sort by_version (has_version k) found
            ∙ numbered found k full
            ∙ sym (member-in_a_row (any (has_version 0) found) (highest found) k)) in
      (subst IsInOrder same sorted, ap versions (sym same) ∙ all_there)
]

in_a_row-cases : (b : Bool) (n : ℕ) → (in_a_row b n ≡ range_to n) ⊎ (in_a_row b n ≡ 0 ∷ range_to n)
unfolding in_a_row
in_a_row-cases true n = inr refl
in_a_row-cases false n = inl refl

discovered :
    (files : List File) (ms : List Migration) (r : Result (List Migration))
    → collect files [] ≡ r
    → and_then r ordered ≡ good ms
    → IsInOrder ms × (n : ℕ) × ((versions ms ≡ range_to n) ⊎ (versions ms ≡ 0 ∷ range_to n))
discovered files ms (bad why) collected e = cc e
discovered files ms (good found) collected e =
    let once = collect-IsNumberedOnce files [] found tt collected in
    let (sorted, row) = ordered-versions found ms once e in
    (
      sorted,
      highest found,
      elim (in_a_row-cases (any (has_version 0) found) (highest found)) [
        | inl plain ↦ inl (row ∙ plain)
        | inr zero_too ↦ inr (row ∙ zero_too)
      ],
    )

-- When `discover` returns migrations, their numbers are 1 to some number, each once and in this
-- order, or these with a 0 before them.
pub discover-versions :
    (files : List File) (ms : List Migration)
    → discover files ≡ good ms
    → IsInOrder ms × (n : ℕ) × ((versions ms ≡ range_to n) ⊎ (versions ms ≡ 0 ∷ range_to n))
unfolding discover
discover-versions files ms e = discovered files ms (collect files []) refl e
