-- ===== src/Traffic/Buckets.antt =====
-- The buckets tile the series.
use openvpn_connect_web.Traffic.{Point, chunks, downsample, mean}
use openvpn_connect_web.Prelude.{
  List, [], ap, append-nil, arith, drop, drop-nil, length, length-drop, refl, suc, sym, take,
  take-drop, zero, ℕ, ◌++◌, ◌+◌, ◌-◌, ◌∙◌, ◌∷◌, ◌≡◌, ◌≤◌, concat, false, filter, leb, map, true,
  ◌==◌, ◌||◌, Bool-cases, concat-filter, inl, inr, length-filter, length-map, ◌⊎◌,
}
use openvpn_connect_web.Prelude.Text.{nonempty}

drop-drop : (n k : ℕ) (points : List Point) → drop n (drop k points) ≡ drop (k + n) points
drop-drop n zero points = ap (λ j. drop j points) (omega arith)
drop-drop n (suc k) [] = drop-nil n ∙ sym (drop-nil (suc k + n))
drop-drop n (suc k) (p ∷ points) =
    let e : suc k + n ≡ suc (k + n) = omega arith in rw e (drop-drop n k points)

take_all : (n : ℕ) (points : List Point) → length points ≤ n → take n points ≡ points
take_all zero [] h = refl
take_all zero (p ∷ points) h = ground arith
take_all (suc n) [] h = refl
take_all (suc n) (p ∷ points) h = ap (◌∷◌ p) (take_all n points (omega arith))

empty_one : (xs : List Point) → nonempty xs ≡ false → xs ≡ []
empty_one [] h = refl
empty_one (x ∷ xs) h = cc h

module _ (edge : ℕ → ℕ) (rising : (i : ℕ) → edge i ≤ edge (i + 1)) where
  -- the chunks from a bucket on hold what stands from its edge on
  concat-chunks :
      (left index : ℕ) (points : List Point)
      → concat (chunks edge (suc left) index points) ≡ drop (edge index) points
  unfolding chunks
  concat-chunks zero index points =
      append-nil _
      ∙ take_all (length points - edge index) (drop (edge index) points)
          (omega (arith, length-drop (edge index) points))
  concat-chunks (suc left) index points =
      let start = edge index in
      let end = edge (index + 1) in
      let e : start + (end - start) ≡ end = omega (arith, rising index) in
      let more : (suc left == 0) ≡ false = ground arith in
      rw more (
        ap (λ rest. take (end - start) (drop start points) ++ rest)
          (concat-chunks left (index + 1) points
            ∙ sym (drop-drop (end - start) start points ∙ ap (λ j. drop j points) e))
        ∙ take-drop (end - start) (drop start points))

  length-chunks :
      (left index : ℕ) (points : List Point) → length (chunks edge left index points) ≡ left
  unfolding chunks
  length-chunks zero index points = refl
  length-chunks (suc left) index points = ap suc (length-chunks left (index + 1) points)

  few :
      (points : List Point) (limit : ℕ)
      → ((limit == 0) || leb (length points) limit) ≡ true
      → downsample edge points limit ≡ points
  unfolding downsample
  few points limit h = rw h refl

  many :
      (points : List Point) (limit : ℕ)
      → ((limit == 0) || leb (length points) limit) ≡ false
      → downsample edge points limit ≡ map mean (filter nonempty (chunks edge limit 0 points))
  unfolding downsample
  many points limit h = rw h refl

  -- Where the edges of the buckets rise from 0 and a point may be shown, at most `limit` points
  -- come out, and they are the points themselves or the means of runs of them that, one after
  -- another, are all of them: each point goes into one mean.
  pub downsample-bounded :
      (points : List Point) (limit : ℕ)
      → edge 0 ≡ 0
      → 1 ≤ limit
      → (length (downsample edge points limit) ≤ limit)
        × ((downsample edge points limit ≡ points)
            ⊎ ((groups : List (List Point)) × (concat groups ≡ points)
                × (downsample edge points limit ≡ map mean groups)))
  downsample-bounded points zero start h = absurd (omega arith)
  downsample-bounded points (suc n) start h =
      elim (Bool-cases ((suc n == 0) || leb (length points) (suc n))) [
        | inl fits ↦ rw (few points (suc n) fits) (ground arith, inl refl)
        | inr too_many ↦
            let groups = filter nonempty (chunks edge (suc n) 0 points) in
            let all_of : concat groups ≡ points =
              concat-filter nonempty (chunks edge (suc n) 0 points) (λ xs h. empty_one xs h)
              ∙ concat-chunks n 0 points
              ∙ ap (λ j. drop j points) start in
            let bound : length (map mean groups) ≤ suc n = omega (
              arith,
              length-map mean groups,
              length-filter nonempty (chunks edge (suc n) 0 points),
              length-chunks (suc n) 0 points,
            ) in
            rw (many points (suc n) too_many) (bound, inr (groups, all_of, refl))
      ]
