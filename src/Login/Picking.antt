-- ===== src/Login/Picking.antt =====
-- What is left when one of the waiting requests is taken out.
use openvpn_connect_web.Prelude.{
  All, Bool, List, [], arith, count, if◌then◌else◌, inl, inr, length, none, refl, some, suc, zero,
  ℕ, ◌+◌, ◌∷◌, ◌≡◌, ◌≤◌, ◌⊎◌,
}
use openvpn_connect_web.Login.{Request}
use openvpn_connect_web.Login.Threads.{pick}

-- `rs` is `rest` with `x` in it somewhere
pub data IsPicked (x : Request) : List Request → List Request → Type 0 where
  head : {rs : List Request} → IsPicked x rs (x ∷ rs)
  deep :
      {r : Request} {rest rs : List Request} → IsPicked x rest rs → IsPicked x (r ∷ rest) (r ∷ rs)

pub pick-cases :
    (i : ℕ) (rs : List Request)
    → (pick i rs ≡ none)
      ⊎ ((x : Request) × (rest : List Request) × (pick i rs ≡ some (x, rest)) × IsPicked x rest rs)
unfolding pick
pick-cases i [] = inl refl
pick-cases zero (r ∷ rs) = inr (r, rs, refl, head)
pick-cases (suc i) (r ∷ rs) = elim (pick-cases i rs) [
  | inl e ↦ rw (e, pick) (inl refl)
  | inr (x, rest, e, p) ↦ rw (e, pick) (inr (x, r ∷ rest, refl, deep p))
]

pub IsPicked-All :
    {x : Request} {rest rs : List Request} (P : Request → Type 0)
    → IsPicked x rest rs
    → All P rs
    → P x × All P rest
IsPicked-All P head h = h
IsPicked-All P (deep p) h = let (here, others) = IsPicked-All P p h.1 in (here, (h.0, others))

pub IsPicked-count :
    {x : Request} {rest rs : List Request} (p : Request → Bool)
    → IsPicked x rest rs
    → count p rs ≡ (if p x then 1 else 0) + count p rest
IsPicked-count p head = refl
IsPicked-count p (deep d) = omega (arith, IsPicked-count p d)

pub count-length : (p : Request → Bool) (rs : List Request) → count p rs ≤ length rs
count-length p [] = omega arith
count-length p (r ∷ rs) = ground (arith, count-length p rs)
