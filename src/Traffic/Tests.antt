-- ===== src/Traffic/Tests.antt =====
-- Five readings, with a counter that restarts, in two buckets.
use openvpn_connect_web.Traffic.{Reading, Point, rates, downsample, mean, chunks}
use openvpn_connect_web.Traffic.Buckets.{downsample-bounded}
use openvpn_connect_web.Prelude.{
  List, [], arith, concat, length, map, refl, ℕ, ◌*◌, ◌+◌, ◌/◌, ◌∷◌, ◌≡◌, ◌≤◌, ◌⊎◌,
}

abbrev samples : List Reading
samples =
    record { at = 0; bytes_in = 100; bytes_out = 10 }
    ∷ record { at = 5; bytes_in = 200; bytes_out = 20 }
    ∷ record { at = 10; bytes_in = 50; bytes_out = 30 }
    ∷ record { at = 10; bytes_in = 60; bytes_out = 30 }
    ∷ record { at = 15; bytes_in = 160; bytes_out = 40 }
    ∷ []

rates_test : map (λ p. p.rx.num) (rates samples) ≡ 100 ∷ 0 ∷ 100 ∷ []
unfolding rates
rates_test = refl

-- int(index * 3 / 2)
abbrev halves : ℕ → ℕ
halves i = i * 3 / 2

halves_rise : (i : ℕ) → halves i ≤ halves (i + 1)
halves_rise i = omega arith

downsample-bounded_example :
    (length (downsample halves (rates samples) 2) ≤ 2)
    × ((downsample halves (rates samples) 2 ≡ rates samples)
        ⊎ ((groups : List (List Point)) × (concat groups ≡ rates samples)
            × (downsample halves (rates samples) 2 ≡ map mean groups)))
downsample-bounded_example =
    downsample-bounded halves halves_rise (rates samples) 2 refl (omega arith)

two_buckets : map length (chunks halves 2 0 (rates samples)) ≡ 1 ∷ 2 ∷ []
unfolding chunks rates
two_buckets = refl
