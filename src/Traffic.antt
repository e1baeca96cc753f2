-- ===== src/Traffic.antt =====
-- Byte counters into a series that a graph can draw (app/services/traffic.py). A time is a number of
-- ticks, and a quotient that the code takes in floating point is a fraction. The buckets' limits,
-- `int(index * size)`, are a parameter: floating point decides them.
pub mod Buckets
mod Tests
use openvpn_connect_web.Prelude.Number.{Ratio}
use openvpn_connect_web.Prelude.{
  List, [], drop, filter, if◌then◌else◌, leb, length, ltb, map, suc, take, zero, ℕ, ◌*◌, ◌+◌, ◌-◌,
  ◌==◌, ◌||◌, ◌∷◌,
}
use openvpn_connect_web.Prelude.Text.{nonempty}

pub record Reading : Type 0 where
  pub at : ℕ
  pub bytes_in : ℕ
  pub bytes_out : ℕ

pub record Point : Type 0 where
  pub t : Ratio
  pub rx : Ratio
  pub tx : Ratio

pub record Series : Type 0 where
  pub points : List Point
  pub total_in : ℕ
  pub total_out : ℕ
  pub peak_rx : Ratio
  pub peak_tx : Ratio
  pub span : ℕ

abbrev pub whole : ℕ → Ratio
whole n = record { num = n; den = 1 }

abbrev pub plus : Ratio → Ratio → Ratio
plus a b = record { num = a.num * b.den + b.num * a.den; den = a.den * b.den }

abbrev pub over : Ratio → ℕ → Ratio
over a n = record { num = a.num; den = a.den * n }

-- a counter that went backwards is a rate of zero
abbrev pub rate : Reading → Reading → Point
rate a b = record {
  t = whole b.at;
  rx = record { num = b.bytes_in - a.bytes_in; den = b.at - a.at };
  tx = record { num = b.bytes_out - a.bytes_out; den = b.at - a.at };
}

unfoldable pub rates : List Reading → List Point
rates [] = []
rates (a ∷ []) = []
rates (a ∷ b ∷ samples) =
    let rest = rates (b ∷ samples) in if leb b.at a.at then rest else rate a b ∷ rest

abbrev pub total : (Point → Ratio) → List Point → Ratio
total f [] = whole 0
total f (p ∷ points) = plus (f p) (total f points)

-- the average of a chunk
unfoldable pub mean : List Point → Point
mean chunk =
    let n = length chunk in
    record {
      t = over (total (λ p. p.t) chunk) n;
      rx = over (total (λ p. p.rx) chunk) n;
      tx = over (total (λ p. p.tx) chunk) n;
    }

abbrev pub greater : Ratio → Ratio → Ratio
greater a b = if ltb (a.num * b.den) (b.num * a.den) then b else a

-- `max(…, default=0.0)`
abbrev pub peak : (Point → Ratio) → List Point → Ratio
peak f [] = whole 0
peak f (p ∷ points) = greater (f p) (peak f points)

abbrev pub last_reading : Reading → List Reading → Reading
last_reading a [] = a
last_reading a (b ∷ samples) = last_reading b samples

module _ (edge : ℕ → ℕ) where
  -- the chunks of the last `left` buckets, from the bucket `index` on
  unfoldable pub chunks : (left index : ℕ) → List Point → List (List Point)
  chunks zero index points = []
  chunks (suc left) index points =
      let start = edge index in
      let end = if left == 0 then length points else edge (index + 1) in
      take (end - start) (drop start points) ∷ chunks left (index + 1) points

  -- an empty chunk has no average
  unfoldable pub downsample : List Point → (limit : ℕ) → List Point
  unfolding mean chunks
  downsample points limit =
      if (limit == 0) || leb (length points) limit
      then points
      else map mean (filter nonempty (chunks limit 0 points))

  unfoldable pub series : List Reading → ℕ → Series
  unfolding rates downsample
  series [] limit = record {
    points = [];
    total_in = 0;
    total_out = 0;
    peak_rx = whole 0;
    peak_tx = whole 0;
    span = 0;
  }
  series (a ∷ samples) limit =
      let full = rates (a ∷ samples) in
      let newest = last_reading a samples in
      record {
        points = downsample full limit;
        total_in = newest.bytes_in;
        total_out = newest.bytes_out;
        peak_rx = peak (λ p. p.rx) full;
        peak_tx = peak (λ p. p.tx) full;
        span = newest.at - a.at;
      }
