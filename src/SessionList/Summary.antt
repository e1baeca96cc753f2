-- ===== src/SessionList/Summary.antt =====
-- What the retained sessions add up to (`summarise` of app/services/sessions.py).
use mathlib.Core.Option
use openvpn_connect_web.SessionList.{Session, Kind, connected, failed, manual, dropped, stamp}
use openvpn_connect_web.Prelude.{
  Bool, List, Option, [], count, false, get_or, if◌then◌else◌, leb, length, ltb, map, max, none,
  some, suc, true, zero, ℕ, ◌%◌, ◌&&◌, ◌+◌, ◌-◌, ◌/◌, ◌==◌, ◌||◌, ◌∷◌, sort,
}
use openvpn_connect_web.Prelude.Number.{Ratio}
use openvpn_connect_web.Prelude.Text.{Text, text_ltb}

pub record Summary : Type 0 where
  pub sessions : ℕ
  pub connected_count : ℕ
  pub failed_count : ℕ
  pub drops : ℕ
  pub manual_count : ℕ
  pub up_seconds : ℕ
  pub longest_up_seconds : ℕ
  pub median_up_seconds : Ratio
  pub bytes_in : ℕ
  pub bytes_out : ℕ
  pub first_started_at : Option Text
  pub span_days : Ratio

abbrev pub empty_summary : Summary
empty_summary = record {
  sessions = 0;
  connected_count = 0;
  failed_count = 0;
  drops = 0;
  manual_count = 0;
  up_seconds = 0;
  longest_up_seconds = 0;
  median_up_seconds = record { num = 0; den = 1 };
  bytes_in = 0;
  bytes_out = 0;
  first_started_at = none;
  span_days = record { num = 0; den = 86400 };
}

abbrev pub is_kind : Kind → Kind → Bool
is_kind failed failed = true
is_kind dropped dropped = true
is_kind manual manual = true
is_kind _ _ = false

abbrev pub sum : List ℕ → ℕ
sum [] = 0
sum (n ∷ ns) = n + sum ns

-- `max(ns, default=0)`
abbrev pub largest : List ℕ → ℕ
largest [] = 0
largest (n ∷ ns) = max n (largest ns)

abbrev nth : ℕ → List ℕ → ℕ
nth i [] = 0
nth zero (n ∷ ns) = n
nth (suc i) (n ∷ ns) = nth i ns

-- `statistics.median(ns) if ns else 0.0`
unfoldable pub median : List ℕ → Ratio
median ns =
    let n = length ns in
    let s = sort leb ns in
    if n == 0
    then record { num = 0; den = 1 }
    else if n % 2 == 1
    then record { num = nth (n / 2) s; den = 1 }
    else record { num = nth (n / 2 - 1) s + nth (n / 2) s; den = 2 }

-- the times up of the sessions that came up
unfoldable pub ups : List Session → List ℕ
unfolding connected
ups [] = []
ups (s ∷ sessions) =
    let rest = ups sessions in
    if connected s then get_or rest (Option.map (λ u. u ∷ rest) s.up) else rest

-- the earlier of two start times, by their texts where they are one moment
earlier : ℕ × Text → ℕ × Text → ℕ × Text
earlier a b = if ltb b.0 a.0 || ((b.0 == a.0) && text_ltb b.1 a.1) then b else a

module _ (moment : Text → Option ℕ) where
  -- `min(dated, default=None)`
  first_start : List Session → Option (ℕ × Text)
  unfolding stamp earlier
  first_start [] = none
  first_start (s ∷ sessions) =
      let rest = first_start sessions in
      elim (stamp moment s.started_at) [
        | none ↦ rest
        | some at ↦
            let this : ℕ × Text = (at, get_or [] s.started_at) in
            some (get_or this (Option.map (earlier this) rest))
      ]

  unfoldable pub summarise : (now : ℕ) → List Session → Summary
  unfolding connected median ups first_start
  summarise now [] = empty_summary
  summarise now (s ∷ rest) =
      let all_of = s ∷ rest in
      let first = first_start all_of in
      record {
        sessions = length all_of;
        connected_count = count connected all_of;
        failed_count = count (λ t. is_kind failed t.kind) all_of;
        drops = count (λ t. is_kind dropped t.kind) all_of;
        manual_count = count (λ t. is_kind manual t.kind) all_of;
        up_seconds = sum (ups all_of);
        longest_up_seconds = largest (ups all_of);
        median_up_seconds = median (ups all_of);
        bytes_in = sum (map (λ t. t.bytes_in) all_of);
        bytes_out = sum (map (λ t. t.bytes_out) all_of);
        first_started_at = Option.map (λ f. f.1) first;
        span_days = record { num = get_or 0 (Option.map (λ f. now - f.0) first); den = 86400 };
      }
