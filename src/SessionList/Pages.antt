-- ===== src/SessionList/Pages.antt =====
-- The pages of the session list, by a cursor (`page` of app/services/sessions.py), and what a
-- panel that follows the cursor reads.
use openvpn_connect_web.Prelude.{
  All, Bool, List, Option, [], ap, arith, drop, false, filter, if◌then◌else◌, length, ltb, max, min,
  none, refl, some, suc, take, true, zero, ℕ, ◌++◌, ◌<◌, ◌∷◌, ◌≡◌, ◌≤◌, All-middle, length-take,
  List-cases, append_assoc, inl, inr, sym, take-drop, ◌∙◌, length-drop, concat,
}
use openvpn_connect_web.SessionList.{max_limit, Session}
use openvpn_connect_web.Prelude.Number.{negsuc, pos, ℤ}
use openvpn_connect_web.Prelude.Text.{nonempty, split}
use mathlib.Core.Option
use openvpn_connect_web.Traffic.{over}

-- `id < before`
abbrev pub older : Option ℤ → ℕ → Bool
older none id = true
older (some (pos n)) id = ltb id n
older (some (negsuc n)) id = false

-- `max(1, min(limit, MAX_LIMIT))`
unfoldable pub clamp : ℤ → ℕ
clamp (pos n) = max 1 (min n max_limit)
clamp (negsuc n) = 1

-- `window[-1].id`
abbrev pub last_id : List Session → Option ℤ
last_id [] = none
last_id (s ∷ []) = some (pos s.id)
last_id (s ∷ t ∷ rest) = last_id (t ∷ rest)

unfoldable pub page : List Session → Option ℤ → ℤ → List Session × Option ℤ
unfolding clamp
page sessions before limit =
    let size = clamp limit in
    let remaining = filter (λ s. older before s.id) sessions in
    (
      take size remaining,
      (if nonempty (drop size remaining) then last_id (take size remaining) else none),
    )

-- the windows from here on, by whether there is a cursor
abbrev next_pages :
    List Session → Option ℤ → Option (List (List Session)) → Option (List (List Session))
next_pages window none rest = some (window ∷ [])
next_pages window (some cursor) rest = Option.map (λ windows. window ∷ windows) rest

-- A page after another until one has no cursor: the windows, or `none` if that does not end
-- within as many requests as `fuel` says.
unfoldable pub walk : (fuel : ℕ) → List Session → Option ℤ → ℤ → Option (List (List Session))
unfolding page
walk zero sessions before limit = none
walk (suc fuel) sessions before limit =
    let p = page sessions before limit in next_pages p.0 p.1 (walk fuel sessions p.1 limit)

-- newest first: by descending id, as the store's query returns them
abbrev pub IsNewestFirst : List Session → Type 0
IsNewestFirst [] = Unit
IsNewestFirst (s ∷ rest) = All (λ t. t.id < s.id) rest × IsNewestFirst rest

-- what follows a session is what is older than it
filter-older :
    (c : ℕ) (xs : List Session)
    → All (λ t. t.id < c) xs
    → filter (λ s. older (some (pos c)) s.id) xs ≡ xs
filter-older c [] h = refl
filter-older c (x ∷ xs) h = rw (filter-older c xs h.1) (ground (arith, h.0))

filter-after :
    (front : List Session) (s : Session) (back : List Session)
    → IsNewestFirst (front ++ s ∷ back)
    → filter (λ t. older (some (pos s.id)) t.id) (front ++ s ∷ back) ≡ back
filter-after [] s back h = rw (filter-older s.id back h.0) (ground arith)
filter-after (x ∷ front) s back h =
    let newer : s.id < x.id = All-middle (λ t. t.id < x.id) front s back h.0 in
    let skipped : ltb x.id s.id ≡ false = ground arith in rw skipped (filter-after front s back h.1)

last_id-end :
    (xs : List Session)
    → 0 < length xs
    → (front : List Session) × (s : Session) × (xs ≡ front ++ s ∷ [])
      × (last_id xs ≡ some (pos s.id))
last_id-end [] h = absurd (omega arith)
last_id-end (x ∷ []) h = ([], x, refl, refl)
last_id-end (x ∷ y ∷ rest) h =
    let (front, s, split, last) = last_id-end (y ∷ rest) (omega arith) in
    (x ∷ front, s, ap (◌∷◌ x) split, last)

clamp-bounds : (limit : ℤ) → (1 ≤ clamp limit) × (clamp limit ≤ max_limit)
unfolding clamp
clamp-bounds (pos n) = (omega arith, omega arith)
clamp-bounds (negsuc n) = (omega arith, omega arith)

-- what is older than the cursor of a page is what followed its window
remaining_after :
    (n : ℕ) (front back : List Session)
    → 1 ≤ n
    → 0 < length back
    → IsNewestFirst (front ++ back)
    → filter (λ t. older (last_id (take n back)) t.id) (front ++ back) ≡ drop n back
remaining_after n front back h some_left sorted =
    let (a, s, split, last) = last_id-end (take n back) (omega (arith, length-take n back)) in
    let whole : front ++ back ≡ (front ++ a) ++ s ∷ drop n back =
      ap (◌++◌ front) (
        sym (take-drop n back)
        ∙ ap (λ xs. xs ++ drop n back) split
        ∙ append_assoc a (s ∷ []) (drop n back))
      ∙ sym (append_assoc front a (s ∷ drop n back)) in
    rw (last, whole) (filter-after (front ++ a) s (drop n back) (rw whole at sorted))

filter_all : (xs : List Session) → filter (λ s. older none s.id) xs ≡ xs
filter_all [] = refl
filter_all (x ∷ xs) = ap (◌∷◌ x) (filter_all xs)

module _ (limit : ℤ) where
  -- the windows hold these sessions, in this order, none more than the limit
  abbrev IsReadBy : List Session → Option (List (List Session)) → Type 0
  IsReadBy sessions read =
      (windows : List (List Session)) × (read ≡ some windows)
      × (concat windows ≡ sessions)
      × All (λ w. length w ≤ clamp limit) windows

  window_fits : (back : List Session) → length (take (clamp limit) back) ≤ clamp limit
  window_fits back = omega (arith, length-take (clamp limit) back)

  next_pages-IsReadBy :
      (back : List Session) (cursor : ℤ) (rest : Option (List (List Session)))
      → IsReadBy (drop (clamp limit) back) rest
      → IsReadBy back (next_pages (take (clamp limit) back) (some cursor) rest)
  next_pages-IsReadBy back cursor rest (windows, read, all_read, fit) = (
    take (clamp limit) back ∷ windows,
    ap (Option.map (λ ws. take (clamp limit) back ∷ ws)) read,
    ap (◌++◌ (take (clamp limit) back)) all_read ∙ take-drop (clamp limit) back,
    (window_fits back, fit),
  )

  only_window :
      (back : List Session)
      → drop (clamp limit) back ≡ []
      → IsReadBy back (some (take (clamp limit) back ∷ []))
  only_window back over = (
    take (clamp limit) back ∷ [],
    refl,
    ap (◌++◌ (take (clamp limit) back)) (sym over) ∙ take-drop (clamp limit) back,
    (window_fits back, tt),
  )

  abbrev cursor_of : List Session → Option ℤ
  cursor_of back =
      if nonempty (drop (clamp limit) back) then last_id (take (clamp limit) back) else none

  walk_step :
      (fuel : ℕ) (sessions back : List Session) (before : Option ℤ)
      → filter (λ s. older before s.id) sessions ≡ back
      → walk (suc fuel) sessions before limit
        ≡ next_pages
            (take (clamp limit) back)
            (cursor_of back)
            (walk fuel sessions (cursor_of back) limit)
  unfolding walk page
  walk_step fuel sessions back before h = rw h refl

  walk_from :
      (fuel : ℕ) (front back : List Session) (before : Option ℤ)
      → IsNewestFirst (front ++ back)
      → filter (λ s. older before s.id) (front ++ back) ≡ back
      → length back < fuel
      → IsReadBy back (walk fuel (front ++ back) before limit)
  walk_from zero front back before sorted at_cursor h = absurd (omega arith)
  walk_from (suc fuel) front back before sorted at_cursor h =
      rw (walk_step fuel (front ++ back) back before at_cursor)
        (elim (List-cases (drop (clamp limit) back)) [
          | inl over ↦ rw over (only_window back over)
          | inr (x, rest, more) ↦
              let n = clamp limit in
              let bounds = clamp-bounds limit in
              let left : 0 < length back = ground (arith, more, length-drop n back) in
              let (a, s, split, last) =
                last_id-end (take n back) (omega (arith, length-take n back)) in
              let whole : front ++ back ≡ (front ++ take n back) ++ drop n back =
                ap (◌++◌ front) (sym (take-drop n back))
                ∙ sym (append_assoc front (take n back) (drop n back)) in
              let older_ones = remaining_after n front back bounds.0 left sorted in
              let follow =
                walk_from fuel (front ++ take n back) (drop n back) (last_id (take n back))
                  (rw whole at sorted) (rw whole at older_ones)
                  (omega (arith, length-drop n back)) in
              let shown : cursor_of back ≡ some (pos s.id) =
                ap (λ r. if nonempty r then last_id (take n back) else none) more ∙ last in
              rw (shown, whole) (next_pages-IsReadBy back (pos s.id) _ (rw last at follow))
        ])

-- From a list that is newest first, a panel that follows the cursor from the first page reads every
-- session once, in order, in windows of at most the limit, and that ends: as many requests as the
-- list has sessions, and one, are enough, whatever the limit.
pub walk-IsReadBy :
    (limit : ℤ) (sessions : List Session)
    → IsNewestFirst sessions
    → (windows : List (List Session)) × (walk (suc (length sessions)) sessions none limit
        ≡ some windows)
      × (concat windows ≡ sessions)
      × All (λ w. length w ≤ clamp limit) windows
walk-IsReadBy limit sessions sorted =
    walk_from limit (suc (length sessions)) [] sessions none sorted (filter_all sessions)
      (omega arith)
