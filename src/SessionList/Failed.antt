-- ===== src/SessionList/Failed.antt =====
-- What the attempts that failed count for in the summary.
use openvpn_connect_web.SessionList.{
  Session, Kind, connected, live, dropped, manual, failed, interrupted, ended, kind_of, from_row,
  from_rows, or_none, SessionRow, stamp,
}
use openvpn_connect_web.SessionList.Summary.{summarise, ups, median, is_kind, largest, sum}
use openvpn_connect_web.Prelude.{
  All, Bool, Bool-cases, List, Option, [], ap, arith, count, false, filter, inl, inr, is_some,
  length, not, refl, sym, true, ℕ, ◌+◌, ◌∙◌, ◌∷◌, ◌≡◌,
}
use openvpn_connect_web.Prelude.Text.{Text}

module _ (moment : Text → Option ℕ) (now : ℕ) where
  -- a column that is not empty holds a timestamp
  abbrev pub IsReadable : Option Text → Type 0
  IsReadable column = is_some (stamp moment column) ≡ is_some (or_none column)

  abbrev succeeded : Session → Bool
  succeeded s = not (is_kind failed s.kind)

  -- an attempt that failed never came up
  abbrev IsHonest : Session → Type 0
  IsHonest s = (is_kind failed s.kind ≡ true → connected s ≡ false)

  kind_of-failed :
      (is_live has_ended came_up : Bool) (outcome reason : Text)
      → is_kind failed (kind_of is_live has_ended came_up outcome reason) ≡ true
      → came_up ≡ false
  unfolding kind_of
  kind_of-failed is_live has_ended came_up outcome reason h = ground arith

  from_row-IsHonest :
      (row : SessionRow) (is_live : Bool)
      → IsReadable row.connected_at
      → IsHonest (from_row moment now row is_live)
  unfolding from_row connected
  from_row-IsHonest row is_live readable h = sym readable ∙ kind_of-failed is_live _ _ _ _ h

  from_rows-IsHonest :
      (rows : List SessionRow) (live_id : Option ℕ)
      → All (λ row. IsReadable row.connected_at) rows
      → All IsHonest (from_rows moment rows live_id now)
  unfolding from_rows
  from_rows-IsHonest [] live_id h = tt
  from_rows-IsHonest (row ∷ rows) live_id h =
      (from_row-IsHonest row _ h.0, from_rows-IsHonest rows live_id h.1)

  ups_of_succeeded :
      (sessions : List Session)
      → All IsHonest sessions
      → ups (filter succeeded sessions) ≡ ups sessions
  unfolding ups
  ups_of_succeeded [] h = refl
  ups_of_succeeded (s ∷ rest) h = elim (Bool-cases (is_kind failed s.kind)) [
    | inl bad ↦ rw (bad, h.0 bad) (ups_of_succeeded rest h.1)
    | inr good ↦ rw (good, ups_of_succeeded rest h.1) refl
  ]

  abbrev has_kind : Kind → Session → Bool
  has_kind k s = is_kind k s.kind

  -- the counts of a summary are those of the list, the empty one included
  summarise-counts :
      (xs : List Session)
      → let r = summarise moment now xs in
        (r.sessions ≡ length xs)
        × (r.failed_count ≡ count (has_kind failed) xs)
        × (r.connected_count ≡ count connected xs)
        × (r.drops ≡ count (has_kind dropped) xs)
        × (r.manual_count ≡ count (has_kind manual) xs)
  unfolding summarise
  summarise-counts [] = (refl, refl, refl, refl, refl)
  summarise-counts (x ∷ xs) = (refl, refl, refl, refl, refl)

  summarise-ups :
      (xs : List Session)
      → let r = summarise moment now xs in
        (r.up_seconds ≡ sum (ups xs))
        × (r.longest_up_seconds ≡ largest (ups xs))
        × (r.median_up_seconds ≡ median (ups xs))
  unfolding summarise median ups
  summarise-ups [] = (refl, refl, refl)
  summarise-ups (x ∷ xs) = (refl, refl, refl)

  -- a count that leaves the failed attempts out anyway
  count_of_succeeded :
      (p : Session → Bool)
      → ((s : Session) → IsHonest s → is_kind failed s.kind ≡ true → p s ≡ false)
      → (xs : List Session) → All IsHonest xs
      → count p (filter succeeded xs) ≡ count p xs
  count_of_succeeded p apart [] h = refl
  count_of_succeeded p apart (s ∷ rest) h = elim (Bool-cases (is_kind failed s.kind)) [
    | inl bad ↦ rw (bad, apart s h.0 bad) (omega (arith, count_of_succeeded p apart rest h.1))
    | inr good ↦ rw (good, count_of_succeeded p apart rest h.1) refl
  ]

  length_of_succeeded :
      (xs : List Session) → length xs ≡ length (filter succeeded xs) + count (has_kind failed) xs
  length_of_succeeded [] = refl
  length_of_succeeded (s ∷ rest) = elim (Bool-cases (is_kind failed s.kind)) [
    | inl bad ↦ rw bad (omega (arith, length_of_succeeded rest))
    | inr good ↦ rw good (omega (arith, length_of_succeeded rest))
  ]

  apart_of :
      (k : Kind)
      → is_kind failed k ≡ true
      → (is_kind dropped k ≡ false) × (is_kind manual k ≡ false)
  apart_of failed h = (refl, refl)
  apart_of live h = cc h
  apart_of dropped h = cc h
  apart_of manual h = cc h
  apart_of interrupted h = cc h
  apart_of ended h = cc h

  -- An attempt that failed counts as a failure, as a session, and in no figure of the connected:
  -- where every `connected_at` that is not empty holds a timestamp, the summary of the sessions
  -- has the times up, the median among them, and the counts of connected, dropped and manually
  -- ended sessions that the summary without the failed ones has.
  pub summarise-failed :
      (rows : List SessionRow) (live_id : Option ℕ)
      → All (λ row. IsReadable row.connected_at) rows
      → let sessions = from_rows moment rows live_id now in
        let whole = summarise moment now sessions in
        let part = summarise moment now (filter succeeded sessions) in
        (whole.sessions ≡ part.sessions + whole.failed_count)
        × (whole.up_seconds ≡ part.up_seconds)
        × (whole.longest_up_seconds ≡ part.longest_up_seconds)
        × (whole.median_up_seconds ≡ part.median_up_seconds)
        × (whole.connected_count ≡ part.connected_count)
        × (whole.drops ≡ part.drops)
        × (whole.manual_count ≡ part.manual_count)
  summarise-failed rows live_id readable =
      let sessions = from_rows moment rows live_id now in
      let kept = filter succeeded sessions in
      let honest = from_rows-IsHonest rows live_id readable in
      let same = ups_of_succeeded sessions honest in
      let (total, longest, med) = summarise-ups sessions in
      let (total', longest', med') = summarise-ups kept in
      let (n, f, c, d, m) = summarise-counts sessions in
      let (n', f', c', d', m') = summarise-counts kept in
      (
        n
            ∙ length_of_succeeded sessions
            ∙ ap (◌+◌ (length kept)) (sym f)
            ∙ ap (λ k. k + (summarise moment now sessions).failed_count) (sym n'),
        total ∙ ap sum (sym same) ∙ sym total',
        longest ∙ ap largest (sym same) ∙ sym longest',
        med ∙ ap median (sym same) ∙ sym med',
        c ∙ sym (count_of_succeeded connected (λ s h bad. h bad) sessions honest) ∙ sym c',
        d
            ∙ sym (
                count_of_succeeded (has_kind dropped) (λ s h bad. (apart_of s.kind bad).0) sessions
                  honest)
            ∙ sym d',
        m
            ∙ sym (
                count_of_succeeded (has_kind manual) (λ s h bad. (apart_of s.kind bad).1) sessions
                  honest)
            ∙ sym m',
      )
