-- ===== src/Store/Sessions/Retention.antt =====
-- The sweep and the reader agree on the window, and the sweep leaves what it keeps whole.
use mathlib.Core.List.{reverse-cons}
use openvpn_connect_web.Prelude.{
  All, Bool, Bool-cases, List, [], ap, arith, drop, drop-nil, if◌then◌else◌, inl, inr, leb, length,
  length-append, refl, reverse, suc, sym, take, take_last, take_last-cons, take_last_of_more, true,
  zero, ℕ, ◌++◌, ◌-◌, ◌∙◌, ◌∷◌, ◌≡◌, ◌≤◌, filter, ◌==◌, map, All-reverse, All-weaken,
}
use openvpn_connect_web.Store.Sessions.{
  Session, Tables, in_window, list_sessions, prune_sessions, has_session, rows_of, listed,
  session_of_line, session_of_sample,
}

filter_of_every :
    (p : Session → Bool) (xs : List Session) → All (λ x. p x ≡ true) xs → filter p xs ≡ xs
filter_of_every p [] h = refl
filter_of_every p (x ∷ xs) h = ground (arith, filter_of_every p xs h.1)

All-filter : (p : Session → Bool) (xs : List Session) → All (λ x. p x ≡ true) (filter p xs)
All-filter p [] = tt
All-filter p (x ∷ xs) = elim (Bool-cases (p x)) [
  | inl keeps ↦ rw keeps (keeps, All-filter p xs)
  | inr drops ↦ rw drops (All-filter p xs)
]

All-drop :
    (p : Session → Bool) (n : ℕ) (xs : List Session)
    → All (λ x. p x ≡ true) xs
    → All (λ x. p x ≡ true) (drop n xs)
All-drop p zero xs h = h
All-drop p (suc n) [] h = tt
All-drop p (suc n) (x ∷ xs) h = All-drop p n xs h.1

take_of_long : (n : ℕ) (xs ys : List Session) → n ≤ length xs → take n (xs ++ ys) ≡ take n xs
take_of_long zero xs ys h = refl
take_of_long (suc n) [] ys h = absurd (omega arith)
take_of_long (suc n) (x ∷ xs) ys h = ap (λ zs. x ∷ zs) (take_of_long n xs ys (omega arith))

length-reverse : (xs : List Session) → length (reverse xs) ≡ length xs
length-reverse [] = refl
length-reverse (x ∷ xs) =
    ap length (reverse-cons x xs)
    ∙ length-append (reverse xs) (x ∷ [])
    ∙ omega (arith, length-reverse xs)

-- The newest `limit` of the newest `keep` are the newest `limit`.
take-reverse-take_last :
    (limit keep : ℕ) (xs : List Session)
    → limit ≤ keep
    → take limit (reverse (take_last keep xs)) ≡ take limit (reverse xs)
take-reverse-take_last limit keep [] h = ap (λ zs. take limit (reverse zs)) (drop-nil (0 - keep))
take-reverse-take_last limit keep (x ∷ xs) h = elim (Bool-cases (leb keep (length xs))) [
  | inl more ↦
      let fits : keep ≤ length xs = ground arith in
      ap (λ zs. take limit (reverse zs)) (take_last_of_more keep x xs fits)
      ∙ take-reverse-take_last limit keep xs h
      ∙ sym (take_of_long limit (reverse xs) (x ∷ []) (omega (arith, length-reverse xs)))
      ∙ ap (take limit) (sym (reverse-cons x xs))
  | inr few ↦
      ap (λ zs. take limit (reverse zs))
        (take_last-cons keep x xs ∙ ap (λ b. if b then take_last keep xs else x ∷ xs) few)
]

-- the rows of a session that is kept are not swept
rows_of-filter :
    {A : Type 0} (session_of : A → ℕ) (kept : List Session) (sid : ℕ) (xs : List A)
    → has_session kept sid ≡ true
    → rows_of session_of sid (filter (λ x. has_session kept (session_of x)) xs)
      ≡ rows_of session_of sid xs
rows_of-filter session_of kept sid [] h = refl
rows_of-filter session_of kept sid (x ∷ xs) h =
    let rest = rows_of-filter session_of kept sid xs h in
    elim (Bool-cases (session_of x == sid)) [
      | inl e ↦
          let same_id : session_of x ≡ sid = ground arith in
          let there : has_session kept (session_of x) ≡ true = ap (has_session kept) same_id ∙ h in
          rw (there, e) (ap (◌∷◌ x) rest)
      | inr e ↦ elim (Bool-cases (has_session kept (session_of x))) [
        | inl stays ↦ rw (stays, e) rest
        | inr goes ↦ rw (goes, e) rest
      ]
    ]

has_session-each :
    (kept ss : List Session)
    → ((sid : ℕ) → has_session ss sid ≡ true → has_session kept sid ≡ true)
    → All (λ (s : Session). has_session kept s.id ≡ true) ss
has_session-each kept [] h = tt
has_session-each kept (s ∷ ss) h =
    (h s.id (ground arith), has_session-each kept ss (λ sid there. h sid (ground arith)))

All-take : (P : Session → Type 0) (n : ℕ) (xs : List Session) → All P xs → All P (take n xs)
All-take P zero xs h = tt
All-take P (suc n) [] h = tt
All-take P (suc n) (x ∷ xs) h = (h.0, All-take P n xs h.1)

map-agree :
    {B : Type 0} (f g : Session → B) (xs : List Session)
    → All (λ s. f s ≡ g s) xs
    → map f xs ≡ map g xs
map-agree f g [] h = refl
map-agree f g (x ∷ xs) h = ground (arith, h.0, map-agree f g xs h.1)

-- the columns of a session that is kept are as they were
listed-prune_sessions :
    (now keep days : ℕ) (t : Tables) (s : Session)
    → has_session (take_last keep (filter (in_window now days) t.sessions)) s.id ≡ true
    → listed (prune_sessions now keep days t) s ≡ listed t s
unfolding prune_sessions
listed-prune_sessions now keep days t s h =
    let kept = take_last keep (filter (in_window now days) t.sessions) in
    rw
      (
        rows_of-filter session_of_line kept s.id t.log_lines h,
        rows_of-filter session_of_sample kept s.id t.traffic_samples h,
      )
      refl

-- What `prune_sessions` deletes, the reader of the same window did not show: `list_sessions` gives
-- the same rows after the sweep as before, with the same numbers of lines and the same greatest
-- counts of bytes, where it reads at most as many as the sweep keeps.
pub list_sessions-prune_sessions :
    (now keep days limit : ℕ) (t : Tables)
    → limit ≤ keep
    → list_sessions now days limit (prune_sessions now keep days t) ≡ list_sessions now days limit t
unfolding list_sessions prune_sessions
list_sessions-prune_sessions now keep days limit t h =
    let seen = filter (in_window now days) t.sessions in
    let kept = take_last keep seen in
    let swept = prune_sessions now keep days t in
    let listing = λ (zs : List Session). map (listed swept) (take limit (reverse zs)) in
    let same_columns =
      All-weaken (λ (s : Session). has_session kept s.id ≡ true) (λ s. listed swept s ≡ listed t s)
        (listed-prune_sessions now keep days t) _
        (All-take _ limit _ (All-reverse _ kept (has_session-each kept kept (λ sid e. e)))) in
    ap listing (
      filter_of_every (in_window now days) kept (
        All-drop (in_window now days) (length seen - keep) seen
          (All-filter (in_window now days) t.sessions)))
    ∙ map-agree (listed swept) (listed t) (take limit (reverse kept)) same_columns
    ∙ ap (map (listed t)) (take-reverse-take_last limit keep seen h)
