-- ===== src/Whois/Repeat.antt =====
-- A batch that is asked for again soon gives the same answers, and asks nobody.
use openvpn_connect_web.Whois.{
  put, Cache, WhoisResult, resolve, resolve_all, lookup_many, peek_cache, store, unique, max_batch,
  cache_ttl, negative_ttl, ttl,
}
use mathlib.Core.Path.{subst}
use openvpn_connect_web.Prelude.{
  Bool-cases, Option, arith, false, if◌then◌else◌, inl, inr, ltb, none, refl, some, ℕ, ◌-◌, ◌≡◌,
  ◌≤◌, ◌⊎◌, All, Bool, List, [], ap, filter, length, length-take, suc, sym, take, ◌∙◌, ◌∷◌,
}
use openvpn_connect_web.Prelude.Text.{Text, truthy, text_eq, text_eq_refl, text_eq_sound}

young_enough :
    (org : Option Text) (age : ℕ)
    → age ≤ 600
    → ltb (if truthy org then cache_ttl else negative_ttl) age ≡ false
young_enough org age h = elim (Bool-cases (truthy org)) [
  | inl known ↦ rw known (ground arith)
  | inr not_known ↦ rw not_known (ground arith)
]

module _ (now : ℕ) where
  -- an answer that the cache holds, as of this time
  abbrev pub IsHeld : Cache → WhoisResult → Type 0
  IsHeld cache r = cache r.destination ≡ some (record { stamped = now; org = r.organisation })

  -- a cache of this time keeps what it holds
  abbrev IsCurrent : Cache → Type 0
  IsCurrent cache =
      (d : Text)
      → (cache d ≡ none)
        ⊎ ((org : Option Text) × (cache d ≡ some (record { stamped = now; org = org })))

  resolve_held :
      (ask : Text → Option Text) (later : ℕ) (d : Text) (org : Option Text) (cache : Cache)
      → later - now ≤ 600
      → cache d ≡ some (record { stamped = now; org = org })
      → resolve ask later d cache ≡ (org, cache)
  unfolding resolve peek_cache
  resolve_held ask later d org cache soon held =
      let young : ltb (ttl (record { stamped = now; org = org })) (later - now) ≡ false =
        young_enough org (later - now) soon in
      rw (held, young) refl

  -- what the one holds, the other holds too
  abbrev IsKeptBy : Cache → Cache → Type 0
  IsKeptBy cache after_it =
      (d : Text) (org : Option Text)
      → cache d ≡ some (record { stamped = now; org = org })
      → after_it d ≡ some (record { stamped = now; org = org })

  module _ (ask : Text → Option Text) where
    -- what a lookup leaves
    abbrev IsLookedUp : Text → Cache → Option Text × Cache → Type 0
    IsLookedUp d cache (org, after_it) =
        (after_it d ≡ some (record { stamped = now; org = org }))
        × IsCurrent after_it
        × IsKeptBy cache after_it

    resolve_missing :
        (d : Text) (cache : Cache)
        → cache d ≡ none
        → resolve ask now d cache
          ≡ (ask d, put d (some (record { stamped = now; org = ask d })) cache)
    unfolding resolve peek_cache store
    resolve_missing d cache unseen = rw unseen refl

    put-IsLookedUp :
        (d : Text) (org : Option Text) (cache : Cache)
        → IsCurrent cache
        → cache d ≡ none
        → IsLookedUp d cache (org, put d (some (record { stamped = now; org = org })) cache)
    put-IsLookedUp d org cache current unseen = (
      rw (text_eq_refl d) refl,
      λ e. elim (Bool-cases (text_eq e d)) [
        | inl this_one ↦ rw this_one (inr (org, refl))
        | inr other ↦ rw other (current e)
      ],
      λ e had held. elim (Bool-cases (text_eq e d)) [
        | inl this_one ↦
            let gone : cache e ≡ none =
              subst (λ k. cache k ≡ none) (sym (text_eq_sound e d this_one)) unseen in
            cc (sym gone ∙ held)
        | inr other ↦ rw other held
      ],
    )

    resolve-IsLookedUp :
        (d : Text) (cache : Cache) → IsCurrent cache → IsLookedUp d cache (resolve ask now d cache)
    resolve-IsLookedUp d cache current = elim (current d) [
      | inl unseen ↦
          subst (IsLookedUp d cache) (sym (resolve_missing d cache unseen))
            (put-IsLookedUp d (ask d) cache current unseen)
      | inr (org, held) ↦
          subst (IsLookedUp d cache) (sym (resolve_held ask now d org cache (omega arith) held))
            (held, current, λ e had there. there)
    ]

    batch-IsHeld :
        (ds : List Text) (cache : Cache)
        → IsCurrent cache
        → IsKeptBy cache (resolve_all ask now ds cache).1
          × All (IsHeld (resolve_all ask now ds cache).1) (resolve_all ask now ds cache).0
    unfolding resolve_all
    batch-IsHeld [] cache current = (λ e had there. there, tt)
    batch-IsHeld (d ∷ ds) cache current =
        let (held, current', kept_on) = resolve-IsLookedUp d cache current in
        let (kept_after, rest) = batch-IsHeld ds (resolve ask now d cache).1 current' in
        (
          λ e had there. kept_after e had (kept_on e had there),
          (kept_after d (resolve ask now d cache).0 held, rest),
        )

    length-resolve_all :
        (ds : List Text) (cache : Cache) → length (resolve_all ask now ds cache).0 ≡ length ds
    unfolding resolve_all
    length-resolve_all [] cache = refl
    length-resolve_all (d ∷ ds) cache = ap suc (length-resolve_all ds (resolve ask now d cache).1)

    again :
        (ask' : Text → Option Text) (later : ℕ) (ds : List Text) (cache full : Cache)
        → later - now ≤ 600
        → All (IsHeld full) (resolve_all ask now ds cache).0
        → resolve_all ask' later ds full ≡ ((resolve_all ask now ds cache).0, full)
    unfolding resolve_all
    again ask' later [] cache full soon held = refl
    again ask' later (d ∷ ds) cache full soon held =
        rw
          (
            resolve_held ask' later d _ full soon held.0,
            again ask' later ds (resolve ask now d cache).1 full soon held.1,
          )
          refl

    -- A batch looked up with an empty cache, and asked for again within ten minutes, has the same
    -- answers, whatever the whois service would say by then, and leaves the cache as it is; and no
    -- batch has more than forty answers.
    lookup_many-again :
        (ask' : Text → Option Text) (later : ℕ) (is_public : Text → Bool) (ds : List Text)
        → later - now ≤ 600
        → let first = lookup_many ask now is_public ds (λ d. none) in
          (lookup_many ask' later is_public ds first.1 ≡ first) × (length first.0 ≤ max_batch)
    unfolding lookup_many
    lookup_many-again ask' later is_public ds soon =
        let batch = take max_batch (unique (filter is_public ds)) in
        (
          again ask' later batch (λ d. none) _ soon
              (batch-IsHeld batch (λ d. none) (λ d. inl refl)).1,
          omega (
            arith,
            length-resolve_all batch (λ d. none),
            length-take max_batch (unique (filter is_public ds)),
          ),
        )
