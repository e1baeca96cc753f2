-- ===== src/Routes/Relay.antt =====
-- The lookups of the panel do not make it a relay to the whois service.
use openvpn_connect_web.Whois.{
  resolve, Cache, lookup_many, max_batch, peek_cache, resolve_all, resolved, store, unique,
  WhoisResult,
}
use openvpn_connect_web.Routes.Reads.{whois, is_destination}
use openvpn_connect_web.Prelude.{
  All, All-weaken, Bool, Bool-cases, List, Option, [], ap, arith, filter, inl, inr, length,
  length-take, none, not, refl, some, suc, take, true, zero, ℕ, ◌∷◌, ◌≡◌, ◌≤◌, ◌∙◌,
}
use openvpn_connect_web.Routing.{Route}
use openvpn_connect_web.Prelude.Text.{Text, text_eq}

module _ {ℓ κ} {A : Type ℓ} (P : A → Type κ) where
  All-filter : (q : A → Bool) (xs : List A) → All P xs → All P (filter q xs)
  All-filter q [] h = tt
  All-filter q (x ∷ xs) h = elim (Bool-cases (q x)) [
    | inl taken ↦ rw taken (h.0, All-filter q xs h.1)
    | inr left ↦ rw left (All-filter q xs h.1)
  ]

  All-take : (n : ℕ) (xs : List A) → All P xs → All P (take n xs)
  All-take zero xs h = tt
  All-take (suc n) [] h = tt
  All-take (suc n) (x ∷ xs) h = (h.0, All-take n xs h.1)

filter-IsTaken : {A : Type 0} (p : A → Bool) (xs : List A) → All (λ x. p x ≡ true) (filter p xs)
filter-IsTaken p [] = tt
filter-IsTaken p (x ∷ xs) = elim (Bool-cases (p x)) [
  | inl taken ↦ rw taken (taken, filter-IsTaken p xs)
  | inr left ↦ rw left (filter-IsTaken p xs)
]

All-unique : (P : Text → Type 0) (xs : List Text) → All P xs → All P (unique xs)
All-unique P [] h = tt
All-unique P (x ∷ xs) h =
    (h.0, All-filter P (λ e. not (text_eq e x)) (unique xs) (All-unique P xs h.1))

abbrev with_first : Text → Option Text × Cache → List WhoisResult × Cache → List WhoisResult × Cache
with_first d this rest = (record { destination = d; organisation = this.0 } ∷ rest.0, rest.1)

module _ (ask ask' : Text → Option Text) (now : ℕ) where
  resolved_alike :
      (d : Text) (x : Option (Option Text) × Cache)
      → ask d ≡ ask' d
      → resolved ask now d x ≡ resolved ask' now d x
  resolved_alike d (some org, cache) h = refl
  resolved_alike d (none, cache) h = ap (λ org. (org, store now d org cache)) h

  resolve_alike :
      (d : Text) (cache : Cache)
      → ask d ≡ ask' d
      → resolve ask now d cache ≡ resolve ask' now d cache
  unfolding resolve
  resolve_alike d cache h = resolved_alike d (peek_cache now d cache) h

  resolve_all_alike :
      (ds : List Text) (cache : Cache)
      → All (λ d. ask d ≡ ask' d) ds
      → resolve_all ask now ds cache ≡ resolve_all ask' now ds cache
  unfolding resolve_all
  resolve_all_alike [] cache h = refl
  resolve_all_alike (d ∷ ds) cache h =
      ap (λ this. with_first d this (resolve_all ask now ds this.1)) (resolve_alike d cache h.0)
      ∙ ap (with_first d (resolve ask' now d cache))
          (resolve_all_alike ds (resolve ask' now d cache).1 h.1)

length-resolve_all :
    (ask : Text → Option Text) (now : ℕ) (ds : List Text) (cache : Cache)
    → length (resolve_all ask now ds cache).0 ≡ length ds
unfolding resolve_all
length-resolve_all ask now [] cache = refl
length-resolve_all ask now (d ∷ ds) cache =
    ap suc (length-resolve_all ask now ds (resolve ask now d cache).1)

-- The answers to a request for lookups, and what it leaves in the cache, do not depend on what the
-- whois service would say of anything but the destinations of the routes there are: no other is asked
-- about, whatever is requested. And no request has more than forty answers.
pub whois-known :
    (ask ask' : Text → Option Text) (now : ℕ) (is_public : Text → Bool) (known : List Route)
    (requested : List Text) (cache : Cache)
    → ((d : Text) → is_destination known d ≡ true → ask d ≡ ask' d)
    → (whois ask now is_public known requested cache
        ≡ whois ask' now is_public known requested cache)
      × (length (whois ask now is_public known requested cache).0 ≤ 40)
unfolding whois lookup_many
whois-known ask ask' now is_public known requested cache h =
    let asked = filter (is_destination known) (take max_batch requested) in
    let ds = take max_batch (unique (filter is_public asked)) in
    let agreed : All (λ d. ask d ≡ ask' d) asked =
      All-weaken (λ d. is_destination known d ≡ true) (λ d. ask d ≡ ask' d) h asked
        (filter-IsTaken (is_destination known) (take max_batch requested)) in
    (
      resolve_all_alike ask ask' now ds cache
          (All-take _ max_batch _ (All-unique _ _ (All-filter _ is_public asked agreed))),
      omega (
        arith,
        length-resolve_all ask now ds cache,
        length-take max_batch (unique (filter is_public asked)),
      ),
    )
