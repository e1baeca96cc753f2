-- ===== src/Whois/Tests.antt =====
-- A batch with one destination twice, one that is private, and one that nobody is found for.
use openvpn_connect_web.Whois.{lookup_many, peek_cache, store}
use openvpn_connect_web.Prelude.{
  Bool, List, Option, [], if◌then◌else◌, map, none, not, refl, some, ◌∷◌, ◌≡◌,
}
use openvpn_connect_web.Prelude.Text.{Text, starts_with, text, text_eq}

abbrev registry : Text → Option Text
registry d = if starts_with d (text "5.") then some (text "Example Cloud") else none

abbrev is_wide : Text → Bool
is_wide d = not (starts_with d (text "10."))

abbrev asked : List Text
asked = text "5.20.0.0/14" ∷ text "10.0.0.0/8" ∷ text "8.8.8.0/24" ∷ text "5.20.0.0/14" ∷ []

found_test :
    map (λ r. r.organisation) (lookup_many registry 100 is_wide asked (λ d. none)).0
    ≡ some (text "Example Cloud") ∷ none ∷ []
unfolding lookup_many starts_with text_eq
found_test = refl

-- a miss is asked for again after ten minutes, an answer is not
expires :
    ((peek_cache 701 (text "8") (store 100 (text "8") none (λ d. none))).0 ≡ none)
    × ((peek_cache 701 (text "5") (store 100 (text "5") (some (text "org")) (λ d. none))).0
        ≡ some (some (text "org")))
unfolding peek_cache store text_eq
expires = (refl, refl)
