-- ===== src/Release/Tests.antt =====
-- Tags of which the tenth release is the greatest, and a declared version with a "v".
use openvpn_connect_web.Release.{
  Version, parse, resolve, minor_part, patch_part, bump, show_version, greatest, highest,
}
use openvpn_connect_web.Release.Forward.{IsBehind, resolve-IsForward}
use openvpn_connect_web.Prelude.{All, List, [], none, refl, some, ◌∷◌, ◌≡◌}
use openvpn_connect_web.Prelude.Text.{Text, isdigit, split, strip, text}
use openvpn_connect_web.Prelude.Number.{decimal, show_number}

abbrev tags : List Text
tags = text "v0.9.0" ∷ text "v0.10.0" ∷ text "nightly" ∷ []

bumped_tag :
    resolve tags minor_part (text "0.1.0") none ≡ some (text "0.11.0", some (text "0.10.0"))
unfolding resolve highest bump greatest parse show_version strip split isdigit decimal show_number
bumped_tag = refl

backwards : resolve tags minor_part (text "0.1.0") (some (text "0.9.5")) ≡ none
unfolding resolve highest bump greatest parse show_version strip split isdigit decimal show_number
backwards = refl

declared : parse (text "0.1.0") ≡ some (record { major = 0; minor = 1; patch = 0 })
unfolding parse strip split isdigit decimal
declared = refl

resolve-IsForward_example :
    (v : Version) × (parse (text "0.11.0") ≡ some v) × All (λ tag. IsBehind v (parse tag)) tags
resolve-IsForward_example =
    resolve-IsForward tags minor_part (text "0.1.0") (record { major = 0; minor = 1; patch = 0 })
      none (text "0.11.0") (some (text "0.10.0")) declared bumped_tag

-- the declared version of a first release comes out as it is written
seed_with_v : resolve [] patch_part (text "v0.1.0") none ≡ some (text "v0.1.0", none)
unfolding resolve highest greatest
seed_with_v = refl
