-- ===== src/Deploy/Tests.antt =====
-- Tests of the deployment checks.
use openvpn_connect_web.Deploy.{env_file_damage, code_drift, env_damaged, source_newer}
use openvpn_connect_web.Prelude.Text.{Text, splitlines, text, text_eq}
use openvpn_connect_web.Prelude.{[], count, false, if◌then◌else◌, leb, refl, some, ◌++◌, ◌∷◌, ◌≡◌}
use openvpn_connect_web.Deploy.Env.{env_file_damage-keys, is_junk, junk_of, keys_of, repeated_of}

abbrev damaged_file : Text
damaged_file =
    text "# panel"
    ++ 10 ∷ text "PORT=1"
    ++ 10 ∷ text "HOST=a"
    ++ 10 ∷ text "PORT=2"
    ++ 10 ∷ text "oops"

damage : env_file_damage (some damaged_file) ≡ some (env_damaged (text "PORT" ∷ []) 1)
unfolding env_file_damage
damage = refl

-- an edit one minute after the start, seen an hour later, is said to be of 60 minutes
edited :
    code_drift 3660000000 0
      (some (record { mtime = 60000000; name = text "a.py"; cached = false } ∷ []))
    ≡ some (source_newer (text "a.py") 60)
unfolding code_drift
edited = refl

env_file_damage-keys_example :
    (count (text_eq (text "PORT")) (repeated_of (env_file_damage (some damaged_file))) ≡ (
      if leb 2 (count (text_eq (text "PORT")) (keys_of (splitlines damaged_file))) then 1 else 0))
    × (junk_of (env_file_damage (some damaged_file)) ≡ count is_junk (splitlines damaged_file))
env_file_damage-keys_example = env_file_damage-keys damaged_file (text "PORT")
