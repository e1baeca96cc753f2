-- ===== src/Migrations/Tests.antt =====
-- A schema that is the list of the scripts that ran, and a script that does not run.
use openvpn_connect_web.Migrations.{
  apply_all, Migration, File, good, bad, Database, migrate, discover, missing, failed, absent,
  collect, number_of, ordered, range_to,
}
use openvpn_connect_web.Migrations.Order.{IsInOrder, versions}
use openvpn_connect_web.Migrations.Discover.{discover-versions}
use openvpn_connect_web.Migrations.Built.{IsMigrated, migrate-IsMigrated}
use openvpn_connect_web.Prelude.{
  List, Option, [], if◌then◌else◌, none, refl, some, ℕ, ◌∷◌, ◌≡◌, ◌⊎◌,
}
use openvpn_connect_web.Prelude.Text.{Text, is_digit, starts_with, text, text_eq}
use openvpn_connect_web.Prelude.Number.{decimal}

abbrev run_script : Text → List Text → Option (List Text)
run_script sql ran = if text_eq sql (text "boom") then none else some (sql ∷ ran)

abbrev initial : File
initial = record { name = text "0001_initial.sql"; sql = text "create" }

abbrev second : File
second = record { name = text "0002_mfa.sql"; sql = text "alter" }

abbrev broken : File
broken = record { name = text "0003_broken.sql"; sql = text "boom" }

abbrev found : List Migration
found =
    record { version = 1; file = initial }
    ∷ record { version = 2; file = second }
    ∷ record { version = 3; file = broken }
    ∷ []

abbrev fresh : Database (List Text)
fresh = record { schema = []; user_version = 0 }

discovered : discover (initial ∷ second ∷ broken ∷ []) ≡ good found
unfolding discover collect number_of ordered absent decimal is_digit starts_with text_eq
discovered = refl

gap_refused : discover (initial ∷ broken ∷ []) ≡ bad (missing (2 ∷ []))
unfolding discover collect number_of ordered absent decimal is_digit starts_with text_eq
gap_refused = refl

stopped : migrate run_script (initial ∷ second ∷ broken ∷ []) fresh ≡ (
  bad (failed (text "0003_broken.sql")),
  record { schema = text "alter" ∷ text "create" ∷ []; user_version = 2 },
)
unfolding migrate discover collect number_of ordered absent decimal is_digit starts_with text_eq
    apply_all
stopped = refl

-- A migration that is numbered 0000 is discovered, and never run.
abbrev zeroth : File
zeroth = record { name = text "0000_zero.sql"; sql = text "zero" }

zeroth_never_runs :
    migrate run_script (zeroth ∷ initial ∷ []) fresh
    ≡ (good 1, record { schema = text "create" ∷ []; user_version = 1 })
unfolding migrate discover collect number_of ordered absent decimal is_digit starts_with text_eq
    apply_all
zeroth_never_runs = refl

discover-versions_example :
    IsInOrder found × (n : ℕ) × ((versions found ≡ range_to n) ⊎ (versions found ≡ 0 ∷ range_to n))
discover-versions_example = discover-versions (initial ∷ second ∷ broken ∷ []) found discovered

migrate-IsMigrated_example :
    IsMigrated run_script found [] (migrate run_script (initial ∷ second ∷ broken ∷ []) fresh)
migrate-IsMigrated_example =
    migrate-IsMigrated run_script (initial ∷ second ∷ broken ∷ []) found [] fresh discovered refl
