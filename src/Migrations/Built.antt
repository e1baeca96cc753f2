-- ===== src/Migrations/Built.antt =====
-- The database is always what the migrations up to its version make of an empty one.
use openvpn_connect_web.Migrations.{
  Migration, File, Result, good, bad, Database, apply_all, migrate, discover,
}
use mathlib.Core.Path.{subst}
use openvpn_connect_web.Migrations.Order.{IsInOrder}
use openvpn_connect_web.Prelude.{
  ◌>>=◌, All, List, Option, Option-cases, [], filter, inl, inr, leb, refl, some, ℕ, ◌&&◌, ◌++◌, ◌<◌,
  ◌∷◌, ◌≡◌, ◌≤◌, All-weaken, Bool-cases, ap, append-nil, arith, ltb, ◌∙◌, All-append, append_assoc,
  sym,
}
use openvpn_connect_web.Prelude.Text.{Text, split}
use openvpn_connect_web.Migrations.Discover.{discover-versions}

module _ {S : Type 0} (run : Text → S → Option S) where
  -- the scripts one after another
  abbrev pub replay : List Migration → S → Option S
  replay [] s = some s
  replay (m ∷ ms) s = run m.file.sql s >>= replay ms

  replay-append :
      (ms ns : List Migration) (s : S) → replay (ms ++ ns) s ≡ (replay ms s >>= replay ns)
  replay-append [] ns s = refl
  replay-append (m ∷ ms) ns s = elim (Option-cases (run m.file.sql s)) [
    | inl broken ↦ rw broken refl
    | inr (t, ran) ↦ rw ran (replay-append ms ns t)
  ]

  -- what the migrations 1 to n are
  abbrev pub up_to : ℕ → List Migration → List Migration
  up_to n ms = filter (λ m. leb 1 m.version && leb m.version n) ms

  -- a database that the migrations up to its version make of an empty schema
  abbrev pub IsBuilt : List Migration → S → Database S → Type 0
  IsBuilt ms empty db = replay (up_to db.user_version ms) empty ≡ some db.schema

  up_to_none : (n : ℕ) (ms : List Migration) → All (λ m. n < m.version) ms → up_to n ms ≡ []
  up_to_none n [] h = refl
  up_to_none n (m ∷ ms) h = rw (up_to_none n ms h.1) (ground (arith, h.0))

  -- one script more
  up_to_next :
      (ms : List Migration) (m : Migration) (later : List Migration) (n : ℕ)
      → IsInOrder (ms ++ m ∷ later)
      → All (λ l. l.version ≤ n) ms
      → n < m.version
      → up_to m.version (ms ++ m ∷ later) ≡ up_to n (ms ++ m ∷ later) ++ m ∷ []
  up_to_next [] m later n sorted behind h =
      let later_still : All (λ l. n < l.version) later =
        All-weaken (λ l. m.version < l.version) (λ l. n < l.version)
          (λ l after. omega (arith, h, after)) later sorted.0 in
      rw (up_to_none m.version later sorted.0, up_to_none n later later_still) (ground (arith, h))
  up_to_next (l ∷ ms) m later n sorted behind h =
      rw (up_to_next ms m later n sorted.1 behind.1 h) (ground (arith, behind.0, h))

  All-ahead :
      (v : ℕ) (ms : List Migration)
      → All (λ m. v < m.version) ms
      → filter (λ m. ltb v m.version) ms ≡ ms
  All-ahead v [] h = refl
  All-ahead v (m ∷ ms) h = rw (All-ahead v ms h.1) (ground (arith, h.0))

  ahead_of :
      (front : List Migration) (m : Migration) (later : List Migration)
      → IsInOrder (front ++ m ∷ later)
      → All (λ l. m.version < l.version) later
  ahead_of [] m later sorted = sorted.0
  ahead_of (l ∷ front) m later sorted = ahead_of front m later sorted.1

  -- the migrations behind a version, and those that are pending
  pending_ones :
      (v : ℕ) (ms : List Migration)
      → IsInOrder ms
      → (front : List Migration) × (ms ≡ front ++ filter (λ m. ltb v m.version) ms)
        × All (λ m. m.version ≤ v) front
        × All (λ m. v < m.version) (filter (λ m. ltb v m.version) ms)
  pending_ones v [] h = ([], refl, tt, tt)
  pending_ones v (m ∷ ms) h =
      let (front, split, behind, ahead) = pending_ones v ms h.1 in
      elim (Bool-cases (ltb v m.version)) [
        | inl later ↦ rw later (
          [],
          ap (◌∷◌ m) (
              sym (
                All-ahead v ms
                  (All-weaken _ (λ l. v < l.version) (λ l after. ground (arith, after)) ms h.0))),
          tt,
          (ground arith, ahead),
        )
        | inr done_before ↦
            rw done_before (m ∷ front, ap (◌∷◌ m) split, (ground arith, behind), ahead)
      ]

  -- what a run of the migrations comes to: a database built by all of them, of the version that is
  -- returned; or, of a run that failed, one that is built by those up to its version
  abbrev pub IsMigrated : List Migration → S → Result ℕ × Database S → Type 0
  IsMigrated ms empty (bad why, db) = IsBuilt ms empty db
  IsMigrated ms empty (good v, db) =
      IsBuilt ms empty db × (v ≡ db.user_version) × All (λ m. m.version ≤ v) ms

  IsBuilt-next :
      (front : List Migration) (m : Migration) (later : List Migration) (empty s : S)
      (db : Database S)
      → IsInOrder (front ++ m ∷ later)
      → All (λ l. l.version ≤ db.user_version) front
      → db.user_version < m.version
      → IsBuilt (front ++ m ∷ later) empty db
      → run m.file.sql db.schema ≡ some s
      → IsBuilt (front ++ m ∷ later) empty (record { schema = s; user_version = m.version })
  IsBuilt-next front m later empty s db sorted behind h built ran =
      let ms = front ++ m ∷ later in
      ap (λ l. replay l empty) (up_to_next front m later db.user_version sorted behind h)
      ∙ replay-append (up_to db.user_version ms) (m ∷ []) empty
      ∙ ap (λ o. o >>= replay (m ∷ [])) built
      ∙ ap (λ o. o >>= replay []) ran

  apply_all-IsMigrated :
      (front pending : List Migration) (empty : S) (db : Database S)
      → IsInOrder (front ++ pending)
      → All (λ m. m.version ≤ db.user_version) front
      → All (λ m. db.user_version < m.version) pending
      → IsBuilt (front ++ pending) empty db
      → IsMigrated (front ++ pending) empty (apply_all run pending db)
  unfolding apply_all
  apply_all-IsMigrated front [] empty db sorted behind ahead built =
      (built, refl, rw (append-nil front) behind)
  apply_all-IsMigrated front (m ∷ pending) empty db sorted behind ahead built =
      elim (Option-cases (run m.file.sql db.schema)) [
        | inl broken ↦ rw (broken, IsMigrated) built
        | inr (s, ran) ↦
            let assoc = append_assoc front (m ∷ []) pending in
            let behind_now =
              All-append (λ l. l.version ≤ m.version) front (m ∷ [])
                (All-weaken (λ l. l.version ≤ db.user_version) (λ l. l.version ≤ m.version)
                  (λ l before_it. omega (arith, before_it, ahead.0)) front behind)
                (omega arith, tt) in
            let built_now =
              IsBuilt-next front m pending empty s db sorted behind ahead.0 built ran in
            let rest =
              apply_all-IsMigrated (front ++ m ∷ []) pending empty
                (record { schema = s; user_version = m.version })
                (subst IsInOrder (sym assoc) sorted) behind_now (ahead_of front m pending sorted)
                (subst (λ ms. IsBuilt ms empty (record { schema = s; user_version = m.version }))
                  (sym assoc) built_now) in
            rw ran (
              subst
                (λ ms.
                  IsMigrated ms empty
                    (apply_all run pending (record { schema = s; user_version = m.version })))
                assoc rest)
      ]

  -- From a database that the migrations up to its version make of an empty schema, `migrate` leaves
  -- such a database, whether every script ran or one failed; where it returns a version, that is the
  -- database's, and no migration is beyond it.
  pub migrate-IsMigrated :
      (files : List File) (ms : List Migration) (empty : S) (db : Database S)
      → discover files ≡ good ms
      → IsBuilt ms empty db
      → IsMigrated ms empty (migrate run files db)
  unfolding migrate
  migrate-IsMigrated files ms empty db found built =
      let (front, split, behind, ahead) =
        pending_ones db.user_version ms (discover-versions files ms found).0 in
      let pending = filter (λ m. ltb db.user_version m.version) ms in
      let run_them =
        apply_all-IsMigrated front pending empty db
          (subst IsInOrder split (discover-versions files ms found).0) behind ahead
          (subst (λ l. IsBuilt l empty db) split built) in
      rw found (subst (λ l. IsMigrated l empty (apply_all run pending db)) (sym split) run_them)
