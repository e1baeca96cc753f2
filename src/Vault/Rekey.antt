-- ===== src/Vault/Rekey.antt =====
-- A change of password loses nothing, or changes nothing.
use openvpn_connect_web.Prelude.{
  bind-eq-some, List, Option, [], ap, map, refl, some, sym, ℕ, ◌∙◌, ◌∷◌, ◌≡◌, none,
}
use openvpn_connect_web.Vault.{
  Cipher, Columns, Opened, Sealed, columns_of, decrypt_columns, encrypt_columns, opened, rekey,
  rekey_row, rekey_rows, unlock, vault_error, with_columns, commit, rekey_with,
}
use openvpn_connect_web.Store.Connections.{Connection}
use openvpn_connect_web.Prelude.Text.{Text}
use openvpn_connect_web.Vault.Unlock.{unlock_row-vault_row}

abbrev no_columns : Columns
no_columns = record { profile = []; username = []; password = [] }

module _ {K : Type 0} (cipher : Cipher K) where
  -- what a key reads in each row, in order
  abbrev pub readings : K → List Connection → List (Option Columns)
  readings key rows = map (λ (c : Connection). decrypt_columns cipher key (columns_of c)) rows

  -- the rows without their encrypted columns
  abbrev pub bare : List Connection → List Connection
  bare rows = map (with_columns no_columns) rows

  pub decrypt_columns-encrypt_columns :
      (key : K) (iv : ℕ) (plain : Columns)
      → decrypt_columns cipher key (encrypt_columns cipher key iv plain) ≡ some plain
  unfolding decrypt_columns encrypt_columns
  decrypt_columns-encrypt_columns key iv plain =
      rw
        (
          cipher.decrypt-encrypt key iv plain.profile,
          cipher.decrypt-encrypt key iv plain.username,
          cipher.decrypt-encrypt key iv plain.password,
        )
        refl

  rekey_row-some :
      (old new : K) (iv : ℕ) (c c' : Connection)
      → rekey_row cipher old new iv c ≡ some c'
      → (decrypt_columns cipher new (columns_of c') ≡ decrypt_columns cipher old (columns_of c))
        × (with_columns no_columns c' ≡ with_columns no_columns c)
  unfolding rekey_row
  rekey_row-some old new iv c c' e =
      let (plain, read, made) = bind-eq-some (decrypt_columns cipher old (columns_of c)) _ e in
      let same : with_columns (encrypt_columns cipher new iv plain) c ≡ c' = cc made in
      (
        ap (λ (d : Connection). decrypt_columns cipher new (columns_of d)) (sym same)
            ∙ decrypt_columns-encrypt_columns new iv plain
            ∙ sym read,
        ap (with_columns no_columns) (sym same),
      )

  rekey_rows-some :
      (old new : K) (iv : ℕ) (rows rows' : List Connection)
      → rekey_rows cipher old new iv rows ≡ some rows'
      → (readings new rows' ≡ readings old rows) × (bare rows' ≡ bare rows)
  unfolding rekey_rows
  rekey_rows-some old new iv [] rows' e =
      let same : [] ≡ rows' = cc e in (ap (readings new) (sym same), ap bare (sym same))
  rekey_rows-some old new iv (c ∷ rows) rows' e =
      let (c', first, e') = bind-eq-some (rekey_row cipher old new iv c) _ e in
      let (rest, later, e'') = bind-eq-some (rekey_rows cipher old new iv rows) _ e' in
      let same : c' ∷ rest ≡ rows' = cc e'' in
      let (read, named) = rekey_row-some old new iv c c' first in
      let (reads, names) = rekey_rows-some old new iv rows rest later in
      (
        ap (readings new) (sym same) ∙ rw (read, reads) refl,
        ap bare (sym same) ∙ rw (named, names) refl,
      )

  -- what a change of password comes to: the key and the new database, or the error and the old one
  abbrev pub IsRekeyed : Text → Text → Sealed → Opened K × Sealed → Type 0
  IsRekeyed old_password new_password db (vault_error e, db') = db' ≡ db
  IsRekeyed old_password new_password db (opened key, db') =
      (old_key : K) × (unlock cipher old_password db ≡ opened old_key)
      × (unlock cipher new_password db' ≡ opened key)
      × (readings key db'.connections ≡ readings old_key db.connections)
      × (bare db'.connections ≡ bare db.connections)

  commit-IsRekeyed :
      (salt : Text) (iv now : ℕ) (old_password new_password : Text) (db : Sealed) (old_key : K)
      (o : Option (List Connection))
      → unlock cipher old_password db ≡ opened old_key
      → rekey_rows cipher old_key (cipher.derive new_password salt) iv db.connections ≡ o
      → IsRekeyed old_password new_password db
          (commit cipher salt iv now (cipher.derive new_password salt) o db)
  unfolding commit unlock
  commit-IsRekeyed salt iv now old_password new_password db old_key none known e = refl
  commit-IsRekeyed salt iv now old_password new_password db old_key (some rows) known e =
      let (read, named) =
        rekey_rows-some old_key (cipher.derive new_password salt) iv db.connections rows e in
      (old_key, known, unlock_row-vault_row cipher new_password salt iv now, read, named)

  rekey_with-IsRekeyed :
      (salt : Text) (iv now : ℕ) (old_password new_password : Text) (db : Sealed) (o : Opened K)
      → unlock cipher old_password db ≡ o
      → IsRekeyed old_password new_password db (rekey_with cipher salt iv now new_password o db)
  unfolding rekey_with
  rekey_with-IsRekeyed salt iv now old_password new_password db (vault_error e) known = refl
  rekey_with-IsRekeyed salt iv now old_password new_password db (opened old_key) known =
      commit-IsRekeyed salt iv now old_password new_password db old_key _ known refl

  -- When `rekey` succeeds, the old password unlocked the vault before and the new one unlocks it
  -- after, to the key returned; the new key reads in each row what the old one read, and the rest
  -- of each row, and their order, are as they were. When it fails, the database is unchanged.
  pub rekey-IsRekeyed :
      (salt : Text) (iv now : ℕ) (old_password new_password : Text) (db : Sealed)
      → IsRekeyed old_password new_password db
          (rekey cipher salt iv now old_password new_password db)
  unfolding rekey
  rekey-IsRekeyed salt iv now old_password new_password db =
      rekey_with-IsRekeyed salt iv now old_password new_password db _ refl
