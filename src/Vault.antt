-- ===== src/Vault.antt =====
-- app/services/vault.py: the key derived from the sign-in password, the row that proves it, and the
use openvpn_connect_web.Prelude.{
  ◌>>=◌, Bool, List, Option, [], false, if◌then◌else◌, none, some, true, ℕ, ◌∷◌, ◌≡◌,
}
-- change of password; and `secrets_for` of app/services/store.py. The cipher (Fernet) and the
-- derivation (scrypt) are outside: `Cipher` holds what the code calls of them. A cipher text is a text.
use openvpn_connect_web.Store.Connections.{Connection, get_connection, no_such_connection}
pub mod Unlock
pub mod Rekey
pub mod Toy
mod Tests
use openvpn_connect_web.Prelude.Text.{Text, text, text_eq}

pub record Cipher (K : Type 0) : Type 0 where
  -- `derive(password, salt)`
  pub derive : Text → Text → K
  -- `encrypt`, with the randomness that the token starts with
  pub encrypt : K → ℕ → Text → Text
  -- `decrypt`, with its InvalidToken
  pub decrypt : K → Text → Option Text
  pub decrypt-encrypt : (k : K) (iv : ℕ) (t : Text) → decrypt k (encrypt k iv t) ≡ some t

pub record VaultRow : Type 0 where
  pub salt : Text
  pub verifier : Text
  pub created_at : ℕ

-- the tables `vault` and `connections`
pub record Sealed : Type 0 where
  pub vault : Option VaultRow
  pub connections : List Connection

-- a value, or the `VaultError` or `StoreError`
pub data VaultError : Type 0 where
  already_exists not_set_up wrong_password verifier_mismatch cannot_decrypt locked : VaultError
  store_refused : Text → VaultError

pub data Opened {ℓ} (A : Type ℓ) : Type ℓ where
  opened : A → Opened A
  vault_error : VaultError → Opened A

abbrev pub verifier_plaintext : Text
verifier_plaintext = text "vpn-connect vault v1"

-- `exists`
unfoldable pub exists : Sealed → Bool
exists db = elim db.vault [ none ↦ false | some _ ↦ true ]

-- the three columns of ENCRYPTED_COLUMNS
pub record Columns : Type 0 where
  pub profile : Text
  pub username : Text
  pub password : Text

abbrev pub columns_of : Connection → Columns
columns_of c = record { profile = c.profile; username = c.username; password = c.password }

abbrev pub with_columns : Columns → Connection → Connection
with_columns s c = record c { profile = s.profile; username = s.username; password = s.password }

module _ {K : Type 0} (cipher : Cipher K) where
  unfoldable pub vault_row : K → Text → ℕ → ℕ → VaultRow
  vault_row key salt iv now = record {
    salt = salt;
    verifier = cipher.encrypt key iv verifier_plaintext;
    created_at = now;
  }

  unfoldable pub initialise : Text → ℕ → ℕ → Text → Sealed → Opened K × Sealed
  unfolding vault_row
  initialise salt iv now password db = elim db.vault [
    | some _ ↦ (vault_error already_exists, db)
    | none ↦
        let key = cipher.derive password salt in
        (opened key, record db { vault = some (vault_row key salt iv now) })
  ]

  -- the plain text of the verifier, compared
  abbrev pub verified : K → Option Text → Opened K
  verified key none = vault_error wrong_password
  verified key (some plaintext) =
      if text_eq plaintext verifier_plaintext then opened key else vault_error verifier_mismatch

  abbrev pub unlock_row : Text → Option VaultRow → Opened K
  unlock_row password none = vault_error not_set_up
  unlock_row password (some row) =
      let key = cipher.derive password row.salt in verified key (cipher.decrypt key row.verifier)

  unfoldable pub unlock : Text → Sealed → Opened K
  unlock password db = unlock_row password db.vault

  -- the columns of one row, all or none
  unfoldable pub decrypt_columns : K → Columns → Option Columns
  decrypt_columns key c = do
    profile ← cipher.decrypt key c.profile
    username ← cipher.decrypt key c.username
    password ← cipher.decrypt key c.password
    some (record { profile = profile; username = username; password = password })

  unfoldable pub encrypt_columns : K → ℕ → Columns → Columns
  encrypt_columns key iv c = record {
    profile = cipher.encrypt key iv c.profile;
    username = cipher.encrypt key iv c.username;
    password = cipher.encrypt key iv c.password;
  }

  -- the UPDATE of one row
  unfoldable pub rekey_row : K → K → ℕ → Connection → Option Connection
  unfolding decrypt_columns encrypt_columns
  rekey_row old new iv c = do
    plain ← decrypt_columns old (columns_of c)
    some (with_columns (encrypt_columns new iv plain) c)

  unfoldable pub rekey_rows : K → K → ℕ → List Connection → Option (List Connection)
  unfolding rekey_row
  rekey_rows old new iv [] = some []
  rekey_rows old new iv (c ∷ rows) = do
    c' ← rekey_row old new iv c
    rows' ← rekey_rows old new iv rows
    some (c' ∷ rows')

  -- the transaction: a row that does not decrypt rolls it back
  unfoldable pub commit : Text → ℕ → ℕ → K → Option (List Connection) → Sealed → Opened K × Sealed
  unfolding vault_row
  commit salt iv now new_key none db = (vault_error cannot_decrypt, db)
  commit salt iv now new_key (some rows) db =
      (opened new_key, record { vault = some (vault_row new_key salt iv now); connections = rows })

  unfoldable pub rekey_with : Text → ℕ → ℕ → Text → Opened K → Sealed → Opened K × Sealed
  unfolding rekey_rows commit
  rekey_with salt iv now new_password (vault_error e) db = (vault_error e, db)
  rekey_with salt iv now new_password (opened old_key) db =
      let new_key = cipher.derive new_password salt in
      commit salt iv now new_key (rekey_rows old_key new_key iv db.connections) db

  unfoldable pub rekey : Text → ℕ → ℕ → Text → Text → Sealed → Opened K × Sealed
  unfolding unlock rekey_with
  rekey salt iv now old_password new_password db =
      rekey_with salt iv now new_password (unlock old_password db) db

  unfoldable pub secrets_for : K → Text → List Connection → Opened Columns
  unfolding get_connection decrypt_columns
  secrets_for key n rows = elim (get_connection rows n) [
    | none ↦ vault_error (store_refused (no_such_connection n))
    | some c ↦ elim (decrypt_columns key (columns_of c)) [
      | none ↦ vault_error cannot_decrypt
      | some plain ↦ opened plain
    ]
  ]
