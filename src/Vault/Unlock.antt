-- ===== src/Vault/Unlock.antt =====
-- The password that made the vault opens it.
use openvpn_connect_web.Vault.{
  Cipher, Sealed, already_exists, initialise, opened, unlock, unlock_row, vault_error, vault_row,
  verified, verifier_mismatch, verifier_plaintext, wrong_password,
}
use openvpn_connect_web.Prelude.Text.{Text, text_eq_refl}
use openvpn_connect_web.Prelude.{ap, if◌then◌else◌, none, refl, some, ℕ, ◌∙◌, ◌≡◌}

module _ {K : Type 0} (cipher : Cipher K) where
  pub unlock_row-vault_row :
      (password salt : Text) (iv now : ℕ)
      → unlock_row cipher password
          (some (vault_row cipher (cipher.derive password salt) salt iv now))
        ≡ opened (cipher.derive password salt)
  unfolding vault_row
  unlock_row-vault_row password salt iv now =
      ap (verified cipher (cipher.derive password salt))
        (cipher.decrypt-encrypt (cipher.derive password salt) iv verifier_plaintext)
      ∙ ap (λ b. if b then opened (cipher.derive password salt) else vault_error verifier_mismatch)
          (text_eq_refl verifier_plaintext)

  -- Where there is no vault, `initialise` makes one that `unlock` opens with the same password, to
  -- the same key; another password, whose key does not decrypt the verifier, is refused as wrong,
  -- and a second `initialise` is refused and changes nothing.
  pub unlock-initialise :
      (salt : Text) (iv now : ℕ) (password : Text) (db : Sealed) (other : Text) (salt' : Text)
      (iv' now' : ℕ)
      → db.vault ≡ none
      → cipher.decrypt
          (cipher.derive other salt)
          (cipher.encrypt (cipher.derive password salt) iv verifier_plaintext)
        ≡ none
      → let key = cipher.derive password salt in
        let db' = (initialise cipher salt iv now password db).1 in
        ((initialise cipher salt iv now password db).0 ≡ opened key)
        × (unlock cipher password db' ≡ opened key)
        × (unlock cipher other db' ≡ vault_error wrong_password)
        × (initialise cipher salt' iv' now' other db' ≡ (vault_error already_exists, db'))
  unfolding initialise unlock vault_row
  unlock-initialise salt iv now password db other salt' iv' now' fresh wrong = rw fresh (
    refl,
    unlock_row-vault_row password salt iv now,
    ap (verified cipher (cipher.derive other salt)) wrong,
    refl,
  )
