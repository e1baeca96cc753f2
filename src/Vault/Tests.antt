-- ===== src/Vault/Tests.antt =====
-- A database with one connection, before and after it has a vault.
use openvpn_connect_web.Vault.Toy.{toy, unlocks}
use openvpn_connect_web.Vault.{
  Sealed, already_exists, commit, decrypt_columns, encrypt_columns, initialise, opened, rekey,
  rekey_row, rekey_rows, rekey_with, unlock, vault_error, verifier_plaintext, wrong_password,
}
use openvpn_connect_web.Store.Connections.{Connection}
use openvpn_connect_web.Vault.Rekey.{IsRekeyed, rekey-IsRekeyed}
use openvpn_connect_web.Prelude.{[], false, none, refl, some, true, ◌∷◌, ◌≡◌}
use openvpn_connect_web.Prelude.Text.{text, text_eq}
use openvpn_connect_web.Vault.Unlock.{unlock-initialise}

abbrev office : Connection
office = record {
  id = 1;
  name = text "office";
  label = [];
  profile = 3 ∷ text "client";
  username = 3 ∷ text "ann";
  password = 3 ∷ text "secret";
  static_challenge = [];
  is_default = true;
  ignore_pushed_dns = false;
  requires_mfa = false;
  created_at = 0;
  updated_at = 0;
}

abbrev empty_vault : Sealed
empty_vault = record { vault = none; connections = office ∷ [] }

abbrev filled : Sealed
filled = record {
  vault = some (record { salt = []; verifier = 3 ∷ verifier_plaintext; created_at = 0 });
  connections = office ∷ [];
}

wrong_key : unlocks 5 (3 ∷ verifier_plaintext) ≡ none
unfolding unlocks
wrong_key = refl

unlock-initialise_example :
    let db' = (initialise toy [] 0 0 (text "abc") empty_vault).1 in
    ((initialise toy [] 0 0 (text "abc") empty_vault).0 ≡ opened 3)
    × (unlock toy (text "abc") db' ≡ opened 3)
    × (unlock toy (text "wrong") db' ≡ vault_error wrong_password)
    × (initialise toy [] 1 1 (text "wrong") db' ≡ (vault_error already_exists, db'))
unlock-initialise_example =
    unlock-initialise toy [] 0 0 (text "abc") empty_vault (text "wrong") [] 1 1 refl wrong_key

rekey-IsRekeyed_example :
    IsRekeyed toy
      (text "abc")
      (text "longer")
      filled
      (rekey toy [] 0 9 (text "abc") (text "longer") filled)
rekey-IsRekeyed_example = rekey-IsRekeyed toy [] 0 9 (text "abc") (text "longer") filled

rekeyed : (rekey toy [] 0 9 (text "abc") (text "longer") filled).0 ≡ opened 6
unfolding rekey rekey_with rekey_rows rekey_row decrypt_columns encrypt_columns commit unlock
    unlocks text_eq
rekeyed = refl
