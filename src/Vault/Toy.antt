-- ===== src/Vault/Toy.antt =====
-- A cipher that puts the key in front of the text, and a key that is the length of the password.
use openvpn_connect_web.Vault.{Cipher}
use openvpn_connect_web.Prelude.{
  Option, [], arith, if◌then◌else◌, length, none, some, ℕ, ◌==◌, ◌∷◌, ◌≡◌,
}
use openvpn_connect_web.Prelude.Text.{Text}

unfoldable pub unlocks : ℕ → Text → Option Text
unlocks k [] = none
unlocks k (c ∷ t) = if c == k then some t else none

pub unlocks_own : (k : ℕ) (t : Text) → unlocks k (k ∷ t) ≡ some t
unfolding unlocks
unlocks_own k t = ground arith

abbrev pub toy : Cipher ℕ
toy = record {
  derive = λ password salt. length password;
  encrypt = λ k iv t. k ∷ t;
  decrypt = unlocks;
  decrypt-encrypt = λ k iv t. unlocks_own k t;
}
