-- ===== src/Connections/Secrets.antt =====
-- What is saved is what a connect gets.
use mathlib.Core.Option
use mathlib.Core.Path.{subst}
use openvpn_connect_web.Prelude.{
  Bool, Bool-cases, List, Option, [], ap, find, if_elim, inl, inr, length, map, none, refl, some, ℕ,
  ◌++◌, ◌==◌, ◌||◌, ◌∙◌, ◌∷◌, ◌≡◌, arith, if◌then◌else◌, true, sym,
}
use openvpn_connect_web.Store.Connections.{
  Connection, Form, blank, clear_defaults, has_name, mark_default, put_row, upsert, with_values,
  write, check_form, is_valid_name, save_connection, get_connection, kept,
}
use openvpn_connect_web.Prelude.Text.{Text, text_eq_refl, text_eq, strip, text_eq_sound}
use openvpn_connect_web.Vault.{columns_of, Cipher, Columns, decrypt_columns, encrypt_columns}
use openvpn_connect_web.Store.Connections.Default.{mark-is_name}
use openvpn_connect_web.Store.Sessions.{next_id}
use openvpn_connect_web.Store.Connections.Calls.{rewritten, same_name}
use openvpn_connect_web.Connections.{
  Service, after_save, derived, profile_name, profile_wants_mfa, resolve, save, save_with, served,
  with_dns_override, put_file, resolve_found, resolve_with,
}
use openvpn_connect_web.Controller.Api.{Resolved}
use openvpn_connect_web.Vault.Rekey.{decrypt_columns-encrypt_columns}

module _ (p : Connection → Bool) (f : Connection → Connection)
    (same : (c : Connection) → p (f c) ≡ p c) where
  find-map : (rows : List Connection) → find p (map f rows) ≡ Option.map f (find p rows)
  find-map [] = refl
  find-map (c ∷ rows) = elim (Bool-cases (p c)) [
    | inl hit ↦ rw (same c, hit) refl
    | inr miss ↦ rw (same c, miss) (find-map rows)
  ]

find-append_of_none :
    (p : Connection → Bool) (xs ys : List Connection)
    → find p xs ≡ none
    → find p (xs ++ ys) ≡ find p ys
find-append_of_none p [] ys e = refl
find-append_of_none p (x ∷ xs) ys e = elim (Bool-cases (p x)) [
  | inl hit ↦ cc (rw hit at e)
  | inr miss ↦ rw miss (find-append_of_none p xs ys (rw miss at e))
]

-- the columns that a marking of the default leaves alone
abbrev HoldsForm : (Text → Text) → Form → Connection → Type 0
HoldsForm encrypt f c =
    (columns_of c ≡ record {
      profile = encrypt f.profile;
      username = encrypt f.username;
      password = encrypt f.password;
    })
    × (c.ignore_pushed_dns ≡ f.ignore_pushed_dns)

module _ (encrypt : Text → Text) (now : ℕ) (f : Form) (n : Text) where
  -- the row of a name, with the values of the form
  abbrev Finds : List Connection → Type 0
  Finds rows = (c : Connection) × (find (has_name n) rows ≡ some c) × HoldsForm encrypt f c

  Finds-map :
      (g : Connection → Connection) (rows : List Connection)
      → ((c : Connection) → has_name n (g c) ≡ has_name n c)
      → ((c : Connection) → HoldsForm encrypt f c → HoldsForm encrypt f (g c))
      → Finds rows
      → Finds (map g rows)
  Finds-map g rows same holds (c, e, h) =
      (g c, find-map (has_name n) g same rows ∙ ap (Option.map g) e, holds c h)

  first_of :
      (c : Connection) (rows : List Connection)
      → has_name n c ≡ true
      → find (has_name n) (c ∷ rows) ≡ some c
  first_of c rows h = rw h refl

  put_row-Finds :
      (rows : List Connection) (o : Option Connection)
      → find (has_name n) rows ≡ o
      → Finds (put_row encrypt now f n rows o)
  unfolding put_row with_values blank
  put_row-Finds rows none e =
      let c =
        with_values encrypt now f (blank encrypt (next_id (λ (c : Connection). c.id) rows) n now) in
      let named : has_name n c ≡ true = text_eq_refl n in
      (c, find-append_of_none (has_name n) rows (c ∷ []) e ∙ first_of c [] named, (refl, refl))
  put_row-Finds rows (some existing) e =
      let g = rewritten encrypt now f existing.id in
      let own : (existing.id == existing.id) ≡ true = ground arith in
      let named : (c : Connection) → has_name n (g c) ≡ has_name n c =
        λ c. ap (text_eq n) (same_name encrypt now f existing.id c) in
      let whole = λ (b : Bool). if b then with_values encrypt now f existing else existing in
      (
        g existing,
        find-map (has_name n) g named rows ∙ ap (Option.map g) e,
        (ap (λ b. columns_of (whole b)) own, ap (λ b. (whole b).ignore_pushed_dns) own),
      )

  write-Finds : (rows : List Connection) → Finds (write encrypt now f n rows)
  unfolding write upsert mark_default clear_defaults
  write-Finds rows =
      let rows' = upsert encrypt now f n rows in
      let put = put_row-Finds rows (find (has_name n) rows) refl in
      if_elim Finds (f.make_default || (length rows' == 1))
        (λ _.
          Finds-map _ _ (mark-is_name n n)
            (λ c h. if_elim (HoldsForm encrypt f) (has_name n c) (λ _. h) (λ _. h))
            (Finds-map _ rows' (λ c. refl) (λ c h. h) put))
        (λ _. put)

find-eq-some :
    (p : Connection → Bool) (rows : List Connection) (c : Connection)
    → find p rows ≡ some c
    → p c ≡ true
find-eq-some p [] c e = cc e
find-eq-some p (x ∷ rows) c e = elim (Bool-cases (p x)) [
  | inl hit ↦ let same : x ≡ c = cc (rw hit at e) in ap p (sym same) ∙ hit
  | inr miss ↦ find-eq-some p rows c (rw miss at e)
]

valid_form : (f : Form) → check_form f ≡ none → is_valid_name (strip f.name) ≡ true
unfolding check_form
valid_form f fine = elim (Bool-cases (is_valid_name (strip f.name))) [
  | inl valid ↦ valid
  | inr invalid ↦ cc (rw invalid at fine)
]

save_connection-eq :
    (encrypt : Text → Text) (now : ℕ) (f : Form) (rows : List Connection)
    → check_form f ≡ none
    → save_connection encrypt now f rows ≡ (
      kept (get_connection (write encrypt now f (strip f.name) rows) (strip f.name)),
      write encrypt now f (strip f.name) rows,
    )
unfolding save_connection
save_connection-eq encrypt now f rows fine = rw (fine, save_connection) refl

module _ {K : Type 0} (cipher : Cipher K) where
  same_checks : (f : Form) → check_form (derived cipher f) ≡ check_form f
  unfolding check_form derived
  same_checks f = refl

  -- the service after a save that came through
  abbrev saved_service : ℕ → ℕ → Form → K → Service cipher → Service cipher
  saved_service now iv f key w = record {
    key = some key;
    rows = write (cipher.encrypt key iv) now (derived cipher f) (strip f.name) w.rows;
    files =
        put_file cipher (profile_name f.name)
          (some (with_dns_override f.profile f.ignore_pushed_dns)) w.files;
  }

  save-eq :
      (now iv : ℕ) (f : Form) (key : K) (w : Service cipher)
      → w.key ≡ some key
      → check_form f ≡ none
      → (save cipher now iv true f w).1 ≡ saved_service now iv f key w
  unfolding save save_with after_save derived
  save-eq now iv f key w unlocked fine =
      ap (λ k. (save_with cipher now iv true f k w).1) unlocked
      ∙ ap (λ r. (after_save cipher true f r w).1)
          (save_connection-eq (cipher.encrypt key iv) now (derived cipher f) w.rows
            (same_checks f ∙ fine))
      ∙ ap (λ k. record (saved_service now iv f key w) { key = k }) unlocked

  abbrev resolved_from : Form → Resolved
  resolved_from f = record {
    name = f.name;
    username = f.username;
    password = f.password;
    requires_mfa = profile_wants_mfa f.profile;
  }

  resolve_with-eq :
      (f : Form) (key : K) (iv : ℕ) (c : Connection) (w : Service cipher)
      → HoldsForm (cipher.encrypt key iv) f c
      → c.name ≡ f.name
      → ((resolve_with cipher true f.name c (decrypt_columns cipher key (columns_of c)) w).0
          ≡ served (resolved_from f))
        × ((resolve_with cipher true f.name c (decrypt_columns cipher key (columns_of c)) w).1.files
              (profile_name f.name)
            ≡ some (with_dns_override f.profile f.ignore_pushed_dns))
  unfolding resolve_with encrypt_columns
  resolve_with-eq f key iv c w (columns, flag) named =
      let plain : Columns = record {
        profile = f.profile;
        username = f.username;
        password = f.password;
      } in
      let read =
        ap (decrypt_columns cipher key) columns
        ∙ decrypt_columns-encrypt_columns cipher key iv plain in
      rw (read, named, flag, text_eq_refl (profile_name f.name)) (refl, refl)

  -- With the vault unlocked and the disk taking files, a save whose form passes the checks and whose
  -- name has no white space around it makes the next `resolve` of that name give back the user name
  -- and the password of the form, ask for a code exactly if the profile does, and leave the form's
  -- profile, with its DNS setting applied, in the file of that name.
  pub resolve-save :
      (now iv : ℕ) (f : Form) (key : K) (w : Service cipher)
      → w.key ≡ some key
      → strip f.name ≡ f.name
      → check_form f ≡ none
      → let w' = (save cipher now iv true f w).1 in
        ((resolve cipher true f.name w').0
          ≡ served (record {
            name = f.name;
            username = f.username;
            password = f.password;
            requires_mfa = profile_wants_mfa f.profile;
          }))
        × ((resolve cipher true f.name w').1.files (profile_name f.name)
            ≡ some (with_dns_override f.profile f.ignore_pushed_dns))
  unfolding resolve resolve_found get_connection derived
  resolve-save now iv f key w unlocked tidy fine =
      let valid = subst (λ n. is_valid_name n ≡ true) tidy (valid_form f fine) in
      let (c, e, holds) =
        write-Finds (cipher.encrypt key iv) now (derived cipher f) (strip f.name) w.rows in
      let e' = subst (λ n. find (has_name n) (saved_service now iv f key w).rows ≡ some c) tidy e in
      let named = sym (text_eq_sound f.name c.name (find-eq-some (has_name f.name) _ c e')) in
      rw (save-eq now iv f key w unlocked fine, valid, e')
        (resolve_with-eq f key iv c (saved_service now iv f key w) holds named)
