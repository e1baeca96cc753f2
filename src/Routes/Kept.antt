-- ===== src/Routes/Kept.antt =====
-- What the services' own operations keep of the table of connections, and the snapshot of the status.
use openvpn_connect_web.Controller.State.{
  connected, State, disconnected, Controller, Status, is_busy, is_disconnected, is_connected,
  unmanaged,
}
use openvpn_connect_web.Connections
use openvpn_connect_web.Controller.Api.{adopted, snapshot, is_unmanaged, addressed, described}
use openvpn_connect_web.Store.Connections as Table
use openvpn_connect_web.Prelude.{
  Bool-cases, Option, inl, inr, none, refl, some, true, ◌≡◌, Bool, arith, false, ℕ, ◌≤◌, List, ap,
  ◌∙◌,
}
use openvpn_connect_web.Prelude.Text.{Text, text_eq}
use openvpn_connect_web.Prelude.Number.{ℤ}
use openvpn_connect_web.Vault.{Cipher, Columns}
use openvpn_connect_web.Store.Connections.{
  Form, Connection, Stored, is_valid_name, kept, store_error,
}
use openvpn_connect_web.Store.Connections.Names.{
  named, named-delete_connection, named-save_connection,
}
use openvpn_connect_web.Connections.{save_with, derived, Served, failed_with, served}
use openvpn_connect_web.Resolver.{plain}

busy_is_between :
    (s : State)
    → is_busy s ≡ true
    → (is_disconnected s ≡ false) × (is_connected s ≡ false) × (is_unmanaged s ≡ false)
busy_is_between disconnected busy = cc busy
busy_is_between connected busy = cc busy
busy_is_between unmanaged busy = cc busy
busy_is_between _ busy = (refl, refl, refl)

described_same : (s : Status) → is_disconnected s.state ≡ false → described s ≡ s
described_same s e = rw e refl

addressed_same :
    (address : Option Text) (s : Status)
    → is_connected s.state ≡ false
    → is_unmanaged s.state ≡ false
    → addressed address s ≡ s
addressed_same address s e e' = rw (e, e') refl

adopted_same : (pid : Option ℤ) (s : Status) → is_disconnected s.state ≡ false → adopted pid s ≡ s
adopted_same none s e = refl
adopted_same (some p) s e = rw e refl

-- the corrections of `snapshot` do not touch the status of an attempt under way
pub snapshot-busy :
    {H : Type 0} (pid : Option ℤ) (address : Option Text) (c : Controller H)
    → is_busy c.status.state ≡ true
    → snapshot pid address c ≡ record (c.status) { pid = pid }
unfolding snapshot
snapshot-busy pid address c busy =
    let (apart, up_one, ours) = busy_is_between c.status.state busy in
    let s : Status = record (c.status) { pid = pid } in
    ap (λ x. described (addressed address x)) (adopted_same pid s apart)
    ∙ ap described (addressed_same address s up_one ours)
    ∙ described_same s apart

module _ {K : Type 0} (cipher : Cipher K) (p : Text) where
  after_save-named :
      (disk : Bool) (f : Form) (result : Stored (Option Connection) × List Connection)
      (s : Connections.Service cipher)
      → named p s.rows ≤ named p result.1
      → named p s.rows ≤ named p (Connections.after_save cipher disk f result s).1.rows
  unfolding Connections.after_save
  after_save-named disk f (store_error why, rows) s h = omega arith
  after_save-named true f (kept c, rows) s h = h
  after_save-named false f (kept c, rows) s h = h

  pub save_with-named :
      (now iv : ℕ) (disk : Bool) (f : Form) (key : Option K) (s : Connections.Service cipher)
      → named p s.rows ≤ named p (Connections.save_with cipher now iv disk f key s).1.rows
  unfolding save_with
  save_with-named now iv disk f none s = omega arith
  save_with-named now iv disk f (some key) s =
      after_save-named disk f _ s
        (named-save_connection p (cipher.encrypt key iv) now (derived cipher f) s.rows)

  resolve_with-rows :
      (disk : Bool) (n : Text) (c : Connection) (o : Option Columns)
      (s : Connections.Service cipher)
      → (Connections.resolve_with cipher disk n c o s).1.rows ≡ s.rows
  unfolding Connections.resolve_with
  resolve_with-rows disk n c none s = refl
  resolve_with-rows true n c (some plain) s = refl
  resolve_with-rows false n c (some plain) s = refl

  resolve_found-rows :
      (disk : Bool) (n : Text) (o : Option Connection) (key : Option K)
      (s : Connections.Service cipher)
      → (Connections.resolve_found cipher disk n o key s).1.rows ≡ s.rows
  unfolding Connections.resolve_found
  resolve_found-rows disk n none key s = refl
  resolve_found-rows disk n (some c) none s = refl
  resolve_found-rows disk n (some c) (some key) s = resolve_with-rows disk n c _ s

  pub resolve-rows :
      (disk : Bool) (n : Text) (s : Connections.Service cipher)
      → (Connections.resolve cipher disk n s).1.rows ≡ s.rows
  unfolding Connections.resolve
  resolve-rows disk n s = elim (Bool-cases (is_valid_name n)) [
    | inl valid ↦ rw valid (resolve_found-rows disk n _ s.key s)
    | inr invalid ↦ rw invalid refl
  ]

  after_delete-named :
      (n : Text) (result : Stored (Unit {0}) × List Connection) (s : Connections.Service cipher)
      → named p result.1 ≡ named p s.rows
      → named p (Connections.after_delete cipher n result s).1.rows ≡ named p s.rows
  after_delete-named n (store_error why, rows) s h = refl
  after_delete-named n (kept _, rows) s h = h

  pub delete-named :
      (n : Text) (s : Connections.Service cipher)
      → text_eq n p ≡ false
      → named p (Connections.delete cipher n s).1.rows ≡ named p s.rows
  unfolding Connections.delete
  delete-named n s differ =
      after_delete-named n (Table.delete_connection n s.rows) s
        (named-delete_connection p n differ s.rows)
