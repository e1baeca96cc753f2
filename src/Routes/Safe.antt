-- ===== src/Routes/Safe.antt =====
-- The views that may refuse leave the tables as they were when they do.
use openvpn_connect_web.Controller.State.{Kind}
use openvpn_connect_web.Connections
use openvpn_connect_web.DnsService
use openvpn_connect_web.Routes
use openvpn_connect_web.Routes.{
  Endpoint, HttpReply, reply, Panel, Around, Body, with_upload, acknowledged, is_switch_word,
  pushed_dns_ignored, switch_word,
}
use openvpn_connect_web.Routes.Handlers as Handlers
use openvpn_connect_web.Routes.Tunnel as Tunnel
use openvpn_connect_web.Store.Connections as Table
use openvpn_connect_web.Prelude.{
  Bool, List, false, leb, not, refl, true, ◌&&◌, ◌==◌, ◌≡◌, Bool-cases, Option, Option-cases, ap,
  find, inl, inr, none, some, ℕ,
}
use openvpn_connect_web.Vault.{Cipher}
use openvpn_connect_web.Store.Connections.{
  Connection, Stored, kept, store_error, Form, get_connection, has_name,
}
use openvpn_connect_web.Prelude.Text.{Text}
use openvpn_connect_web.Firewall.{Answer}
use openvpn_connect_web.Store.DnsRules.{Changed, DnsRule}
use openvpn_connect_web.DnsService.Applied.{IsCarriedOut}
use openvpn_connect_web.Connections.{Served, failed_with, served}
use openvpn_connect_web.Routes.Handlers.{topic_field}

-- an error of the request's, not one of the server's: 500 is an uncaught exception, or the save of a
-- connection whose profile file could not be written
abbrev pub is_refusal : HttpReply → Bool
is_refusal r = leb 400 r.code && not (r.code == 500)

abbrev pub is_import : Endpoint → Bool
is_import Routes.import_dns_rules = true
is_import _ = false

pub set_default-refused :
    (n : Text) (rows : List Connection) (why : Text)
    → (Table.set_default n rows).0 ≡ store_error why
    → (Table.set_default n rows).1 ≡ rows
unfolding Table.set_default get_connection
set_default-refused n rows why = elim (Option-cases (find (has_name n) rows)) [
  | inl e ↦ rw (e, Table.set_default) (λ _. refl)
  | inr (c, e) ↦ rw (e, Table.set_default) (λ h. cc h)
]

pub toggle-refused :
    (now : ℕ) (n : Text) (rows : List Connection) (why : Text)
    → (Table.toggle_ignore_pushed_dns now n rows).0 ≡ store_error why
    → (Table.toggle_ignore_pushed_dns now n rows).1 ≡ rows
unfolding Table.toggle_ignore_pushed_dns get_connection
toggle-refused now n rows why = elim (Option-cases (find (has_name n) rows)) [
  | inl e ↦ rw (e, Table.toggle_ignore_pushed_dns) (λ _. refl)
  | inr (c, e) ↦ rw (e, Table.toggle_ignore_pushed_dns) (λ h. cc h)
]

module _ {K : Type 0} (cipher : Cipher K) {D F H : Type 0} where
  -- the tables are as they were
  pub record IsUntouched (w w' : Panel cipher D F H) : Type 0 where
    pub rows_kept : (w'.connections).rows ≡ (w.connections).rows
    pub settings_kept : w'.settings ≡ w.settings
    pub rules_kept : (w'.dns).rules ≡ (w.dns).rules

  pub same-IsUntouched : (w : Panel cipher D F H) → IsUntouched w w
  same-IsUntouched w = record { rows_kept = refl; settings_kept = refl; rules_kept = refl }

  abbrev pub IsSafe : Panel cipher D F H → HttpReply × Panel cipher D F H → Type 0
  IsSafe w result = is_refusal result.0 ≡ true → IsUntouched w result.1

  pub stored-IsSafe :
      {A : Type 0} (body : A → Body) (x : Stored A × List Connection) (w : Panel cipher D F H)
      → ((why : Text) → x.0 ≡ store_error why → x.1 ≡ (w.connections).rows)
      → IsSafe w (Handlers.stored_reply body x.0, Handlers.with_rows cipher x.1 w)
  stored-IsSafe body (kept a, rows) w h = λ e. cc e
  stored-IsSafe body (store_error why, rows) w h =
      λ e. record { rows_kept = h why refl; settings_kept = refl; rules_kept = refl }

  -- the panel with other connections, whose table is the same
  with_connections-IsUntouched :
      (w : Panel cipher D F H) (s : Connections.Service cipher)
      → s.rows ≡ (w.connections).rows
      → IsUntouched w (record w { connections = s })
  with_connections-IsUntouched w s h = record {
    rows_kept = h;
    settings_kept = refl;
    rules_kept = refl;
  }

  after_save-IsSafe :
      (disk : Bool) (f : Form) (x : Stored (Option Connection) × List Connection)
      (w : Panel cipher D F H)
      → let y = Connections.after_save cipher disk f x w.connections in
        IsSafe w (Handlers.saved_reply y.0, record w { connections = y.1 })
  unfolding Connections.after_save
  after_save-IsSafe disk f (store_error why, rows) w =
      λ e. with_connections-IsUntouched w w.connections refl
  after_save-IsSafe true f (kept c, rows) w = λ e. cc e
  after_save-IsSafe false f (kept c, rows) w = λ e. cc e

  save_with-IsSafe :
      (now iv : ℕ) (disk : Bool) (f : Form) (key : Option K) (w : Panel cipher D F H)
      → let y = Connections.save_with cipher now iv disk f key w.connections in
        IsSafe w (Handlers.saved_reply y.0, record w { connections = y.1 })
  unfolding Connections.save_with
  save_with-IsSafe now iv disk f none w = λ e. with_connections-IsUntouched w w.connections refl
  save_with-IsSafe now iv disk f (some key) w = after_save-IsSafe disk f _ w

  pub save_connection-IsSafe :
      (a : Around) (f : Form) (upload : Option (Option Text)) (w : Panel cipher D F H)
      → IsSafe w (Handlers.save_connection cipher a f upload w)
  unfolding Handlers.save_connection Connections.save
  save_connection-IsSafe a f (some none) w = λ e. same-IsUntouched w
  save_connection-IsSafe a f none w =
      save_with-IsSafe a.now a.iv a.disk (with_upload f none) (w.connections).key w
  save_connection-IsSafe a f (some (some t)) w =
      save_with-IsSafe a.now a.iv a.disk (with_upload f (some t)) (w.connections).key w

  deleted-IsSafe :
      (n : Text) (x : Stored (Unit {0}) × List Connection) (w : Panel cipher D F H)
      → let y = Connections.after_delete cipher n x w.connections in
        IsSafe w (Handlers.deleted_reply y.0, record w { connections = y.1 })
  deleted-IsSafe n (store_error why, rows) w =
      λ e. with_connections-IsUntouched w w.connections refl
  deleted-IsSafe n (kept _, rows) w = λ e. cc e

  pub delete_connection-IsSafe :
      (a : Around) (n : Text) (w : Panel cipher D F H)
      → IsSafe w (Handlers.delete_connection cipher a n w)
  unfolding Handlers.delete_connection Connections.delete
  delete_connection-IsSafe a n w = elim (Bool-cases (Handlers.is_in_use cipher a n w)) [
    | inl used ↦ rw used (λ e. same-IsUntouched w)
    | inr free ↦ rw free (deleted-IsSafe n (Table.delete_connection n (w.connections).rows) w)
  ]

  pub save_settings-IsSafe :
      (now : ℕ) (topic : Option (Option Text)) (bodies : Option (Option (Kind → Option Text)))
      (w : Panel cipher D F H)
      → IsSafe w (Handlers.save_settings cipher now topic bodies w)
  save_settings-IsSafe now (some none) bodies w = λ e. same-IsUntouched w
  save_settings-IsSafe now none (some none) w = λ e. same-IsUntouched w
  save_settings-IsSafe now (some (some topic)) (some none) w = λ e. same-IsUntouched w
  save_settings-IsSafe now none none w = λ e. cc e
  save_settings-IsSafe now none (some (some bodies)) w = λ e. cc e
  save_settings-IsSafe now (some (some topic)) none w = λ e. cc e
  save_settings-IsSafe now (some (some topic)) (some (some bodies)) w = λ e. cc e

  pub after_rules-IsSafe :
      {A : Type 0} (writable : D → Bool) (helper : Text → D → Answer × D)
      (stored : Changed A × List DnsRule) (x : DnsService.Outcome A × DnsService.Service D)
      (w : Panel cipher D F H)
      → IsCarriedOut writable helper w.dns stored x
      → IsSafe w (Tunnel.after_rules cipher x w)
  after_rules-IsSafe writable helper stored (DnsService.done a warning, s) w h = λ e. cc e
  after_rules-IsSafe writable helper stored (DnsService.refused why, s) w h = λ e. record {
    rows_kept = refl;
    settings_kept = refl;
    rules_kept = ap (λ (x : DnsService.Service D). x.rules) h.1;
  }
  after_rules-IsSafe writable helper stored (DnsService.unwritten, s) w h = λ e. cc e
