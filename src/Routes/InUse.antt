-- ===== src/Routes/InUse.antt =====
-- The profile of an attempt under way stays in the table, whatever is requested.
use openvpn_connect_web.Prelude.{
  and-true, Bool-cases, Option, inl, inr, none, refl, some, true, ◌≡◌, Bool, arith, ℕ, ◌≤◌, ap, ◌∙◌,
}
use openvpn_connect_web.Controller.State.{Kind, Controller, is_busy, Recorder}
use openvpn_connect_web.Connections
use openvpn_connect_web.Controller.Api.{ok, err, Result, Resolved}
use openvpn_connect_web.Firewall
use openvpn_connect_web.Routes
use openvpn_connect_web.Routes.{
  Endpoint, HttpReply, reply, Panel, Around, is_switch_word, switch_word, with_upload,
}
use openvpn_connect_web.Login.{Request}
use openvpn_connect_web.Routes.Handlers as Handlers
use openvpn_connect_web.Routes.Tunnel as Tunnel
use openvpn_connect_web.Prelude.Text.{Text, text_eq, strip}
use openvpn_connect_web.Vault.{Cipher}
use openvpn_connect_web.Store.Connections.{Form}
use openvpn_connect_web.Store.Connections.Names.{
  named, named-set_default, named-toggle_ignore_pushed_dns,
}
use openvpn_connect_web.Connections.{save_with, derived, Served, failed_with, served}
use openvpn_connect_web.Firewall.{Answer, Verb, guard_connect}
use openvpn_connect_web.Login.Tally.{same}
use openvpn_connect_web.Routes.Handlers.{topic_field}
use openvpn_connect_web.Routes.Guarded.{view_of, handle, handle-cases, is_let_through}
use openvpn_connect_web.Routes.Kept.{delete-named, resolve-rows, save_with-named, snapshot-busy}
use openvpn_connect_web.Routes.Tunnel.{stopped}

module _ {K : Type 0} (cipher : Cipher K) {D F H : Type 0} ⦃r : Recorder H⦄ (writable : D → Bool)
    (dns_helper : Text → D → Answer × D) (fw_helper : Verb → F → Answer × F)
    (is_address : Text → Bool) (p : Text) where
  abbrev pub named_in : Panel cipher D F H → ℕ
  named_in w = named p (w.connections).rows

  started-named :
      (a : Around) (x : Result Resolved × Controller H) (w : Panel cipher D F H)
      → named_in (Tunnel.started cipher a x w).1 ≡ named_in w
  started-named a (ok resolved, c) w = refl
  started-named a (err why, c) w = refl

  connect_resolved-named :
      (a : Around) (otp : Text) (x : Served Resolved × Connections.Service cipher)
      (w : Panel cipher D F H)
      → x.1.rows ≡ (w.connections).rows
      → named_in (Tunnel.connect_resolved cipher a otp x w).1 ≡ named_in w
  connect_resolved-named a otp (failed_with why, s) w h = ap (named p) h
  connect_resolved-named a otp (served resolved, s) w h =
      started-named a _ (record w { connections = s }) ∙ ap (named p) h

  connect_guarded-named :
      (a : Around) (profile otp : Text) (x : Firewall.Outcome (Unit {0}) × Firewall.World F)
      (w : Panel cipher D F H)
      → named_in (Tunnel.connect_guarded cipher a profile otp x w).1 ≡ named_in w
  connect_guarded-named a profile otp (Firewall.refused why, fw) w = refl
  connect_guarded-named a profile otp (Firewall.done _, fw) w =
      connect_resolved-named a otp _ (record w { firewall = fw })
        (resolve-rows cipher p a.disk profile w.connections)

  stopped-named :
      (a : Around) (x : Result (Unit {0}) × Controller H) (w : Panel cipher D F H)
      → named_in (Tunnel.stopped cipher a x w).1 ≡ named_in w
  stopped-named a (ok resolved, c) w = refl
  stopped-named a (err why, c) w = refl

  save_settings-named :
      (now : ℕ) (topic : Option (Option Text)) (bodies : Option (Option (Kind → Option Text)))
      (w : Panel cipher D F H)
      → named_in (Handlers.save_settings cipher now topic bodies w).1 ≡ named_in w
  save_settings-named now (some none) bodies w = refl
  save_settings-named now none (some none) w = refl
  save_settings-named now (some (some topic)) (some none) w = refl
  save_settings-named now none none w = refl
  save_settings-named now none (some (some bodies)) w = refl
  save_settings-named now (some (some topic)) none w = refl
  save_settings-named now (some (some topic)) (some (some bodies)) w = refl

  save_connection-named :
      (a : Around) (f : Form) (upload : Option (Option Text)) (w : Panel cipher D F H)
      → named_in w ≤ named_in (Handlers.save_connection cipher a f upload w).1
  unfolding Handlers.save_connection Connections.save
  save_connection-named a f (some none) w = omega arith
  save_connection-named a f none w =
      save_with-named cipher p a.now a.iv a.disk (with_upload f none) (w.connections).key
        w.connections
  save_connection-named a f (some (some t)) w =
      save_with-named cipher p a.now a.iv a.disk (with_upload f (some t)) (w.connections).key
        w.connections

  in_use :
      (a : Around) (w : Panel cipher D F H)
      → is_busy (w.controller).status.state ≡ true
      → (w.controller).status.profile ≡ some p
      → (n : Text) → Handlers.is_in_use cipher a n w ≡ text_eq n p
  unfolding Handlers.is_in_use
  in_use a w busy used n =
      rw (snapshot-busy a.pid a.address w.controller busy, used, busy) (and-true (text_eq n p))

  delete_connection-named :
      (a : Around) (n : Text) (w : Panel cipher D F H)
      → is_busy (w.controller).status.state ≡ true
      → (w.controller).status.profile ≡ some p
      → named_in (Handlers.delete_connection cipher a n w).1 ≡ named_in w
  unfolding Handlers.delete_connection
  delete_connection-named a n w busy used = elim (Bool-cases (text_eq n p)) [
    | inl same ↦ rw (in_use a w busy used n, same) refl
    | inr other ↦ rw (in_use a w busy used n, other) (delete-named cipher p n w.connections other)
  ]

  set_firewall-named :
      (enabled : Text) (w : Panel cipher D F H)
      → named_in (Tunnel.set_firewall cipher fw_helper enabled w).1 ≡ named_in w
  unfolding Tunnel.set_firewall
  set_firewall-named enabled w = elim (Bool-cases (is_switch_word (switch_word enabled))) [
    | inl word ↦ rw word refl
    | inr other ↦ rw other refl
  ]

  pub view_of-named :
      (e : Endpoint) (a : Around) (w : Panel cipher D F H)
      → is_busy (w.controller).status.state ≡ true
      → (w.controller).status.profile ≡ some p
      → named_in w ≤ named_in (view_of cipher writable dns_helper fw_helper is_address e a w).1
  unfolding view_of Tunnel.connect Tunnel.disconnect Handlers.update_notify Handlers.notify_test
      Handlers.make_default Handlers.toggle_pushed_dns Tunnel.firewall_state Tunnel.add_dns_rule
      Tunnel.delete_dns_rule Tunnel.move_dns_rule Tunnel.import_dns_rules
  view_of-named (Routes.connect profile otp) a w busy used = omega (
    arith,
    connect_guarded-named a (strip profile) (strip otp) (guard_connect fw_helper w.firewall) w,
  )
  view_of-named Routes.disconnect a w busy used = omega (arith, stopped-named a _ w)
  view_of-named (Routes.update_notify topic bodies) a w busy used =
      omega (arith, save_settings-named a.now (topic_field topic) bodies w)
  view_of-named Routes.notify_test a w busy used = omega arith
  view_of-named (Routes.save_connection f upload) a w busy used = save_connection-named a f upload w
  view_of-named (Routes.make_default n) a w busy used =
      omega (arith, named-set_default p n (w.connections).rows)
  view_of-named (Routes.toggle_pushed_dns n) a w busy used =
      omega (arith, named-toggle_ignore_pushed_dns p a.now n (w.connections).rows)
  view_of-named (Routes.delete_connection n) a w busy used =
      omega (arith, delete_connection-named a n w busy used)
  view_of-named (Routes.add_dns_rule kind domain address) a w busy used = omega arith
  view_of-named (Routes.delete_dns_rule i) a w busy used = omega arith
  view_of-named (Routes.move_dns_rule i direction) a w busy used = omega arith
  view_of-named Routes.import_dns_rules a w busy used = omega arith
  view_of-named Routes.firewall_state a w busy used = omega arith
  view_of-named (Routes.set_firewall enabled) a w busy used =
      omega (arith, set_firewall-named enabled w)

-- While an attempt is under way, or being stopped, no request takes its profile out of the table:
-- neither the deletion of it, nor the save of another, nor any other call.
pub handle-named :
    {K : Type 0} (cipher : Cipher K) {D F H : Type 0} ⦃r : Recorder H⦄ (writable : D → Bool)
    (dns_helper : Text → D → Answer × D) (fw_helper : Verb → F → Answer × F)
    (is_address : Text → Bool) (e : Endpoint) (q : Request) (a : Around) (w : Panel cipher D F H)
    (p : Text)
    → is_busy (w.controller).status.state ≡ true
    → (w.controller).status.profile ≡ some p
    → named p (w.connections).rows
      ≤ named p
          (((handle cipher writable dns_helper fw_helper is_address e q a w).2).connections).rows
handle-named cipher writable dns_helper fw_helper is_address e q a w p busy used =
    let cases = handle-cases cipher writable dns_helper fw_helper is_address e q a w in
    elim (Bool-cases (is_let_through cipher writable dns_helper fw_helper is_address e q w)) [
      | inl runs ↦
          rw (cases.0 runs)
            (view_of-named cipher writable dns_helper fw_helper is_address p e a w busy used)
      | inr stopped ↦ rw ((cases.1 stopped).0) (omega arith)
    ]
