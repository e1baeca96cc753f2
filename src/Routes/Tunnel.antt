-- ===== src/Routes/Tunnel.antt =====
-- The views that reach the tunnel, the DNS helper and the filter.
use openvpn_connect_web.Connections
use openvpn_connect_web.Controller.Api as Calls
use openvpn_connect_web.Controller.Api.{ok, err, Result, Resolved, snapshot}
use openvpn_connect_web.Controller.State.{Controller, Recorder}
use openvpn_connect_web.Firewall
use openvpn_connect_web.DnsService
use openvpn_connect_web.Routes.{
  reply, HttpReply, Around, Panel, is_switch_word, message, status_of, switch_word, turns_on,
}
use openvpn_connect_web.Firewall.{Answer, Verb, guard_connect}
use openvpn_connect_web.Prelude.{Bool, Option, if◌then◌else◌, none, not, ℕ}
use openvpn_connect_web.Vault.{Cipher}
use openvpn_connect_web.Store.DnsRules.{Direction, RuleKind}
use openvpn_connect_web.Connections.{Served, failed_with, served}
use openvpn_connect_web.Prelude.Text.{Text, lower, strip, text, text_eq}
use openvpn_connect_web.Routes.Handlers.{failure_reply, filter_reply, imported_reply, rules_reply}
use openvpn_connect_web.Whois.{resolved}

abbrev pub shown : {H : Type 0} → Around → Controller H → HttpReply
shown a c = reply 202 (status_of (snapshot a.pid a.address c))

module _ {K : Type 0} (cipher : Cipher K) {D F H : Type 0} ⦃r : Recorder H⦄ where
  abbrev pub started :
      Around → Result Resolved × Controller H → Panel cipher D F H → HttpReply × Panel cipher D F H
  started a (ok _, c) w = (shown a c, record w { controller = c })
  started a (err why, c) w = (reply 400 (message why), record w { controller = c })

  -- `resolve` may have written the profile, and an `OSError` of it is not caught
  abbrev pub connect_resolved :
      Around
      → (otp : Text) → Served Resolved × Connections.Service cipher
      → Panel cipher D F H
      → HttpReply × Panel cipher D F H
  connect_resolved a otp (failed_with why, s) w = (failure_reply why, record w { connections = s })
  connect_resolved a otp (served resolved, s) w =
      started a (Calls.connect none (ok resolved) a.running otp w.controller)
        (record w { connections = s })

  abbrev pub connect_guarded :
      Around
      → (profile otp : Text) → Firewall.Outcome (Unit {0}) × Firewall.World F
      → Panel cipher D F H
      → HttpReply × Panel cipher D F H
  connect_guarded a profile otp (Firewall.refused why, fw) w =
      (reply 400 (message why), record w { firewall = fw })
  connect_guarded a profile otp (Firewall.done _, fw) w =
      connect_resolved a otp (Connections.resolve cipher a.disk profile w.connections)
        (record w { firewall = fw })

  unfoldable pub connect :
      (Verb → F → Answer × F)
      → Around
      → (profile otp : Text) → Panel cipher D F H
      → HttpReply × Panel cipher D F H
  unfolding strip
  connect helper a profile otp w =
      connect_guarded a (strip profile) (strip otp) (guard_connect helper w.firewall) w

  abbrev pub stopped :
      Around
      → Result (Unit {0}) × Controller H
      → Panel cipher D F H
      → HttpReply × Panel cipher D F H
  stopped a (ok _, c) w = (shown a c, record w { controller = c })
  stopped a (err why, c) w = (reply 400 (message why), record w { controller = c })

  unfoldable pub disconnect : Around → Panel cipher D F H → HttpReply × Panel cipher D F H
  disconnect a w =
      stopped a
        (Calls.disconnect a.now a.running a.is_open a.refused_signal a.refused_stop w.controller) w

module _ {K : Type 0} (cipher : Cipher K) {D F H : Type 0} where
  abbrev pub after_rules :
      {A : Type 0}
      → DnsService.Outcome A × DnsService.Service D
      → Panel cipher D F H
      → HttpReply × Panel cipher D F H
  after_rules (outcome, s) w = (rules_reply (outcome, s), record w { dns = s })

  module _ (writable : D → Bool) (helper : Text → D → Answer × D) (is_address : Text → Bool) where
    unfoldable pub add_dns_rule :
        Around → RuleKind → Option Text → Text → Panel cipher D F H → HttpReply × Panel cipher D F H
    add_dns_rule a kind domain address w =
        after_rules (DnsService.add writable helper is_address a.now kind domain address w.dns) w

    unfoldable pub delete_dns_rule : ℕ → Panel cipher D F H → HttpReply × Panel cipher D F H
    delete_dns_rule i w = after_rules (DnsService.delete writable helper i w.dns) w

    unfoldable pub move_dns_rule :
        Around → ℕ → Direction → Panel cipher D F H → HttpReply × Panel cipher D F H
    move_dns_rule a i direction w =
        after_rules (DnsService.move writable helper is_address a.now i direction w.dns) w

    unfoldable pub import_dns_rules : Around → Panel cipher D F H → HttpReply × Panel cipher D F H
    import_dns_rules a w =
        let (outcome, s) =
          DnsService.import_legacy writable helper is_address a.now a.legacy_file w.dns in
        (imported_reply (outcome, s), record w { dns = s })

  module _ (helper : Verb → F → Answer × F) where
    -- a GET, which arms the filter again where that is meant; a refusal is not caught
    unfoldable pub firewall_state : Panel cipher D F H → HttpReply × Panel cipher D F H
    firewall_state w =
        let (outcome, fw) = Firewall.reconcile helper w.firewall in
        (filter_reply 500 outcome, record w { firewall = fw })

    unfoldable pub set_firewall : Text → Panel cipher D F H → HttpReply × Panel cipher D F H
    unfolding strip lower text_eq
    set_firewall enabled w =
        let raw = switch_word enabled in
        let (outcome, fw) = Firewall.set_intent helper (turns_on raw) w.firewall in
        if not (is_switch_word raw)
        then (reply 400 (message (text "Send enabled as true or false.")), w)
        else (filter_reply 400 outcome, record w { firewall = fw })
