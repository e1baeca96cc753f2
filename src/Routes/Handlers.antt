-- ===== src/Routes/Handlers.antt =====
-- The views themselves, behind the sign-in and the token.
use openvpn_connect_web.Connections
use openvpn_connect_web.Firewall
use openvpn_connect_web.DnsService
use openvpn_connect_web.Store.Connections as Table
use openvpn_connect_web.Controller.State.{Kind, is_busy}
use openvpn_connect_web.Controller.Api.{snapshot}
use openvpn_connect_web.Routes.{
  reply, Body, acknowledged, bad_rule, connection_of, filter_of, imported_of, message, rules_of,
  uncaught, Panel, sent_to, settings_of, Around, HttpReply, pushed_dns_ignored, with_upload,
}
use openvpn_connect_web.Store.Connections.{Connection, Stored, kept, store_error, Form}
use openvpn_connect_web.Firewall.{FirewallState, state}
use openvpn_connect_web.Prelude.{
  List, Option, none, some, ℕ, get_or, if◌then◌else◌, not, Bool, false, ◌&&◌,
}
use openvpn_connect_web.Connections.{
  Served, failed_with, not_unlocked, os_error, refused_by_store, served, undecryptable,
}
use openvpn_connect_web.Prelude.Text.{Text, text, nonempty, text_eq}
use openvpn_connect_web.DnsService.{domain_rules, fallback_rules, unwritten}
use openvpn_connect_web.Vault.{Cipher}
use openvpn_connect_web.Store.Settings.{Setting, notify_bodies, notify_topic, save_notify}
use openvpn_connect_web.Notify.{validate_topic}

-- the reply to an error of the connections
abbrev pub failure_reply : Connections.Failure → HttpReply
failure_reply not_unlocked = reply 400 (message (text "Sign in to unlock the stored credentials."))
failure_reply os_error = reply 500 uncaught
failure_reply undecryptable =
    reply 400 (message (text "Could not decrypt -- wrong key or corrupt data."))
failure_reply (refused_by_store why) = reply 400 (message why)

-- the row is stored by then where the directory does not take the file; the message ends with the
-- text of the exception, which is left out
abbrev pub saved_reply : Served (Option Connection) → HttpReply
saved_reply (served c) = reply 200 (connection_of c)
saved_reply (failed_with os_error) = reply 500 (message (text "Could not write the profile file"))
saved_reply (failed_with why) = failure_reply why

abbrev pub stored_reply : {A : Type 0} → (A → Body) → Stored A → HttpReply
stored_reply body (kept a) = reply 200 (body a)
stored_reply body (store_error why) = reply 400 (message why)

abbrev pub deleted_reply : Served (Unit {0}) → HttpReply
deleted_reply (served _) = reply 200 acknowledged
deleted_reply (failed_with why) = failure_reply why

-- a change of the rules: the lists are read again for the reply
abbrev pub rules_reply : {A D : Type 0} → DnsService.Outcome A × DnsService.Service D → HttpReply
rules_reply (DnsService.done a warning, s) =
    reply 200 (rules_of (domain_rules s.rules) (fallback_rules s.rules) warning)
rules_reply (DnsService.refused e, s) = reply 400 (bad_rule e)
rules_reply (unwritten, s) = reply 500 uncaught

abbrev pub imported_reply :
    {D : Type 0} → Option (DnsService.Outcome (ℕ × List Text)) × DnsService.Service D → HttpReply
imported_reply (none, s) = reply 400 (message (text "There is nothing to import."))
imported_reply (some (DnsService.done (imported, skipped) warning), s) =
    reply 200 (imported_of (domain_rules s.rules) (fallback_rules s.rules) warning imported skipped)
imported_reply (some (DnsService.refused e), s) = reply 400 (bad_rule e)
imported_reply (some unwritten, s) = reply 500 uncaught

abbrev pub filter_reply : (code : ℕ) → Firewall.Outcome FirewallState → HttpReply
filter_reply code (Firewall.done state) = reply 200 (filter_of state)
filter_reply code (Firewall.refused why) = reply code (message why)

abbrev flat : {A : Type 0} → Option (Option A) → Option A
flat none = none
flat (some o) = o

-- the topic as checked, `some none` where it is refused
abbrev pub topic_field : Option Text → Option (Option Text)
topic_field none = none
topic_field (some topic) = some (validate_topic topic)

-- `_notify_payload`, less what is constant
abbrev pub notify_reply : List Setting → HttpReply
notify_reply settings = reply 200 (settings_of (notify_topic settings) (notify_bodies settings))

module _ {K : Type 0} (cipher : Cipher K) {D F H : Type 0} where
  -- the errors of `validate_topic` and of the bodies come before anything is saved
  abbrev pub save_settings :
      ℕ
      → (topic : Option (Option Text)) → (bodies : Option (Option (Kind → Option Text)))
      → Panel cipher D F H
      → HttpReply × Panel cipher D F H
  save_settings now (some none) bodies w = (
    reply 400 (
        message
          (text "A topic may only contain letters, digits, '-' and '_', up to 64 characters.")),
    w,
  )
  save_settings now topic (some none) w =
      (reply 400 (message (text "Expected an object of message bodies.")), w)
  save_settings now topic bodies w =
      let settings =
        save_notify now (flat topic) (get_or (λ kind. none) (flat bodies)) w.settings in
      (notify_reply settings, record w { settings = settings })

  unfoldable pub notify_test : Option Text → Panel cipher D F H → HttpReply × Panel cipher D F H
  notify_test undelivered w =
      let topic = notify_topic w.settings in
      (
        if not (nonempty topic)
            then reply 502 (message (text "Set a topic first -- notifications are currently off."))
            else elim undelivered [
              | none ↦ reply 200 (sent_to topic)
              | some why ↦ reply 502 (message why)
            ],
        w,
      )

  unfoldable pub update_notify :
      Around
      → Option Text
      → Option (Option (Kind → Option Text))
      → Panel cipher D F H
      → HttpReply × Panel cipher D F H
  unfolding validate_topic save_notify
  update_notify a topic bodies w = save_settings a.now (topic_field topic) bodies w

  unfoldable pub save_connection :
      Around → Form → Option (Option Text) → Panel cipher D F H → HttpReply × Panel cipher D F H
  save_connection a form_of (some none) w =
      (reply 400 (message (text "That file is not text -- expected an .ovpn profile.")), w)
  save_connection a form_of upload w =
      let (outcome, s) =
        Connections.save cipher a.now a.iv a.disk (with_upload form_of (flat upload))
          w.connections in
      (saved_reply outcome, record w { connections = s })

  -- what a call on the table leaves
  abbrev pub with_rows : List Connection → Panel cipher D F H → Panel cipher D F H
  with_rows rows w = record w { connections = record (w.connections) { rows = rows } }

  unfoldable pub make_default : Text → Panel cipher D F H → HttpReply × Panel cipher D F H
  make_default n w =
      let (outcome, rows) = Table.set_default n (w.connections).rows in
      (stored_reply (λ _. acknowledged) outcome, with_rows rows w)

  unfoldable pub toggle_pushed_dns :
      Around → Text → Panel cipher D F H → HttpReply × Panel cipher D F H
  toggle_pushed_dns a n w =
      let (outcome, rows) = Table.toggle_ignore_pushed_dns a.now n (w.connections).rows in
      (stored_reply pushed_dns_ignored outcome, with_rows rows w)

  -- the profile in use cannot go while the controller is busy
  unfoldable pub is_in_use : Around → Text → Panel cipher D F H → Bool
  is_in_use a n w =
      let seen = snapshot a.pid a.address w.controller in
      elim seen.profile [ none ↦ false | some profile ↦ text_eq n profile ] && is_busy seen.state

  unfoldable pub delete_connection :
      Around → Text → Panel cipher D F H → HttpReply × Panel cipher D F H
  unfolding is_in_use
  delete_connection a n w =
      let (outcome, s) = Connections.delete cipher n w.connections in
      if is_in_use a n w
      then (reply 409 (message (text "That connection is in use -- disconnect first.")), w)
      else (deleted_reply outcome, record w { connections = s })
