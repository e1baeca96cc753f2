-- ===== src/Routes.antt =====
-- The JSON endpoints that change state (app/routes/api.py), each from the request to the reply and
use openvpn_connect_web.Controller.State.{Kind, Controller, Status}
-- what it leaves behind. What the system answers meanwhile is in `Around`. A form's fields are taken
-- as read; the JSON of a reply is the value it is made from.
pub mod Handlers
pub mod Tunnel
pub mod Guarded
pub mod InUse
mod Kept
pub mod Reads
pub mod Relay
pub mod Safe
pub mod Refused
mod Tests
use openvpn_connect_web.Connections
use openvpn_connect_web.Firewall
use openvpn_connect_web.DnsService
use openvpn_connect_web.Prelude.{
  Bool, List, Option, [], any, false, is_some, none, some, true, ℕ, ◌∷◌,
}
use openvpn_connect_web.Vault.{Cipher}
use openvpn_connect_web.Store.Connections.{Connection, Form}
use openvpn_connect_web.Store.DnsRules.{Direction, DnsRule, RuleError, RuleKind}
use openvpn_connect_web.Firewall.{FirewallState}
use openvpn_connect_web.Store.Settings.{Setting}
use openvpn_connect_web.Prelude.Text.{Text, lower, strip, text, text_eq}
use openvpn_connect_web.Login.Gate.{VaultView}
use openvpn_connect_web.Login.{form}
use openvpn_connect_web.Prelude.Number.{ℤ}

pub record Around : Type 0 where
  pub now : ℕ
  -- the randomness of an encryption
  pub iv : ℕ
  -- whether the directory of the profiles takes a file
  pub disk : Bool
  -- whether the pid file names a live process, and which
  pub running : Bool
  pub pid : Option ℤ
  -- the management socket: whether it is open, and its refusal of the signal
  pub is_open : Bool
  pub refused_signal : Option Text
  -- the root helper's refusal of "stop"
  pub refused_stop : Option Text
  -- the address of the device
  pub address : Option Text
  pub legacy_file : Option Text
  -- why a notification is not delivered
  pub undelivered : Option Text

pub data Body : Type 0 where
  unauthenticated bad_token uncaught acknowledged : Body
  message : Text → Body
  bad_rule : RuleError → Body
  status_of : Status → Body
  settings_of : Text → (Kind → Text) → Body
  sent_to : Text → Body
  connection_of : Option Connection → Body
  pushed_dns_ignored : Bool → Body
  rules_of : List DnsRule → List DnsRule → Option Text → Body
  imported_of : List DnsRule → List DnsRule → Option Text → ℕ → List Text → Body
  filter_of : FirewallState → Body

pub record HttpReply : Type 0 where
  pub code : ℕ
  pub body : Body

abbrev pub reply : ℕ → Body → HttpReply
reply code body = record { code = code; body = body }

-- the requests; a field that may be absent, or not of its type, is an `Option`
pub data Endpoint : Type 0 where
  connect : (profile otp : Text) → Endpoint
  disconnect : Endpoint
  update_notify : (topic : Option Text) (bodies : Option (Option (Kind → Option Text))) → Endpoint
  notify_test : Endpoint
  -- the upload is `none` where there is none, and `some none` where it is not UTF-8
  save_connection : Form → (upload : Option (Option Text)) → Endpoint
  make_default : Text → Endpoint
  toggle_pushed_dns : Text → Endpoint
  delete_connection : Text → Endpoint
  add_dns_rule : RuleKind → (domain : Option Text) → (address : Text) → Endpoint
  delete_dns_rule : ℕ → Endpoint
  move_dns_rule : ℕ → Direction → Endpoint
  import_dns_rules : Endpoint
  firewall_state : Endpoint
  set_firewall : (enabled : Text) → Endpoint

-- whether the route is registered by `bp.get`, the others by `bp.post`
abbrev pub is_get : Endpoint → Bool
is_get firewall_state = true
is_get _ = false

-- `raw` of `set_firewall`
abbrev pub switch_word : Text → Text
switch_word enabled = lower (strip enabled)

abbrev pub is_switch_word : Text → Bool
is_switch_word raw =
    any (text_eq raw)
      (text "1" ∷ text "0" ∷ text "true" ∷ text "false" ∷ text "on" ∷ text "off" ∷ [])

abbrev pub turns_on : Text → Bool
turns_on raw = any (text_eq raw) (text "1" ∷ text "true" ∷ text "on" ∷ [])

-- the uploaded file in place of the field
abbrev pub with_upload : Form → Option Text → Form
with_upload f none = f
with_upload f (some profile) = record f { profile = profile }

-- what the services of the app's `config` hold
module _ {K : Type 0} (cipher : Cipher K) (D F H : Type 0) where
  pub record Panel : Type 0 where
    pub connections : Connections.Service cipher
    pub vault_exists : Bool
    pub controller : Controller H
    pub dns : DnsService.Service D
    pub firewall : Firewall.World F
    pub settings : List Setting

  -- what `vault_locked` looks at
  abbrev pub vault_view : Panel → VaultView
  vault_view w = record {
    configured = true;
    unlocked = is_some (w.connections.key);
    exists = w.vault_exists;
  }
