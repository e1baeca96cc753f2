-- ===== src/Notifier.antt =====
-- The messages as they are posted (app/services/notifications.py). `server` is NTFY_SERVER, and what
-- the opener answers comes in as a value.
pub mod Saved
mod Tests
use openvpn_connect_web.Controller.Api.{Result, ok, err}
use openvpn_connect_web.Controller.State.{Kind, up, down_manual, down_severed, Notice}
use openvpn_connect_web.Prelude.{
  List, Option, [], get_or, if◌then◌else◌, leb, length, none, not, reverse, some, suc, zero, ℕ, ◌%◌,
  ◌++◌, ◌-◌, ◌/◌, ◌==◌, ◌∷◌,
}
use openvpn_connect_web.Store.Settings.{Setting, notify_bodies, notify_topic}
use openvpn_connect_web.Prelude.Text.{Text, nonempty, starts_with, text, truthy}
use openvpn_connect_web.Prelude.Number.{show_number}

abbrev pub title_of : Kind → Text
title_of up = text "VPN connected"
title_of down_manual = text "VPN disconnected"
title_of down_severed = text "VPN dropped"

-- PRIORITIES and TAGS
abbrev pub priority_of : Kind → Text
priority_of up = text "default"
priority_of down_manual = text "default"
priority_of down_severed = text "high"

abbrev pub tags_of : Kind → Text
tags_of up = text "white_check_mark"
tags_of down_manual = text "wave"
tags_of down_severed = text "warning"

-- a duration in parts; the number of seconds is not negative
unfoldable pub format_duration : Option ℕ → Text
unfolding show_number
format_duration none = text "an unknown time"
format_duration (some seconds) =
    let hours = seconds / 3600 in
    let minutes = seconds % 3600 / 60 in
    let secs = seconds % 3600 % 60 in
    if not (hours == 0)
    then show_number hours ++ text "h " ++ show_number minutes ++ text "m"
    else if not (minutes == 0)
    then show_number minutes ++ text "m " ++ show_number secs ++ text "s"
    else show_number secs ++ text "s"

-- `s.replace(token, value)`, `skip` characters of a token already replaced
abbrev pub replace_from : (token value : Text) → (skip : ℕ) → Text → Text
replace_from token value skip [] = []
replace_from token value zero (c ∷ s) =
    let replaced = value ++ replace_from token value (length token - 1) s in
    let passed = c ∷ replace_from token value 0 s in
    if starts_with (c ∷ s) token then replaced else passed
replace_from token value (suc skip) (c ∷ s) = replace_from token value skip s

unfoldable pub replace : (token value : Text) → Text → Text
unfolding starts_with
replace token value s = replace_from token value 0 s

-- `a or "unknown"`
abbrev pub or_unknown : Option Text → Text
or_unknown o = if truthy o then get_or [] o else text "unknown"

-- `strftime` writes the time
unfoldable pub render : (strftime : ℕ → Text) → Text → Notice → Text
unfolding replace format_duration
render strftime body notice = replace (text "{time}") (strftime notice.when) (
    replace (text "{duration}") (format_duration notice.uptime) (
      replace (text "{server}") (or_unknown notice.server_ip)
        (replace (text "{ip}") (or_unknown notice.tun_ip) body)))

pub record Message : Type 0 where
  pub url : Text
  pub title : Text
  pub body : Text
  pub priority : Text
  pub tags : Text

abbrev pub without_slashes : Text → Text
without_slashes [] = []
without_slashes (c ∷ s) = if c == 47 then without_slashes s else c ∷ s

-- `_url_for`
unfoldable pub url_for : (server topic : Text) → Text
url_for server topic = reverse (without_slashes (reverse server)) ++ 47 ∷ topic

-- `notify`: the message for the background thread, if there is one
unfoldable pub notify :
    (strftime : ℕ → Text) → (server : Text) → List Setting → Notice → Option Message
unfolding notify_topic notify_bodies render url_for
notify strftime server settings notice =
    let topic = notify_topic settings in
    if not (nonempty topic)
    then none
    else some (record {
      url = url_for server topic;
      title = title_of notice.kind;
      body = render strftime (notify_bodies settings notice.kind) notice;
      priority = priority_of notice.kind;
      tags = tags_of notice.kind;
    })

-- what the opener does with the request
pub data Posted : Type 0 where
  returned : (status : ℕ) → Posted
  http_error : (code : ℕ) → Posted
  unreachable : (why : Text) → Posted

-- `_send`: the text of the `NotifyDeliveryError`, if it is raised
unfoldable pub send : (url : Text) → Posted → Option Text
unfolding show_number
send url (returned status) =
    if leb 400 status then some (url ++ text " returned HTTP " ++ show_number status) else none
send url (http_error code) = some (url ++ text " returned HTTP " ++ show_number code)
send url (unreachable why) = some (text "could not reach " ++ url ++ text ": " ++ why)

-- `send_test`: the url, or the error
unfoldable pub send_test : (server : Text) → List Setting → Posted → Result Text
unfolding notify_topic url_for send
send_test server settings posted =
    let topic = notify_topic settings in
    let url = url_for server topic in
    if not (nonempty topic)
    then err (text "Set a topic first -- notifications are currently off.")
    else elim (send url posted) [ none ↦ ok url | some why ↦ err why ]
