-- ===== src/Controller/Events.antt =====
-- The handlers of the management notifications: `_on_event` and what it calls.
use openvpn_connect_web.Prelude.{
  ℕ, Bool, true, false, ◌&&◌, ◌||◌, Option, none, some, List, [], ◌∷◌, ◌++◌, if◌then◌else◌, is_some,
  or_else, take_last,
}
use openvpn_connect_web.Prelude.Text.{
  Text, text, text_eq, truthy, lower, title, replace_char, contains, split, cut,
}
use openvpn_connect_web.Prelude.Number.{ℤ, parse_int}
use openvpn_connect_web.Management.Redact.{redact}
use openvpn_connect_web.Controller.State.{
  disconnected, starting, authenticating, connecting, connected, disconnecting, failed, Status,
  is_busy, Recorder, Credentials, Controller,
}
use openvpn_connect_web.Controller.Announce.{tracked, fail}

-- the fields of a state line, `fields[1]` to `fields[4]`; an empty address is `None`
pub record StateLine : Type 0 where
  pub name : Text
  pub detail : Text
  pub tun_ip : Option Text
  pub remote_ip : Option Text

abbrev pub some_text : Text → Option Text
some_text [] = none
some_text (c ∷ s) = some (c ∷ s)

abbrev pub field_at : List Text → Text
field_at [] = []
field_at (f ∷ _) = f

abbrev pub rest_at : List Text → List Text
rest_at [] = []
rest_at (_ ∷ fs) = fs

abbrev pub state_line : List Text → Option StateLine
state_line (_ ∷ name ∷ more) = some (record {
  name = name;
  detail = field_at more;
  tun_ip = some_text (field_at (rest_at more));
  remote_ip = some_text (field_at (rest_at (rest_at more)));
})
state_line _ = none

-- `detail or name.replace("_", " ").title()`
abbrev pub or_title : Text → Text → Text
or_title [] name = title (replace_char b'_' 32 name)
or_title (c ∷ s) name = c ∷ s

abbrev is_name : Text → StateLine → Bool
is_name name l = text_eq l.name name

abbrev pub or_now : ℕ → Option ℕ → Option ℕ
or_now now none = some now
or_now now (some t) = some t

-- what a state line does to the status, and whether it settles the attempt
unfoldable pub read_state : ℕ → StateLine → Status → Status × Bool
unfolding text_eq
read_state now l s =
    let s' : Status = record s {
      openvpn_state = l.name;
      detail = or_title l.detail l.name;
      tun_ip = or_else l.tun_ip s.tun_ip;
      remote_ip = or_else l.remote_ip s.remote_ip;
    } in
    if is_name (text "CONNECTED") l
    then (
      record s' {
        state = connected;
        error = none;
        detail = text "Tunnel established.";
        connected_since = or_now now s.connected_since;
      },
      true,
    )
    else if is_name (text "EXITING") l
    then (
      record s' { state = if truthy s.error then failed else disconnected; connected_since = none },
      true,
    )
    else (record s' { state = if is_busy s.state then s.state else connecting }, false)

abbrev pub error_text : Option Text → Text
error_text none = []
error_text (some e) = e

-- the daemon died before the tunnel came up
abbrev pub lost : Text → Status → Status
lost message s =
    if truthy s.error
    then record s { state = failed; detail = error_text s.error }
    else record s { state = failed; error = some message; detail = message }

abbrev pub exited : Status → Status
exited s =
    if truthy s.error
    then record s { state = failed }
    else record s { state = disconnected; detail = text "OpenVPN exited." }

-- what the end of the connection does to the state, by the state before it
abbrev pub closed_status : Status → Status
closed_status s = elim (s.state) [
  | starting ↦ lost (text "OpenVPN exited before the tunnel came up.") s
  | authenticating ↦ lost (text "OpenVPN exited before the tunnel came up.") s
  | connecting ↦ lost (text "OpenVPN exited before the tunnel came up.") s
  | connected ↦ exited s
  | disconnecting ↦ exited s
  | _ ↦ s
]

-- `payload.split(",", 2)[2]`, or the whole payload where it has fewer parts
abbrev pub third : Option Text → Text → Text
third none payload = payload
third (some rest) payload = elim (cut b',' rest).1 [ none ↦ payload | some tail ↦ tail ]

abbrev pub quoted : Option Text → Text
quoted none = []
quoted (some rest) = let (realm, more) = cut 39 rest in if is_some more then realm else []

-- `_realm(payload) or "Auth"`: what stands between the first two apostrophes
unfoldable pub realm_of : Text → Text
unfolding cut
realm_of payload = elim (quoted (cut 39 payload).1) [ [] ↦ text "Auth" | c ∷ s ↦ c ∷ s ]

module _ {H : Type 0} ⦃r : Recorder H⦄ where
  unfoldable pub on_state_line : ℕ → StateLine → Controller H → Controller H
  on_state_line now l c =
      tracked now
        (λ c.
          let (s, settles) = read_state now l c.status in
          record c { status = s; settled = c.settled || settles })
        c

  unfoldable pub on_state : ℕ → Text → Controller H → Controller H
  unfolding split
  on_state now payload c = elim (state_line (split b',' payload)) [
    | none ↦ c
    | some l ↦ on_state_line now l c
  ]

  -- `secret` is the pending secret, `refusal` the error of the management socket
  unfoldable pub answer : ℕ → Option Text → Text → Option Text → Controller H → Controller H
  answer now refusal payload none c =
      fail now (text "OpenVPN asked for credentials but none were pending.") c
  answer now none payload (some secret) c =
      let given : Credentials = record {
        realm = realm_of payload;
        username = c.username;
        secret = secret;
      } in
      record c { pending_secret = none; submitted = given ∷ c.submitted; auth_prompt = true }
  answer now (some why) payload (some secret) c =
      record (fail now (text "Could not submit credentials: " ++ why) c) { pending_secret = none }

  unfoldable pub on_password : ℕ → Option Text → Text → Controller H → Controller H
  unfolding lower contains
  on_password now refusal payload c =
      let lowered = lower payload in
      if contains (text "need") lowered && contains (text "username/password") lowered
      then answer now refusal payload (if c.client then c.pending_secret else none) c
      else if contains (text "verification failed") lowered
      then fail now (text "Authentication rejected -- check the authenticator code and try again.")
          (record c { auth_prompt = true })
      else c

  unfoldable pub record_bytes : Option ℤ → Option ℤ → Controller H → Controller H
  record_bytes (some bytes_in) (some bytes_out) c = record c {
    status = record (c.status) { bytes_in = bytes_in; bytes_out = bytes_out };
    history = r.record_sample bytes_in bytes_out c.history;
  }
  record_bytes _ _ c = c

  -- the payload has two parts, or it is dropped
  abbrev pub counted : List Text → Controller H → Controller H
  counted (a ∷ b ∷ []) c = record_bytes (parse_int a) (parse_int b) c
  counted _ c = c

  unfoldable pub on_bytecount : Text → Controller H → Controller H
  unfolding record_bytes split parse_int
  on_bytecount payload c = counted (split b',' payload) c

  unfoldable pub append_log : Text → Controller H → Controller H
  unfolding redact contains cut
  append_log payload c =
      let message = third (cut b',' payload).1 payload in
      let redacted = redact message in
      record c {
        log = take_last 200 (c.log ++ redacted ∷ []);
        push_reply = if contains (text "PUSH_REPLY") redacted then some redacted else c.push_reply;
        history = r.append redacted c.history;
      }

  unfoldable pub on_socket_closed : ℕ → Controller H → Controller H
  on_socket_closed now c =
      let closing = λ (c : Controller H). record c {
        client = false;
        status = record (closed_status c.status) { connected_since = none; tun_ip = none };
      } in
      record (tracked now closing c) { settled = true; auth_prompt = true }

  -- `_on_event`; `refusal` is what the management socket says to a command sent meanwhile
  unfoldable pub on_event : ℕ → Option Text → Text → Text → Controller H → Controller H
  unfolding text_eq
  on_event now refusal kind payload c =
      if text_eq kind (text "STATE")
      then on_state now payload c
      else if text_eq kind (text "PASSWORD")
      then on_password now refusal payload c
      else if text_eq kind (text "BYTECOUNT")
      then on_bytecount payload c
      else if text_eq kind (text "LOG")
      then append_log payload c
      else if text_eq kind (text "FATAL")
      then fail now (redact payload) c
      else if text_eq kind (text "DISCONNECTED")
      then on_socket_closed now c
      else c
