-- ===== src/Notify.antt =====
-- app/services/notify.py: the three messages, the cleaning of a message body and of a topic.
use openvpn_connect_web.Controller.State.{Kind, down_manual, down_severed, up}
use openvpn_connect_web.Prelude.{
  Bool, Option, [], all, filter, if◌then◌else◌, leb, length, none, not, some, take, ℕ, ◌&&◌, ◌++◌,
  ◌==◌, ◌||◌, ◌∷◌,
}
use openvpn_connect_web.Prelude.Text.{Text, is_digit, nonempty, strip, text}

unfoldable pub default_body : Kind → Text
default_body up = text "Tunnel is up on {ip}."
default_body down_manual = text "You disconnected the tunnel. It was up for {duration}."
default_body down_severed =
    text "The tunnel went down on its own after {duration}. "
    ++ text "If that is about 24h it is the concentrator timeout -- reconnect when you can."

abbrev pub body_limit : ℕ
body_limit = 500

-- `_CONTROL`: the C0 controls but tab, newline and carriage return, and DEL
unfoldable pub is_control : ℕ → Bool
is_control c = leb c 8 || (c == 11) || (c == 12) || (leb 14 c && leb c 31) || (c == 127)

-- `.replace("\r\n", "\n").replace("\r", "\n")`
unfoldable pub normalise_newlines : Text → Text
normalise_newlines [] = []
normalise_newlines (c ∷ []) = (if c == 13 then 10 else c) ∷ []
normalise_newlines (c ∷ d ∷ s) =
    let rest = normalise_newlines (d ∷ s) in
    if c == 13 then (if d == 10 then rest else 10 ∷ rest) else c ∷ rest

unfoldable pub clean_body : Text → Text
unfolding is_control normalise_newlines strip
clean_body value =
    take body_limit (strip (normalise_newlines (filter (λ c. not (is_control c)) value)))

-- `TOPIC.match(topic)`
unfoldable pub is_topic_char : ℕ → Bool
unfolding is_digit
is_topic_char c =
    is_digit c || (leb 65 c && leb c 90) || (leb 97 c && leb c 122) || (c == 45) || (c == 95)

-- the topic, or `none` for the `NotifyError`
unfoldable pub validate_topic : Text → Option Text
unfolding is_topic_char strip
validate_topic topic =
    let t = strip topic in
    if nonempty t && not (leb (length t) 64 && all is_topic_char t) then none else some t
