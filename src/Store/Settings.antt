-- ===== src/Store/Settings.antt =====
-- The table `settings` of app/services/store.py, and the notification settings kept there.
pub mod Messages
mod Tests
use openvpn_connect_web.Controller.State.{Kind, down_manual, down_severed, up}
use openvpn_connect_web.Prelude.{
  Bool, List, Option, [], find, if◌then◌else◌, none, some, ℕ, ◌++◌, ◌∷◌,
}
use openvpn_connect_web.Prelude.Text.{Text, nonempty, text, text_eq}
use openvpn_connect_web.Notify.{clean_body, default_body}

pub record Setting : Type 0 where
  pub key : Text
  pub value : Text
  pub updated_at : ℕ

abbrev pub has_key : Text → Setting → Bool
has_key k s = text_eq k s.key

abbrev pub value_or : Text → Option Setting → Text
value_or d none = d
value_or d (some s) = s.value

unfoldable pub get_setting : List Setting → Text → Text → Text
get_setting rows k d = value_or d (find (has_key k) rows)

-- INSERT … ON CONFLICT(key) DO UPDATE
unfoldable pub set_setting : ℕ → Text → Text → List Setting → List Setting
set_setting now k v [] = record { key = k; value = v; updated_at = now } ∷ []
set_setting now k v (s ∷ rows) =
    let rest = set_setting now k v rows in
    if has_key k s then record s { value = v; updated_at = now } ∷ rows else s ∷ rest

unfoldable pub set_settings : ℕ → List (Text × Text) → List Setting → List Setting
unfolding set_setting
set_settings now [] rows = rows
set_settings now ((k, v) ∷ values) rows = set_settings now values (set_setting now k v rows)

abbrev pub ntfy_topic : Text
ntfy_topic = text "notify.topic"

-- NOTIFY_BODY
abbrev pub notify_body : Kind → Text
notify_body up = text "notify.body.up"
notify_body down_manual = text "notify.body.down_manual"
notify_body down_severed = text "notify.body.down_severed"

abbrev pub message_kinds : List Kind
message_kinds = up ∷ down_manual ∷ down_severed ∷ []

unfoldable pub notify_topic : List Setting → Text
unfolding get_setting
notify_topic rows = get_setting rows ntfy_topic []

-- the entry of one kind in the dict that `notify_bodies` returns
unfoldable pub notify_bodies : List Setting → Kind → Text
unfolding get_setting default_body
notify_bodies rows kind =
    let stored = get_setting rows (notify_body kind) [] in
    if nonempty stored then stored else default_body kind

abbrev pub topic_value : Option Text → List (Text × Text)
topic_value none = []
topic_value (some topic) = (ntfy_topic, topic) ∷ []

abbrev pub body_value : Kind → Option Text → List (Text × Text)
body_value kind none = []
body_value kind (some body) = (notify_body kind, clean_body body) ∷ []

abbrev pub body_values : (Kind → Option Text) → List Kind → List (Text × Text)
body_values bodies [] = []
body_values bodies (kind ∷ kinds) = body_value kind (bodies kind) ++ body_values bodies kinds

-- `bodies` that is absent is the dict with no key
unfoldable pub save_notify : ℕ → Option Text → (Kind → Option Text) → List Setting → List Setting
unfolding set_settings
save_notify now topic bodies rows =
    set_settings now (topic_value topic ++ body_values bodies message_kinds) rows
