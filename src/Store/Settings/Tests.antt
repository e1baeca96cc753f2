-- ===== src/Store/Settings/Tests.antt =====
-- A body with a control character, and a blank one, over a table that has another.
use openvpn_connect_web.Controller.State.{Kind, down_manual, down_severed, up}
use openvpn_connect_web.Prelude.{List, Option, [], none, refl, some, ◌∷◌, ◌≡◌}
use openvpn_connect_web.Store.Settings.{
  Setting, get_setting, notify_bodies, save_notify, set_setting, set_settings,
}
use openvpn_connect_web.Prelude.Text.{Text, strip, text, text_eq}
use openvpn_connect_web.Notify.{clean_body, default_body, is_control, normalise_newlines}

abbrev bodies : Kind → Option Text
bodies up = some (7 ∷ text "Up on {ip} ")
bodies down_manual = some (text "  ")
bodies down_severed = none

abbrev before : List Setting
before = record { key = text "notify.body.down_severed"; value = text "Gone"; updated_at = 1 } ∷ []

cleaned :
    (notify_bodies (save_notify 2 none bodies before) up ≡ text "Up on {ip}")
    × (notify_bodies (save_notify 2 none bodies before) down_manual ≡ default_body down_manual)
unfolding notify_bodies save_notify set_settings set_setting get_setting clean_body default_body
    is_control normalise_newlines strip text_eq
cleaned = (refl, refl)
