-- ===== src/Notifier/Tests.antt =====
-- Tests of the messages: durations, placeholders, and a message after a save.
use openvpn_connect_web.Controller.State.{Kind, up, down_manual, down_severed, Notice}
use openvpn_connect_web.Prelude.{Option, [], none, refl, some, ℕ, ◌≡◌}
use openvpn_connect_web.Prelude.Text.{Text, text}
use openvpn_connect_web.Notifier.Saved.{chosen, notify-save_notify}
use openvpn_connect_web.Notifier.{
  format_duration, notify, priority_of, render, tags_of, title_of, url_for,
}
use openvpn_connect_web.Store.Settings.{save_notify}

durations :
    (format_duration (some 4320) ≡ text "1h 12m")
    × (format_duration (some 125) ≡ text "2m 5s")
    × (format_duration (some 45) ≡ text "45s")
    × (format_duration none ≡ text "an unknown time")
unfolding format_duration
durations = (refl, refl, refl, refl)

abbrev dropped : Notice
dropped = record {
  kind = down_severed;
  tun_ip = some (text "10.8.0.2");
  server_ip = none;
  uptime = some 45;
  when = 7;
}

abbrev clock : ℕ → Text
clock t = text "12:00"

rendered_body :
    render clock (text "{ip} at {time}, {server} {ip") dropped
    ≡ text "10.8.0.2 at 12:00, unknown {ip"
unfolding render
rendered_body = refl

abbrev bodies : Kind → Option Text
bodies up = none
bodies down_manual = none
bodies down_severed = some (text "gone after {duration}")

notify-save_notify_example :
    notify clock (text "https://ntfy.sh/") (save_notify 1 (some (text "vpn")) bodies []) dropped
    ≡ some (record {
      url = url_for (text "https://ntfy.sh/") (text "vpn");
      title = title_of down_severed;
      body = render clock (chosen bodies [] down_severed) dropped;
      priority = priority_of down_severed;
      tags = tags_of down_severed;
    })
notify-save_notify_example =
    notify-save_notify clock (text "https://ntfy.sh/") 1 (some (text "vpn")) bodies [] dropped
