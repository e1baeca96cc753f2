-- ===== src/Firewall/Tests.antt =====
-- A helper whose filter is loaded or not, and that says so.
use openvpn_connect_web.Firewall.{
  Answer, Verb, World, fw_off, fw_on, fw_status, output, done, call, state, switch, set_intent,
  reconcile, guard_connect, intended, interpret, parse_status, sum_digits,
}
use openvpn_connect_web.Firewall.Guard.{IsReportedArmed, guard_connect-armed}
use openvpn_connect_web.Prelude.{Bool, false, true, refl, ◌≡◌, some, if◌then◌else◌}
use openvpn_connect_web.Prelude.Text.{text}

abbrev kernel : Verb → Bool → Answer × Bool
kernel fw_on loaded = (output (text "armed 0 0"), true)
kernel fw_off loaded = (output (text "disarmed"), false)
kernel fw_status loaded = (output (if loaded then text "armed 3 4" else text "disarmed"), loaded)

abbrev wanted : World Bool
wanted = record { setting = some (text "1"); kernel = false }

guarded : guard_connect kernel wanted ≡ (done tt, record wanted { kernel = true })
unfolding guard_connect reconcile set_intent switch state call intended interpret parse_status
    sum_digits
guarded = refl

wants : intended wanted ≡ true
unfolding intended
wants = refl

guard_connect-armed_example : IsReportedArmed kernel true
guard_connect-armed_example =
    guard_connect-armed kernel wanted (record wanted { kernel = true }) wants guarded
