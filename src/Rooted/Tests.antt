-- ===== src/Rooted/Tests.antt =====
-- Tests of the answers: the last line of what the helper says counts, and no status is success but 0.
use openvpn_connect_web.Rooted.{helper_ended, run_helper}
use openvpn_connect_web.Prelude.{none, refl, some, ◌++◌, ◌∷◌, ◌≡◌}
use openvpn_connect_web.Firewall.{output, trouble}
use openvpn_connect_web.Prelude.Text.{text}

failures :
    (run_helper
        (text "start")
        (text "20")
        (helper_ended 1 none (some (text "a" ++ 10 ∷ text "sudo: no tty")))
      ≡ trouble
          (text "Helper 'start' failed: sudo: no tty -- is deploy/vpn-connect.sudoers installed?"))
    × (run_helper (text "stop") (text "20") (helper_ended 3 none none)
        ≡ trouble (text "Helper 'stop' failed: exit status 3"))
    × (run_helper (text "stop") (text "20") (helper_ended 0 (some (text "ok")) none)
        ≡ output (text "ok"))
unfolding run_helper
failures = (refl, refl, refl)
