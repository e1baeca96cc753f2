-- ===== src/Rooted.antt =====
-- The calls of the root helper (app/services/rooted.py): what becomes of running it, as an answer.
mod Tests
use openvpn_connect_web.Firewall.{Answer, output, trouble}
use openvpn_connect_web.Prelude.{
  List, Option, [], get_or, if◌then◌else◌, none, some, suc, zero, ℕ, ◌++◌, ◌||◌, ◌∷◌,
}
use openvpn_connect_web.Prelude.Text.{Text, contains, splitlines, strip, text, truthy}
use openvpn_connect_web.Management.Redact.{redact}
use openvpn_connect_web.Prelude.Number.{show_number}

-- what the runner does
pub data HelperRun : Type 0 where
  helper_absent : (why : Text) → HelperRun
  helper_slow : HelperRun
  helper_ended : (returncode : ℕ) → (stdout stderr : Option Text) → HelperRun

abbrev last_line : List Text → Option Text
last_line [] = none
last_line (line ∷ []) = some line
last_line (line ∷ next_line ∷ lines) = last_line (next_line ∷ lines)

-- `(result.stderr or result.stdout or "")`
abbrev pub said : (stdout stderr : Option Text) → Text
said stdout stderr = if truthy stderr then get_or [] stderr else get_or [] stdout

-- `hint`
unfoldable pub hint_of : ℕ → Text → Text
unfolding strip splitlines show_number
hint_of returncode spoken =
    get_or (text "exit status " ++ show_number returncode) (last_line (splitlines (strip spoken)))

abbrev pub with_advice : Text → Text
with_advice hint =
    if contains (text "password is required") hint || contains (text "sudo:") hint
    then hint ++ text " -- is deploy/vpn-connect.sudoers installed?"
    else hint

-- `run_helper`: the output, or the text of the `HelperError`; `timeout` is the number as it is shown
unfoldable pub run_helper : (action timeout : Text) → HelperRun → Answer
unfolding hint_of redact contains
run_helper action timeout (helper_absent why) =
    trouble (text "sudo or the helper is not installed: " ++ why)
run_helper action timeout helper_slow =
    trouble (39 ∷ action ++ text "' timed out after " ++ timeout ++ text "s.")
run_helper action timeout (helper_ended zero stdout stderr) = output (get_or [] stdout)
run_helper action timeout (helper_ended (suc code) stdout stderr) = trouble (
    text "Helper '"
    ++ action
    ++ text "' failed: "
    ++ redact (with_advice (hint_of (suc code) (said stdout stderr))))
