-- ===== src/Management/Tests.antt =====
-- A reply and half an event, in two pieces.
use openvpn_connect_web.Prelude.{List, [], false, refl, ◌++◌, ◌∷◌, ◌≡◌}
use openvpn_connect_web.Management.Reader.{
  Reader, dispatch, dispatch_all, finish_reading, read_loop, receive, rstrip_returns, split_lines,
}
use openvpn_connect_web.Prelude.Text.{Text, text}
use openvpn_connect_web.Management.Chunks.{flatten, read_loop-flatten}

abbrev ascii : Text → Text
ascii t = t

abbrev fresh : Reader
fresh = record { buffer = []; responses = []; events = []; closed = false }

abbrev pieces : List Text
pieces = (text "ESS: ok" ++ 13 ∷ 10 ∷ text ">sta") ∷ (text "te:1,UP" ++ 10 ∷ text "x") ∷ []

read_loop-flatten_example :
    read_loop ascii (text "EOF") (text "SUCC" ∷ pieces) fresh
    ≡ read_loop ascii (text "EOF") (flatten (text "SUCC" ∷ pieces) ∷ []) fresh
read_loop-flatten_example = read_loop-flatten ascii (text "EOF") (text "SUCC") pieces fresh

what_is_read :
    ((read_loop ascii (text "EOF") (text "SUCC" ∷ pieces) fresh).responses
      ≡ text "SUCCESS: ok" ∷ text "EOF" ∷ [])
    × ((read_loop ascii (text "EOF") (text "SUCC" ∷ pieces) fresh).events
        ≡ (text "STATE", text "1,UP") ∷ (text "DISCONNECTED", []) ∷ [])
unfolding read_loop receive finish_reading split_lines dispatch_all dispatch rstrip_returns
what_is_read = (refl, refl)
