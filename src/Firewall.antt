-- ===== src/Firewall.antt =====
-- app/services/firewall.py: the switch for the tunnel's inbound filter. The root helper is outside:
-- it has a state of its own, and answers one of three verbs with its output or an error.
use openvpn_connect_web.Prelude.{
  Bool, List, Option, [], false, if◌then◌else◌, none, not, some, true, ℕ, ◌&&◌, ◌+◌, ◌||◌, ◌∷◌,
}
use openvpn_connect_web.Prelude.Text.{Text, cut, isdigit, nonempty, strip, text, text_eq, words}
use openvpn_connect_web.Controller.Events.{answer}
use openvpn_connect_web.Prelude.Number.{decimal}
pub mod Guard
mod Tests

-- ARMED … UNKNOWN
pub data Loaded : Type 0 where
  armed disarmed unavailable unknown : Loaded

pub data Verb : Type 0 where
  fw_on fw_off fw_status : Verb

-- stdout, or the text of the `HelperError`
pub data Answer : Type 0 where
  output : Text → Answer
  trouble : Text → Answer

pub record FirewallState : Type 0 where
  pub status : Loaded
  pub intended : Bool
  pub drops : ℕ
  pub detail : Text

abbrev pub is_armed : FirewallState → Bool
is_armed s = elim (s.status) [ armed ↦ true | _ ↦ false ]

abbrev pub is_unprotected : FirewallState → Bool
is_unprotected s = s.intended && not (is_armed s)

-- `status in (UNAVAILABLE, UNKNOWN)`
abbrev pub is_incapable : FirewallState → Bool
is_incapable s = elim (s.status) [ unavailable ↦ true | unknown ↦ true | _ ↦ false ]

unfoldable pub sum_digits : List Text → ℕ
unfolding isdigit decimal
sum_digits [] = 0
sum_digits (token ∷ rest) = (if isdigit token then decimal token else 0) + sum_digits rest

abbrev pub classify : List Text → Loaded × ℕ
classify [] = (unknown, 0)
classify (head ∷ rest) =
    if text_eq head (text "disarmed")
    then (disarmed, 0)
    else if text_eq head (text "unavailable")
    then (unavailable, 0)
    else if text_eq head (text "armed")
    then (armed, sum_digits rest)
    else (unknown, 0)

unfoldable pub parse_status : Text → Loaded × ℕ
unfolding strip words cut text_eq sum_digits
parse_status t = classify (words (cut 10 (strip t)).0)

-- the database row of the setting, and the helper's state
pub record World (K : Type 0) : Type 0 where
  pub setting : Option Text
  pub kernel : K

-- a value, or the `FirewallUnavailable`
pub data Outcome {ℓ} (A : Type ℓ) : Type ℓ where
  done : A → Outcome A
  refused : Text → Outcome A

unfoldable pub intended : {K : Type 0} → World K → Bool
unfolding text_eq
intended w = elim w.setting [ none ↦ false | some value ↦ text_eq value (text "1") ]

unfoldable pub interpret : Bool → Answer → FirewallState
unfolding strip
interpret intent (trouble why) = record {
  status = unknown;
  intended = intent;
  drops = 0;
  detail = why;
}
interpret intent (output stdout) =
    let (status, drops) = parse_status stdout in
    record {
      status = status;
      intended = intent;
      drops = drops;
      detail = elim status [ unavailable ↦ strip stdout | _ ↦ [] ];
    }

abbrev pub status_text : Loaded → Text
status_text armed = text "armed"
status_text disarmed = text "disarmed"
status_text unavailable = text "unavailable"
status_text unknown = text "unknown"

-- `state.detail or state.status`, the part of a refusal that varies
abbrev pub why_not : FirewallState → Text
why_not s = if nonempty s.detail then s.detail else status_text s.status

abbrev pub setting_of : Bool → Text
setting_of on = if on then text "1" else text "0"

module _ {K : Type 0} (helper : Verb → K → Answer × K) where
  -- `_helper`
  unfoldable pub call : Verb → World K → Answer × World K
  call verb w = let (answer, k) = helper verb w.kernel in (answer, record w { kernel = k })

  unfoldable pub state : World K → FirewallState × World K
  state w = let (answer, w') = call fw_status w in (interpret (intended w) answer, w')

  abbrev pub switched : Bool → Answer → World K → FirewallState × World K
  switched on (trouble why) w =
      (record { status = unknown; intended = on; drops = 0; detail = why }, w)
  switched on (output _) w = state w

  -- the setting is written, then the helper is asked, then the state is read back
  unfoldable pub switch : Bool → World K → FirewallState × World K
  switch on w =
      let (answer, w') =
        call (if on then fw_on else fw_off) (record w { setting = some (setting_of on) }) in
      switched on answer w'

  unfoldable pub set_intent : Bool → World K → Outcome FirewallState × World K
  set_intent false w = let (s, w') = switch false w in (done s, w')
  set_intent true w =
      let (capability, w') = state w in
      let (s, w'') = switch true w' in
      if is_incapable capability then (refused (why_not capability), w') else (done s, w'')

  unfoldable pub reconcile : World K → Outcome FirewallState × World K
  reconcile w =
      let (current, w') = state w in
      if not (is_unprotected current) || is_incapable current
      then (done current, w')
      else set_intent true w'

  abbrev pub admit : Outcome FirewallState × World K → Outcome (Unit {0}) × World K
  admit (refused why, w) = (refused why, w)
  admit (done s, w) = if is_armed s then (done tt, w) else (refused (why_not s), w)

  unfoldable pub guard_connect : World K → Outcome (Unit {0}) × World K
  guard_connect w = if intended w then admit (reconcile w) else (done tt, w)
