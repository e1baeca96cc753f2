-- ===== src/Firewall/Guard.antt =====
-- A connect is let through only over a filter that the helper has just called armed, and no call of
-- the guard can take a filter down.
use mathlib.Core.Path.{subst}
use openvpn_connect_web.Firewall.{
  Answer, Verb, World, armed, call, fw_status, is_armed, output, parse_status, state, trouble,
  FirewallState, Outcome, admit, intended, interpret, is_incapable, is_unprotected, reconcile,
  refused, set_intent, switch, switched, done, fw_on, guard_connect, why_not,
}
use openvpn_connect_web.Prelude.Text.{Text}
use openvpn_connect_web.Prelude.{
  refl, true, ◌≡◌, Bool, Bool-cases, arith, inl, inr, not, ◌||◌, ap, false, if◌then◌else◌,
}

module _ {K : Type 0} (helper : Verb → K → Answer × K) where
  -- `k` is the helper's state after it answered "fw-status" with a text that says "armed"
  pub record IsReportedArmed (k : K) : Type 0 where
    pub before : K
    pub stdout : Text
    pub answered : helper fw_status before ≡ (output stdout, k)
    pub reads : (parse_status stdout).0 ≡ armed

  interpret-armed :
      (intent : Bool) (w : World K) (a : Answer) (k : K)
      → helper fw_status w.kernel ≡ (a, k)
      → is_armed (interpret intent a) ≡ true
      → IsReportedArmed k
  unfolding interpret
  interpret-armed intent w (trouble why) k e h = cc h
  interpret-armed intent w (output stdout) k e h = record {
    before = w.kernel;
    stdout = stdout;
    answered = e;
    reads = ground arith;
  }

  state-armed :
      (w : World K) → is_armed (state helper w).0 ≡ true → IsReportedArmed (state helper w).1.kernel
  unfolding state call
  state-armed w h =
      let (a, k) = helper fw_status w.kernel in interpret-armed (intended w) w a k refl h

  switched-armed :
      (on : Bool) (a : Answer) (w : World K)
      → is_armed (switched helper on a w).0 ≡ true
      → IsReportedArmed (switched helper on a w).1.kernel
  switched-armed on (trouble why) w h = cc h
  switched-armed on (output _) w h = state-armed w h

  -- a state that came back is one that the helper reported
  abbrev IsHonest : Outcome FirewallState × World K → Type 0
  IsHonest (refused why, w) = Unit
  IsHonest (done s, w) = is_armed s ≡ true → IsReportedArmed w.kernel

  set_intent-IsHonest : (w : World K) → IsHonest (set_intent helper true w)
  unfolding set_intent switch
  set_intent-IsHonest w = elim (Bool-cases (is_incapable (state helper w).0)) [
    | inl no_way ↦ rw (no_way, IsHonest) tt
    | inr fine ↦ rw (fine, IsHonest) (λ h. switched-armed true _ _ h)
  ]

  reconcile-IsHonest : (w : World K) → IsHonest (reconcile helper w)
  unfolding reconcile
  reconcile-IsHonest w =
      let s = (state helper w).0 in
      elim (Bool-cases (not (is_unprotected s) || is_incapable s)) [
        | inl content ↦ rw (content, IsHonest) (λ h. state-armed w h)
        | inr rearm ↦ rw (rearm, IsHonest) (set_intent-IsHonest (state helper w).1)
      ]

  let_through-armed :
      (b : Bool) (why : Text) (v w : World K)
      → (b ≡ true → IsReportedArmed v.kernel)
      → ◌≡◌ {A = Outcome (Unit {0}) × World K}
          (if b then (done tt, v) else (refused why, v))
          (done tt, w)
      → IsReportedArmed w.kernel
  let_through-armed false why v w honest e = cc e
  let_through-armed true why v w honest e =
      subst IsReportedArmed (ap (λ x. x.1.kernel) e) (honest refl)

  admit-armed :
      (o : Outcome FirewallState) (v w : World K)
      → IsHonest (o, v)
      → admit helper (o, v) ≡ (done tt, w)
      → IsReportedArmed w.kernel
  admit-armed (refused why) v w honest e = cc e
  admit-armed (done s) v w honest e = let_through-armed (is_armed s) (why_not s) v w honest e

  -- When the filter is wanted and `guard_connect` lets the connect through, the last thing the
  -- helper did was to answer "fw-status" with a line that `parse_status` reads as armed: whatever
  -- the helper does, and whether the filter was armed before or had to be armed again.
  pub guard_connect-armed :
      (w w' : World K)
      → intended w ≡ true
      → guard_connect helper w ≡ (done tt, w')
      → IsReportedArmed w'.kernel
  unfolding guard_connect
  guard_connect-armed w w' wanted e =
      let r = reconcile helper w in admit-armed r.0 r.1 w' (reconcile-IsHonest w) (rw wanted at e)

  module _ (Keeps : K → Type 0) (by_status : (k : K) → Keeps k → Keeps (helper fw_status k).1)
      (by_on : (k : K) → Keeps k → Keeps (helper fw_on k).1) where
    state_keeps : (w : World K) → Keeps w.kernel → Keeps (state helper w).1.kernel
    unfolding state call
    state_keeps w h = by_status w.kernel h

    switched_keeps :
        (a : Answer) (w : World K) → Keeps w.kernel → Keeps (switched helper true a w).1.kernel
    switched_keeps (trouble why) w h = h
    switched_keeps (output _) w h = state_keeps w h

    set_intent_keeps : (w : World K) → Keeps w.kernel → Keeps (set_intent helper true w).1.kernel
    unfolding set_intent switch call
    set_intent_keeps w h = elim (Bool-cases (is_incapable (state helper w).0)) [
      | inl no_way ↦ rw (no_way) (state_keeps w h)
      | inr fine ↦ rw (fine) (switched_keeps _ _ (by_on _ (state_keeps w h)))
    ]

    reconcile_keeps : (w : World K) → Keeps w.kernel → Keeps (reconcile helper w).1.kernel
    unfolding reconcile
    reconcile_keeps w h =
        let s = (state helper w).0 in
        elim (Bool-cases (not (is_unprotected s) || is_incapable s)) [
          | inl content ↦ rw (content) (state_keeps w h)
          | inr rearm ↦ rw (rearm) (set_intent_keeps (state helper w).1 (state_keeps w h))
        ]

    admit_keeps :
        (o : Outcome FirewallState) (v : World K)
        → Keeps v.kernel
        → Keeps (admit helper (o, v)).1.kernel
    admit_keeps (refused why) v h = h
    admit_keeps (done s) v h = elim (Bool-cases (is_armed s)) [
      | inl on ↦ rw (on) h
      | inr off ↦ rw (off) h
    ]

    -- Guarding a connect never switches the filter off: what the helper's "fw-status" and "fw-on"
    -- keep true of its state stays true through `guard_connect`, with no demand on "fw-off".
    guard_connect_keeps : (w : World K) → Keeps w.kernel → Keeps (guard_connect helper w).1.kernel
    unfolding guard_connect
    guard_connect_keeps w h = elim (Bool-cases (intended w)) [
      | inl wanted ↦ rw (wanted) (admit_keeps _ _ (reconcile_keeps w h))
      | inr unwanted ↦ rw (unwanted) h
    ]
