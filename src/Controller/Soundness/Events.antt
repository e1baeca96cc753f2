-- ===== src/Controller/Soundness/Events.antt =====
-- Every management event keeps the invariant.
use openvpn_connect_web.Controller.State.{Controller, Recorder}
use openvpn_connect_web.Controller.Events.{
  StateLine, on_socket_closed, on_state_line, read_state, answer, append_log, counted, on_bytecount,
  on_event, on_password, on_state, record_bytes, state_line,
}
use openvpn_connect_web.Prelude.Text.{Text, contains, lower, split, text}
use openvpn_connect_web.Prelude.{
  arith, refl, ℕ, ◌∙◌, List, Option, Option-cases, [], inl, inr, none, some, ◌&&◌, ◌++◌, ◌∷◌,
}
use openvpn_connect_web.Prelude.Number.{ℤ}
use openvpn_connect_web.Controller.Soundness.Invariant.{
  IsSound, fail-IsSound, if-IsSound, tracked-IsSound, tracked-resting,
}

module _ {H : Type 0} ⦃r : Recorder H⦄ where
  pub on_socket_closed-IsSound :
      (now : ℕ) (c : Controller H) → IsSound c → IsSound (on_socket_closed now c)
  unfolding on_socket_closed
  on_socket_closed-IsSound now c s = record {
    resting = tracked-resting now _ c s refl;
    told = λ _. refl;
    woken = λ _. (refl, refl);
    reported = λ _. refl;
  }

  pub on_state_line-IsSound :
      (now : ℕ) (l : StateLine) (c : Controller H) → IsSound c → IsSound (on_state_line now l c)
  unfolding on_state_line read_state
  on_state_line-IsSound now l c s =
      tracked-IsSound now _ c s refl (ground arith) (ground arith) (ground arith)

  pub on_state-IsSound :
      (now : ℕ) (payload : Text) (c : Controller H) → IsSound c → IsSound (on_state now payload c)
  unfolding on_state
  on_state-IsSound now payload c s = elim (Option-cases (state_line (split b',' payload))) [
    | inl short ↦ rw (short, on_state) s
    | inr (l, read) ↦ rw (read, on_state) (on_state_line-IsSound now l c s)
  ]

  pub answer-IsSound :
      (now : ℕ) (refusal : Option Text) (payload : Text) (secret : Option Text) (c : Controller H)
      → IsSound c
      → IsSound (answer now refusal payload secret c)
  unfolding answer
  answer-IsSound now refusal payload none c s = fail-IsSound now _ c s
  answer-IsSound now none payload (some secret) c s = record {
    resting = s.resting;
    told = s.told;
    woken = λ f. ((s.woken f).0, refl);
    reported = λ _. refl;
  }
  answer-IsSound now (some why) payload (some secret) c s =
      let f = fail-IsSound now (text "Could not submit credentials: " ++ why) c s in
      record { resting = f.resting; told = f.told; woken = f.woken; reported = f.reported }

  pub on_password-IsSound :
      (now : ℕ) (refusal : Option Text) (payload : Text) (c : Controller H)
      → IsSound c
      → IsSound (on_password now refusal payload c)
  unfolding on_password
  on_password-IsSound now refusal payload c s =
      if-IsSound
        (contains (text "need") (lower payload)
          && contains (text "username/password") (lower payload))
        (answer-IsSound now refusal payload _ c s)
        (if-IsSound (contains (text "verification failed") (lower payload))
          (fail-IsSound now _ _ (record {
            resting = s.resting;
            told = s.told;
            woken = λ f. ((s.woken f).0, refl);
            reported = λ _. refl;
          }))
          s)

  pub record_bytes-IsSound :
      (bytes_in bytes_out : Option ℤ) (c : Controller H)
      → IsSound c
      → IsSound (record_bytes bytes_in bytes_out c)
  unfolding record_bytes
  record_bytes-IsSound (some i) (some o) c s = record {
    resting = λ d. r.recording-sample i o c.history ∙ s.resting d;
    told = s.told;
    woken = s.woken;
    reported = s.reported;
  }
  record_bytes-IsSound none o c s = s
  record_bytes-IsSound (some i) none c s = s

  pub on_bytecount-IsSound :
      (payload : Text) (c : Controller H) → IsSound c → IsSound (on_bytecount payload c)
  unfolding on_bytecount
  on_bytecount-IsSound payload c s = at_two (split b',' payload)
    where
      at_two : (parts : List Text) → IsSound (counted parts c)
      at_two [] = s
      at_two (a ∷ []) = s
      at_two (a ∷ b ∷ []) = record_bytes-IsSound _ _ c s
      at_two (a ∷ b ∷ d ∷ more) = s

  pub append_log-IsSound :
      (payload : Text) (c : Controller H) → IsSound c → IsSound (append_log payload c)
  unfolding append_log
  append_log-IsSound payload c s = record {
    resting = λ d. r.recording-append _ c.history ∙ s.resting d;
    told = s.told;
    woken = s.woken;
    reported = s.reported;
  }

  pub on_event-IsSound :
      (now : ℕ) (refusal : Option Text) (kind payload : Text) (c : Controller H)
      → IsSound c
      → IsSound (on_event now refusal kind payload c)
  unfolding on_event
  on_event-IsSound now refusal kind payload c s = if-IsSound _ (on_state-IsSound now payload c s) (
      if-IsSound _ (on_password-IsSound now refusal payload c s) (
        if-IsSound _ (on_bytecount-IsSound payload c s) (
          if-IsSound _ (append_log-IsSound payload c s) (
            if-IsSound _ (fail-IsSound now _ c s)
              (if-IsSound _ (on_socket_closed-IsSound now c s) s)))))
