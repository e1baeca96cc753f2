-- ===== src/Routes/Guarded.antt =====
-- One request to an endpoint: the wrapper of `login_required` around each view, the view's own check
-- of the token, and the rest of the view.
use openvpn_connect_web.Routes
use openvpn_connect_web.Routes.{
  Endpoint, HttpReply, reply, Around, Panel, bad_token, is_get, unauthenticated, vault_view,
}
use openvpn_connect_web.Routes.Handlers as Handlers
use openvpn_connect_web.Routes.Tunnel as Tunnel
use openvpn_connect_web.Login.{Session, Request, is_csrf_valid}
use openvpn_connect_web.Firewall.{Answer, Verb}
use openvpn_connect_web.Prelude.{
  Bool, false, true, ◌++◌, ◌||◌, not, ◌&&◌, ◌≡◌, ◌⊎◌, if◌then◌else◌, inl, inr, refl,
}
use openvpn_connect_web.Vault.{Cipher}
use openvpn_connect_web.Controller.State.{Recorder}
use openvpn_connect_web.Prelude.Text.{Text, text, starts_with}
use openvpn_connect_web.Login.Gate.{
  Verdict, login_required, restarted_api, unauthenticated_api, view, vault_locked, VaultView,
  log_out,
}
use openvpn_connect_web.Controller.Events.{answer}
use openvpn_connect_web.Prelude.Number.{show_number}
use openvpn_connect_web.Controller.Announce.{verdict}

-- the answer of `login_required` where the view does not run
abbrev pub verdict_reply : Verdict → HttpReply
verdict_reply restarted_api = reply 401 unauthenticated
verdict_reply unauthenticated_api = reply 401 unauthenticated
verdict_reply _ = reply 302 unauthenticated

abbrev pub path_of : Endpoint → Text
path_of (Routes.connect profile otp) = text "/api/connect"
path_of Routes.disconnect = text "/api/disconnect"
path_of (Routes.update_notify topic bodies) = text "/api/notify"
path_of Routes.notify_test = text "/api/notify/test"
path_of (Routes.save_connection f upload) = text "/api/connections"
path_of (Routes.make_default n) = text "/api/connections/" ++ n ++ text "/default"
path_of (Routes.toggle_pushed_dns n) = text "/api/connections/" ++ n ++ text "/toggle-dns"
path_of (Routes.delete_connection n) = text "/api/connections/" ++ n ++ text "/delete"
path_of (Routes.add_dns_rule kind domain address) = text "/api/dns"
path_of (Routes.delete_dns_rule i) = text "/api/dns/" ++ show_number i ++ text "/delete"
path_of (Routes.move_dns_rule i direction) = text "/api/dns/" ++ show_number i ++ text "/move"
path_of Routes.import_dns_rules = text "/api/dns/import"
path_of Routes.firewall_state = text "/api/firewall"
path_of (Routes.set_firewall enabled) = text "/api/firewall"

is_api_path : (e : Endpoint) → starts_with (path_of e) (text "/api/") ≡ true
unfolding starts_with show_number
is_api_path (Routes.connect profile otp) = refl
is_api_path Routes.disconnect = refl
is_api_path (Routes.update_notify topic bodies) = refl
is_api_path Routes.notify_test = refl
is_api_path (Routes.save_connection f upload) = refl
is_api_path (Routes.make_default n) = refl
is_api_path (Routes.toggle_pushed_dns n) = refl
is_api_path (Routes.delete_connection n) = refl
is_api_path (Routes.add_dns_rule kind domain address) = refl
is_api_path (Routes.delete_dns_rule i) = refl
is_api_path (Routes.move_dns_rule i direction) = refl
is_api_path Routes.import_dns_rules = refl
is_api_path Routes.firewall_state = refl
is_api_path (Routes.set_firewall enabled) = refl

-- what `login_required` answers under /api/
abbrev api_verdict : (signed locked : Bool) → Session → Verdict × Session
api_verdict signed locked s =
    if signed && locked
    then (restarted_api, log_out)
    else if not signed
    then (unauthenticated_api, s)
    else (view, s)

api_login :
    (e : Endpoint) (v : VaultView) (s : Session)
    → login_required (path_of e) v s ≡ api_verdict s.authenticated (vault_locked v) s
unfolding login_required
api_login e v s = rw (is_api_path e) refl

module _ {K : Type 0} (cipher : Cipher K) {D F H : Type 0} ⦃r : Recorder H⦄ (writable : D → Bool)
    (dns_helper : Text → D → Answer × D) (fw_helper : Verb → F → Answer × F)
    (is_address : Text → Bool) where
  -- each view after its `validate_csrf()`
  unfoldable pub view_of : Endpoint → Around → Panel cipher D F H → HttpReply × Panel cipher D F H
  view_of (Routes.connect profile otp) a w = Tunnel.connect cipher fw_helper a profile otp w
  view_of Routes.disconnect a w = Tunnel.disconnect cipher a w
  view_of (Routes.update_notify topic bodies) a w = Handlers.update_notify cipher a topic bodies w
  view_of Routes.notify_test a w = Handlers.notify_test cipher a.undelivered w
  view_of (Routes.save_connection f upload) a w = Handlers.save_connection cipher a f upload w
  view_of (Routes.make_default n) a w = Handlers.make_default cipher n w
  view_of (Routes.toggle_pushed_dns n) a w = Handlers.toggle_pushed_dns cipher a n w
  view_of (Routes.delete_connection n) a w = Handlers.delete_connection cipher a n w
  view_of (Routes.add_dns_rule kind domain address) a w =
      Tunnel.add_dns_rule cipher writable dns_helper is_address a kind domain address w
  view_of (Routes.delete_dns_rule i) a w =
      Tunnel.delete_dns_rule cipher writable dns_helper is_address i w
  view_of (Routes.move_dns_rule i direction) a w =
      Tunnel.move_dns_rule cipher writable dns_helper is_address a i direction w
  view_of Routes.import_dns_rules a w =
      Tunnel.import_dns_rules cipher writable dns_helper is_address a w
  view_of Routes.firewall_state a w = Tunnel.firewall_state cipher fw_helper w
  view_of (Routes.set_firewall enabled) a w = Tunnel.set_firewall cipher fw_helper enabled w

  -- `validate_csrf()` at the head of a view: the rest runs where it does not raise
  abbrev pub validated :
      Request → Panel cipher D F H → HttpReply × Panel cipher D F H → HttpReply × Panel cipher D F H
  validated q w rest = if is_csrf_valid q then rest else (reply 400 bad_token, w)

  abbrev pub wrapped :
      Verdict × Session
      → Panel cipher D F H
      → HttpReply × Panel cipher D F H
      → HttpReply × Session × Panel cipher D F H
  wrapped (view, s) w ran = (ran.0, s, ran.1)
  wrapped (verdict, s) w ran = (verdict_reply verdict, s, w)

  -- the `wrapper` that `login_required` puts around a view, which gives `ran` if it runs
  abbrev pub wrapper :
      Text
      → Request
      → Panel cipher D F H
      → HttpReply × Panel cipher D F H
      → HttpReply × Session × Panel cipher D F H
  wrapper path q w ran = wrapped (login_required path (vault_view cipher D F H w) q.session) w ran

  -- each view with its decorator and its own check of the token: the reply, the cookie and what is
  -- left
  unfoldable pub handle :
      Endpoint → Request → Around → Panel cipher D F H → HttpReply × Session × Panel cipher D F H
  unfolding login_required is_csrf_valid view_of
  handle (Routes.connect profile otp) q a w =
      wrapper (path_of (Routes.connect profile otp)) q w
        (validated q w (view_of (Routes.connect profile otp) a w))
  handle Routes.disconnect q a w =
      wrapper (path_of Routes.disconnect) q w (validated q w (view_of Routes.disconnect a w))
  handle (Routes.update_notify topic bodies) q a w =
      wrapper (path_of (Routes.update_notify topic bodies)) q w
        (validated q w (view_of (Routes.update_notify topic bodies) a w))
  handle Routes.notify_test q a w =
      wrapper (path_of Routes.notify_test) q w (validated q w (view_of Routes.notify_test a w))
  handle (Routes.save_connection f upload) q a w =
      wrapper (path_of (Routes.save_connection f upload)) q w
        (validated q w (view_of (Routes.save_connection f upload) a w))
  handle (Routes.make_default n) q a w =
      wrapper (path_of (Routes.make_default n)) q w
        (validated q w (view_of (Routes.make_default n) a w))
  handle (Routes.toggle_pushed_dns n) q a w =
      wrapper (path_of (Routes.toggle_pushed_dns n)) q w
        (validated q w (view_of (Routes.toggle_pushed_dns n) a w))
  handle (Routes.delete_connection n) q a w =
      wrapper (path_of (Routes.delete_connection n)) q w
        (validated q w (view_of (Routes.delete_connection n) a w))
  handle (Routes.add_dns_rule kind domain address) q a w =
      wrapper (path_of (Routes.add_dns_rule kind domain address)) q w
        (validated q w (view_of (Routes.add_dns_rule kind domain address) a w))
  handle (Routes.delete_dns_rule i) q a w =
      wrapper (path_of (Routes.delete_dns_rule i)) q w
        (validated q w (view_of (Routes.delete_dns_rule i) a w))
  handle (Routes.move_dns_rule i direction) q a w =
      wrapper (path_of (Routes.move_dns_rule i direction)) q w
        (validated q w (view_of (Routes.move_dns_rule i direction) a w))
  handle Routes.import_dns_rules q a w =
      wrapper (path_of Routes.import_dns_rules) q w
        (validated q w (view_of Routes.import_dns_rules a w))
  handle Routes.firewall_state q a w =
      wrapper (path_of Routes.firewall_state) q w (view_of Routes.firewall_state a w)
  handle (Routes.set_firewall enabled) q a w =
      wrapper (path_of (Routes.set_firewall enabled)) q w
        (validated q w (view_of (Routes.set_firewall enabled) a w))

  -- whether a request is signed in over an open vault and, unless its method is GET, has its token
  unfoldable pub is_let_through : Endpoint → Request → Panel cipher D F H → Bool
  unfolding is_csrf_valid
  is_let_through e q w =
      q.session.authenticated
      && not (vault_locked (vault_view cipher D F H w))
      && (is_get e || is_csrf_valid q)

  abbrev pub answered_by :
      Endpoint → Around → Panel cipher D F H → Session → HttpReply × Session × Panel cipher D F H
  answered_by e a w s = let (answer, w') = view_of e a w in (answer, s, w')

  abbrev pub IsRefused : Panel cipher D F H → HttpReply × Session × Panel cipher D F H → Type 0
  IsRefused w result = (result.2 ≡ w) × ((result.0.code ≡ 401) ⊎ (result.0.code ≡ 400))

  guarded-cases :
      (signed locked token : Bool) (s : Session) (w : Panel cipher D F H)
      (ran : HttpReply × Panel cipher D F H)
      → let result =
          wrapped
            (api_verdict signed locked s)
            w
            (if token then ran else (reply 400 bad_token, w)) in
        ((signed && not locked && token) ≡ true → result ≡ (ran.0, s, ran.1))
        × ((signed && not locked && token) ≡ false → IsRefused w result)
  guarded-cases true true token s w ran = (λ h. cc h, λ h. (refl, inl refl))
  guarded-cases true false true s w ran = (λ h. refl, λ h. cc h)
  guarded-cases true false false s w ran = (λ h. cc h, λ h. (refl, inr refl))
  guarded-cases false locked token s w ran = (λ h. cc h, λ h. (refl, inl refl))

  wrapper-cases :
      (e : Endpoint) (q : Request) (token : Bool) (a : Around) (w : Panel cipher D F H)
      → let result =
          wrapper (path_of e) q w (if token then view_of e a w else (reply 400 bad_token, w)) in
        let may =
          q.session.authenticated && not (vault_locked (vault_view cipher D F H w)) && token in
        (may ≡ true → result ≡ answered_by e a w q.session) × (may ≡ false → IsRefused w result)
  wrapper-cases e q token a w = rw (api_login e (vault_view cipher D F H w) q.session) (
      guarded-cases q.session.authenticated (vault_locked (vault_view cipher D F H w)) token
        q.session w (view_of e a w))

  -- Each of the endpoints that change state refuses, with 401 or 400 and with every service left as
  -- it was, a request that is not signed in, whose vault is locked, or that is a POST without the
  -- session's token. Every other request it answers with what its view gives.
  pub handle-cases :
      (e : Endpoint) (q : Request) (a : Around) (w : Panel cipher D F H)
      → (is_let_through e q w ≡ true → handle e q a w ≡ answered_by e a w q.session)
        × (is_let_through e q w ≡ false → IsRefused w (handle e q a w))
  unfolding handle is_let_through
  handle-cases (Routes.connect profile otp) q a w =
      wrapper-cases (Routes.connect profile otp) q (is_csrf_valid q) a w
  handle-cases Routes.disconnect q a w = wrapper-cases Routes.disconnect q (is_csrf_valid q) a w
  handle-cases (Routes.update_notify topic bodies) q a w =
      wrapper-cases (Routes.update_notify topic bodies) q (is_csrf_valid q) a w
  handle-cases Routes.notify_test q a w = wrapper-cases Routes.notify_test q (is_csrf_valid q) a w
  handle-cases (Routes.save_connection f upload) q a w =
      wrapper-cases (Routes.save_connection f upload) q (is_csrf_valid q) a w
  handle-cases (Routes.make_default n) q a w =
      wrapper-cases (Routes.make_default n) q (is_csrf_valid q) a w
  handle-cases (Routes.toggle_pushed_dns n) q a w =
      wrapper-cases (Routes.toggle_pushed_dns n) q (is_csrf_valid q) a w
  handle-cases (Routes.delete_connection n) q a w =
      wrapper-cases (Routes.delete_connection n) q (is_csrf_valid q) a w
  handle-cases (Routes.add_dns_rule kind domain address) q a w =
      wrapper-cases (Routes.add_dns_rule kind domain address) q (is_csrf_valid q) a w
  handle-cases (Routes.delete_dns_rule i) q a w =
      wrapper-cases (Routes.delete_dns_rule i) q (is_csrf_valid q) a w
  handle-cases (Routes.move_dns_rule i direction) q a w =
      wrapper-cases (Routes.move_dns_rule i direction) q (is_csrf_valid q) a w
  handle-cases Routes.import_dns_rules q a w =
      wrapper-cases Routes.import_dns_rules q (is_csrf_valid q) a w
  handle-cases Routes.firewall_state q a w = wrapper-cases Routes.firewall_state q true a w
  handle-cases (Routes.set_firewall enabled) q a w =
      wrapper-cases (Routes.set_firewall enabled) q (is_csrf_valid q) a w
