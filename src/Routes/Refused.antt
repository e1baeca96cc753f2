-- ===== src/Routes/Refused.antt =====
-- What a refusal leaves as it was.
use openvpn_connect_web.Controller.Api as Calls
use openvpn_connect_web.Controller.State.{Controller}
use openvpn_connect_web.Connections
use openvpn_connect_web.Firewall
use openvpn_connect_web.Routes
use openvpn_connect_web.Routes.{HttpReply, reply, Body, with_upload}
use openvpn_connect_web.Routes.Handlers as Handlers
use openvpn_connect_web.Routes.Tunnel as Tunnel
use openvpn_connect_web.Store.Connections as Table
use openvpn_connect_web.Store.Connections.{
  Connection, Stored, kept, store_error, Form, get_connection, has_name,
}
use openvpn_connect_web.Prelude.Text.{Text}
