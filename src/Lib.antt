-- ===== src/Lib.antt =====
-- OpenVPN Connect Web: a verification library of the control panel for one OpenVPN tunnel.
--
-- The program is a Flask panel that starts and stops one openvpn process through a root helper,
-- listens to its management socket, records sessions in SQLite, guards the tunnel with an inbound
-- filter, and lets an operator sign in. The parts modelled here, and the file of each:
--
-- Controller models OpenVpnController of app/services/openvpn.py. Controller/State holds its
-- fields, the interface Recorder to the history and the messages handed to the notifier.
-- Controller/Announce is _tracked, _announce, _write_event and _fail; Controller/Events is
-- _on_event and the handlers it calls; Controller/Api is connect, disconnect, attach, snapshot
-- and _refresh_state; Controller/Worker is _connect_worker, cut where it waits, with _superseded,
-- _advance, _raise_if_failed and _abort_daemon. Controller/Run is the step relation: any order of
-- these and of the parts of those that wait without the lock, disconnect, attach and the launch
-- of a worker. A change of the state and its announcement are one step there, though _tracked
-- announces after releasing the lock. What the operating system, the helper and the socket answer
-- is an argument of each operation. Times are microseconds.
--
-- History is the class History of app/services/history.py, with the exceptions that it swallows
-- drawn from an oracle; it fills the interface Recorder. Store/Sessions is the part of
-- app/services/store.py that it writes to: a table is a list of rows by ascending id, and times
-- are seconds.
--
-- Store/Connections is the table of connections, a list of rows; Store/Settings the table of
-- settings with the notification settings in it, and Store/DnsRules the table of DNS rules.
-- Notify is app/services/notify.py.
--
-- Dns is the checking part of app/services/dns.py and Dns/File the file of dnsmasq, written and
-- read. DnsService is app/services/dns_rules.py, over the table, the file and the root helper,
-- which is a parameter with a state of its own.
--
-- Vault is app/services/vault.py over the interface Cipher to the key derivation and the
-- encryption, with secrets_for of app/services/store.py. Connections is
-- app/services/connections.py over the vault, the table of connections and the files of the
-- profiles.
--
-- Migrations is the migration runner of app/db.py, over what runs a script, and Release
-- tools/next_version.py.
--
-- SessionList is app/services/sessions.py: SessionList/Pages its pages and SessionList/Summary
-- its summary. The reading of a timestamp is a parameter. Traffic is app/services/traffic.py,
-- with fractions for its quotients. Whois is the cache and the batch of app/services/whois.py;
-- what it asks is a parameter.
--
-- Management/Redact is redact and _quote of app/services/management.py, Management/Reader its
-- read loop with _dispatch, over the chunks that the socket gives.
--
-- Firewall is app/services/firewall.py. The root helper is a parameter with a state of its own.
--
-- Access is app/services/access.py, over an interface to Python's ipaddress.
--
-- Login is LoginThrottle and the cross-site token of app/auth.py and the route login of
-- app/routes/ui.py, in two halves, up to the throttle and from there; Login/Threads lets the
-- halves of several requests interleave on a number of threads (deploy/vpn-connect.service.in
-- starts 8); Login/Gate is the guard login_required and the route logout. The password hash and
-- the unlocking of the vault are parameters.
--
-- Routing is parse_routes of app/services/routing.py and Pushed app/services/pushed.py, which
-- compares the PUSH_REPLY with those routes.
--
-- Resolver is the verdict of app/services/resolver.py on who resolves what, and Resolver/Labels
-- its test of a domain against labels. Deploy is app/services/deploy.py with
-- app/services/clients.py, over values for the files.
--
-- Notifier is app/services/notifications.py, from a notice of the controller to the message that
-- is posted, and Rooted run_helper of app/services/rooted.py.
--
-- Scope is app/services/scope.py over an interface to ipaddress: Scope/Measure counts addresses,
-- Scope/Full is the verdict against that count, Scope/Egress and Scope/Leak the warnings. Routes
-- is the endpoints of app/routes/api.py that change state, over the models of the services:
-- Routes/Handlers and Routes/Tunnel are the views, Routes/Guarded each of them in its
-- login_required and behind its validate_csrf, Routes/InUse what stays while an attempt is under
-- way. Routes/Reads is the endpoints routes and whois, and Routes/Relay what the second can ask;
-- Routes/Safe and Routes/Refused are what an error leaves as it was.
--
-- Every loop of the source that is modelled runs over a list; only the following of a cursor from
-- page to page, which is the panel's, and the writing of a number in decimal use fuel, and each
-- is shown to have enough. Numbers are unbounded as in Python. lower, upper and title are those
-- of ASCII; white space is Python's, and the digits of the authenticator code are those of every
-- script, other digits those of ASCII. Not modelled: announcements of two threads at the same
-- time, two requests to the panel other than sign-ins at the same time, the network and process
-- I/O, the connections to SQLite, the other endpoints that only read, and the front end.
mod Prelude
pub mod Dns
pub mod Notify
pub mod Management
pub mod Controller
pub mod Store
pub mod History
pub mod Firewall
pub mod Access
pub mod Login
pub mod Vault
pub mod Connections
pub mod SessionList
pub mod DnsService
pub mod Migrations
pub mod Release
pub mod Traffic
pub mod Whois
pub mod Scope
pub mod Routes
pub mod Routing
pub mod Pushed
pub mod Resolver
pub mod Deploy
pub mod Notifier
pub mod Rooted
