-- ===== src/Notifier/Saved.antt =====
-- What is saved in the panel is what is posted.
use openvpn_connect_web.Controller.State.{Kind, Notice}
use openvpn_connect_web.Prelude.{List, Option, get_or, if◌then◌else◌, none, not, refl, some, ℕ, ◌≡◌}
use openvpn_connect_web.Store.Settings.{Setting, notify_bodies, notify_topic, save_notify}
use openvpn_connect_web.Prelude.Text.{Text, nonempty}
use openvpn_connect_web.Notify.{clean_body, default_body}
use openvpn_connect_web.Notifier.{notify, priority_of, render, tags_of, title_of, url_for}
use openvpn_connect_web.Store.Settings.Messages.{
  notify_bodies-save_notify, notify_topic-save_notify,
}

-- the body of the kind as the operator left it
abbrev pub chosen : (Kind → Option Text) → List Setting → Kind → Text
chosen bodies rows kind = elim (bodies kind) [
  | none ↦ notify_bodies rows kind
  | some body ↦ if nonempty (clean_body body) then clean_body body else default_body kind
]

-- After `save_notify`, a notice of the controller is posted just when the topic is not empty, to that
-- topic below the server; its title, priority and tags are those of its kind, and its body is the
-- placeholders' rendering of the cleaned text saved for the kind, of the default where that is empty,
-- and of what was there before where no text for the kind was given. A topic not given is as before.
pub notify-save_notify :
    (strftime : ℕ → Text) (server : Text) (now : ℕ) (topic : Option Text)
    (bodies : Kind → Option Text) (rows : List Setting) (notice : Notice)
    → notify strftime server (save_notify now topic bodies rows) notice ≡ (
        let t = get_or (notify_topic rows) topic in
        if not (nonempty t)
        then none
        else some (record {
          url = url_for server t;
          title = title_of notice.kind;
          body = render strftime (chosen bodies rows notice.kind) notice;
          priority = priority_of notice.kind;
          tags = tags_of notice.kind;
        }))
unfolding notify
notify-save_notify strftime server now topic bodies rows notice =
    rw
      (
        notify_topic-save_notify now topic bodies rows,
        notify_bodies-save_notify now topic bodies rows notice.kind,
      )
      refl
