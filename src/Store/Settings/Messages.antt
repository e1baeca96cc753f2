-- ===== src/Store/Settings/Messages.antt =====
-- What is saved is what is read.
use mathlib.Core.Path.{subst}
use openvpn_connect_web.Controller.State.{Kind, down_manual, down_severed, up}
use openvpn_connect_web.Prelude.{
  Bool-cases, List, Option, [], ap, false, if◌then◌else◌, inl, inr, none, refl, some, sym, true, ℕ,
  ◌∙◌, ◌∷◌, ◌≡◌, ◌++◌, get_or,
}
use openvpn_connect_web.Store.Settings.{
  Setting, body_values, get_setting, has_key, notify_body, set_setting, set_settings, body_value,
  notify_bodies, ntfy_topic, save_notify, topic_value, message_kinds, notify_topic,
}
use openvpn_connect_web.Prelude.Text.{Text, text_eq, text_eq_refl, text_eq_sound, nonempty}
use openvpn_connect_web.Notify.{clean_body, default_body}
use openvpn_connect_web.Login.Tally.{same}

module _ (now : ℕ) (d : Text) where
  get-set : (k v : Text) (rows : List Setting) → get_setting (set_setting now k v rows) k d ≡ v
  unfolding get_setting set_setting
  get-set k v [] = rw (text_eq_refl k) refl
  get-set k v (s ∷ rows) = elim (Bool-cases (has_key k s)) [
    | inl hit ↦ rw (hit, hit) refl
    | inr miss ↦ rw (miss, miss) (get-set k v rows)
  ]

  get-set_ne :
      (k j v : Text) (rows : List Setting)
      → text_eq j k ≡ false
      → get_setting (set_setting now k v rows) j d ≡ get_setting rows j d
  unfolding get_setting set_setting
  get-set_ne k j v [] h = rw h refl
  get-set_ne k j v (s ∷ rows) h = elim (Bool-cases (has_key k s)) [
    | inl hit ↦
        let missed : text_eq j s.key ≡ false =
          subst (λ t. text_eq j t ≡ false) (text_eq_sound k s.key hit) h in
        rw (hit, missed) refl
    | inr miss ↦ elim (Bool-cases (has_key j s)) [
      | inl found_it ↦ rw (miss, found_it) refl
      | inr pass ↦ rw (miss, pass) (get-set_ne k j v rows h)
    ]
  ]

-- the newest value of a key in a list of assignments
latest : List (Text × Text) → Text → Text → Text
latest [] j d = d
latest ((k, v) ∷ values) j d = latest values j (if text_eq j k then v else d)

get-set_settings :
    (now : ℕ) (values : List (Text × Text)) (rows : List Setting) (j d : Text)
    → get_setting (set_settings now values rows) j d ≡ latest values j (get_setting rows j d)
unfolding set_settings latest
get-set_settings now [] rows j d = refl
get-set_settings now ((k, v) ∷ values) rows j d =
    get-set_settings now values (set_setting now k v rows) j d
    ∙ ap (latest values j) (elim (Bool-cases (text_eq j k)) [
      | inl same ↦ rw same (
          subst (λ t. get_setting (set_setting now k v rows) t d ≡ v) (sym (text_eq_sound j k same))
            (get-set now d k v rows))
      | inr other ↦ rw other (get-set_ne now d k j v rows other)
    ])

abbrev cleaned_or : Text → Option Text → Text
cleaned_or d none = d
cleaned_or d (some body) = clean_body body

module _ (j d : Text) (kind : Kind) (values : List (Text × Text)) where
  latest_hit :
      (o : Option Text)
      → text_eq j (notify_body kind) ≡ true
      → latest (body_value kind o ++ values) j d ≡ latest values j (cleaned_or d o)
  unfolding latest
  latest_hit none h = refl
  latest_hit (some body) h = rw h refl

  latest_miss :
      (o : Option Text)
      → text_eq j (notify_body kind) ≡ false
      → latest (body_value kind o ++ values) j d ≡ latest values j d
  unfolding latest
  latest_miss none h = refl
  latest_miss (some body) h = rw h refl

module _ (j d : Text) (values : List (Text × Text)) where
  latest_topic :
      (topic : Option Text)
      → text_eq j ntfy_topic ≡ false
      → latest (topic_value topic ++ values) j d ≡ latest values j d
  unfolding latest
  latest_topic none h = refl
  latest_topic (some t) h = rw h refl

-- the setting of one message after a save
message-save_notify :
    (now : ℕ) (topic : Option Text) (bodies : Kind → Option Text) (rows : List Setting)
    (kind : Kind)
    → get_setting (save_notify now topic bodies rows) (notify_body kind) []
      ≡ cleaned_or (get_setting rows (notify_body kind) []) (bodies kind)
unfolding save_notify latest text_eq
message-save_notify now topic bodies rows up =
    let j = notify_body up in
    let d = get_setting rows j [] in
    let d' = cleaned_or d (bodies up) in
    get-set_settings now (topic_value topic ++ body_values bodies message_kinds) rows j []
    ∙ latest_topic j d (body_values bodies message_kinds) topic refl
    ∙ latest_hit j d up (body_values bodies (down_manual ∷ down_severed ∷ [])) (bodies up) refl
    ∙ latest_miss j d' down_manual (body_values bodies (down_severed ∷ [])) (bodies down_manual)
        refl
    ∙ latest_miss j d' down_severed [] (bodies down_severed) refl
message-save_notify now topic bodies rows down_manual =
    let j = notify_body down_manual in
    let d = get_setting rows j [] in
    let d' = cleaned_or d (bodies down_manual) in
    get-set_settings now (topic_value topic ++ body_values bodies message_kinds) rows j []
    ∙ latest_topic j d (body_values bodies message_kinds) topic refl
    ∙ latest_miss j d up (body_values bodies (down_manual ∷ down_severed ∷ [])) (bodies up) refl
    ∙ latest_hit j d down_manual (body_values bodies (down_severed ∷ [])) (bodies down_manual) refl
    ∙ latest_miss j d' down_severed [] (bodies down_severed) refl
message-save_notify now topic bodies rows down_severed =
    let j = notify_body down_severed in
    let d = get_setting rows j [] in
    let d' = cleaned_or d (bodies down_severed) in
    get-set_settings now (topic_value topic ++ body_values bodies message_kinds) rows j []
    ∙ latest_topic j d (body_values bodies message_kinds) topic refl
    ∙ latest_miss j d up (body_values bodies (down_manual ∷ down_severed ∷ [])) (bodies up) refl
    ∙ latest_miss j d down_manual (body_values bodies (down_severed ∷ [])) (bodies down_manual) refl
    ∙ latest_hit j d down_severed [] (bodies down_severed) refl

shown :
    (kind : Kind) (o : Option Text) (x g : Text)
    → x ≡ cleaned_or g o
    → (if nonempty x then x else default_body kind) ≡ (elim o [
      | none ↦ if nonempty g then g else default_body kind
      | some body ↦ if nonempty (clean_body body) then clean_body body else default_body kind
    ])
shown kind none x g e = ap (λ t. if nonempty t then t else default_body kind) e
shown kind (some body) x g e = ap (λ t. if nonempty t then t else default_body kind) e

-- After `save_notify`, the body of a kind that the caller gave is its cleaned text, or the default
-- where that is empty; the body of any other kind is what it was, whatever the topic.
pub notify_bodies-save_notify :
    (now : ℕ) (topic : Option Text) (bodies : Kind → Option Text) (rows : List Setting)
    (kind : Kind)
    → notify_bodies (save_notify now topic bodies rows) kind ≡ (elim (bodies kind) [
      | none ↦ notify_bodies rows kind
      | some body ↦ if nonempty (clean_body body) then clean_body body else default_body kind
    ])
unfolding notify_bodies
notify_bodies-save_notify now topic bodies rows kind =
    shown kind (bodies kind) _ _ (message-save_notify now topic bodies rows kind)

latest_bodies :
    (d : Text) (bodies : Kind → Option Text)
    → latest (body_values bodies message_kinds) ntfy_topic d ≡ d
unfolding text_eq latest
latest_bodies d bodies =
    latest_miss ntfy_topic d up (body_values bodies (down_manual ∷ down_severed ∷ [])) (bodies up)
      refl
    ∙ latest_miss ntfy_topic d down_manual (body_values bodies (down_severed ∷ []))
        (bodies down_manual) refl
    ∙ latest_miss ntfy_topic d down_severed [] (bodies down_severed) refl

pub notify_topic-save_notify :
    (now : ℕ) (topic : Option Text) (bodies : Kind → Option Text) (rows : List Setting)
    → notify_topic (save_notify now topic bodies rows) ≡ get_or (notify_topic rows) topic
unfolding notify_topic save_notify latest text_eq
notify_topic-save_notify now none bodies rows =
    get-set_settings now (body_values bodies message_kinds) rows ntfy_topic []
    ∙ latest_bodies (get_setting rows ntfy_topic []) bodies
notify_topic-save_notify now (some t) bodies rows =
    get-set_settings now ((ntfy_topic, t) ∷ body_values bodies message_kinds) rows ntfy_topic []
    ∙ latest_bodies t bodies
