-- ===== src/Scope/Egress.antt =====
-- A family has a way out of the machine just when a default route of another device is listed.
use openvpn_connect_web.Scope.{
  Entry, Family, Networks, Seen, counted_in, evaluate, judge, leaving_by, look_at, look_through,
  network_of, nothing_seen,
}
use openvpn_connect_web.Prelude.{
  Bool, Bool-cases, List, Option, [], any, false, get_or, if◌then◌else◌, inl, inr, is_some, none,
  not, or-false, or-true, or_assoc, refl, some, sym, true, ◌&&◌, ◌||◌, ◌∙◌, ◌∷◌, ◌≡◌, or_else,
}
use openvpn_connect_web.Prelude.Text.{Text, nonempty, text, text_eq}

some_either : (dev : Text) (o : Option Text) → is_some (or_else o (some dev)) ≡ true
some_either dev none = refl
some_either dev (some x) = refl

-- a default route of another device
unfoldable pub leaves : Text → Entry → Bool
leaves device entry =
    nonempty (get_or [] entry.dst)
    && nonempty (get_or [] entry.dev)
    && not (text_eq (get_or [] entry.dev) device)
    && text_eq (get_or [] entry.dst) (text "default")

module _ {N : Type 0} (net : Networks N) (family : Family) (device : Text) where
  counted_in-egress_device :
      (destination : Text) (o : Option N) (seen : Seen N)
      → (counted_in net family destination o seen).egress_device ≡ seen.egress_device
  counted_in-egress_device destination none seen = refl
  counted_in-egress_device destination (some n) seen =
      elim (Bool-cases (net.is_link_local n || net.is_multicast n)) [
        | inl h ↦ rw h refl
        | inr h ↦ rw h refl
      ]

  leaving_by-egress_device :
      (dev : Text) (seen : Seen N) → is_some (leaving_by net family dev seen).egress_device ≡ true
  leaving_by-egress_device dev seen = some_either dev seen.egress_device

  look_at-egress_device :
      (has_dst has_dev ours leaves : Bool) (destination dev : Text) (o : Option N) (seen : Seen N)
      → is_some
          (if not has_dst || not has_dev
            then seen
            else if ours
            then counted_in net family destination o seen
            else if leaves
            then leaving_by net family dev seen
            else seen).egress_device
        ≡ (is_some seen.egress_device || (has_dst && has_dev && not ours && leaves))
  look_at-egress_device false has_dev ours leaves destination dev o seen =
      sym (or-false (is_some seen.egress_device))
  look_at-egress_device true false ours leaves destination dev o seen =
      sym (or-false (is_some seen.egress_device))
  look_at-egress_device true true true leaves destination dev o seen =
      rw (counted_in-egress_device destination o seen) (sym (or-false (is_some seen.egress_device)))
  look_at-egress_device true true false true destination dev o seen =
      leaving_by-egress_device dev seen ∙ sym (or-true (is_some seen.egress_device))
  look_at-egress_device true true false false destination dev o seen =
      sym (or-false (is_some seen.egress_device))

  look_through-egress_device :
      (entries : List Entry) (seen : Seen N)
      → is_some (look_through net family device entries seen).egress_device
        ≡ (is_some seen.egress_device || any (leaves device) entries)
  unfolding look_through leaves look_at
  look_through-egress_device [] seen = sym (or-false (is_some seen.egress_device))
  look_through-egress_device (entry ∷ entries) seen =
      look_through-egress_device entries (look_at net family device entry seen)
      ∙ rw
          (look_at-egress_device (nonempty (get_or [] entry.dst)) (nonempty (get_or [] entry.dev))
            (text_eq (get_or [] entry.dev) device) (text_eq (get_or [] entry.dst) (text "default"))
            (get_or [] entry.dst) (get_or [] entry.dev)
            (network_of net family (get_or [] entry.dst)) seen)
          (or_assoc (is_some seen.egress_device) (leaves device entry)
            (any (leaves device) entries))

  pub evaluate-egress_device :
      (entries : List Entry)
      → is_some (evaluate net family entries device).egress_device ≡ any (leaves device) entries
  unfolding evaluate judge
  evaluate-egress_device entries = look_through-egress_device entries nothing_seen
