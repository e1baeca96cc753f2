-- ===== src/Connections/Override.antt =====
-- The written profile refuses pushed DNS exactly when it is asked to, and once.
use openvpn_connect_web.Prelude.{
  Bool, Bool-cases, [], ap, append-nil, append_assoc, false, inl, inr, refl, sym, true, ◌&&◌, ◌++◌,
  ◌==◌, ◌||◌, ◌∙◌, ◌∷◌, ◌≡◌, or-true,
}
use openvpn_connect_web.Prelude.Text.{Text, is_space, lower_char, lstrip}
use openvpn_connect_web.Connections.{
  after_newline, at_line_start, has_dns_pull_filter, ignore_or_reject, literal, opening_quote,
  override_header, pull_filter_dns, pull_filter_here, separator, spaces, with_dns_override,
  added_lines,
}

after_newline-append :
    (matches : Text → Bool) (a b : Text)
    → matches b ≡ true
    → after_newline matches (a ++ 10 ∷ b) ≡ true
unfolding after_newline
after_newline-append matches [] b h = rw h refl
after_newline-append matches (c ∷ a) b h =
    rw (after_newline-append matches a b h) (or-true ((c == 10) && matches (a ++ 10 ∷ b)))

override_filters : pull_filter_here (pull_filter_dns ++ 10 ∷ []) ≡ true
unfolding pull_filter_here literal spaces opening_quote ignore_or_reject lstrip lower_char is_space
override_filters = refl

at_line_start-append :
    (matches : Text → Bool) (a b : Text)
    → matches b ≡ true
    → at_line_start matches (a ++ 10 ∷ b) ≡ true
unfolding at_line_start
at_line_start-append matches a b h =
    ap (λ t. matches (a ++ 10 ∷ b) || t) (after_newline-append matches a b h)
    ∙ or-true (matches (a ++ 10 ∷ b))

added_filters : (profile : Text) → has_dns_pull_filter (profile ++ added_lines profile) ≡ true
unfolding has_dns_pull_filter
added_filters profile =
    let front = separator profile ++ override_header in
    ap (at_line_start pull_filter_here)
      (sym (append_assoc profile front (10 ∷ (pull_filter_dns ++ (10 ∷ [])))))
    ∙ at_line_start-append pull_filter_here (profile ++ front) (pull_filter_dns ++ (10 ∷ []))
        override_filters

twice :
    (profile : Text) → has_dns_pull_filter profile ≡ true → with_dns_override profile true ≡ profile
unfolding with_dns_override
twice profile h = rw h refl

added :
    (profile : Text)
    → has_dns_pull_filter profile ≡ false
    → with_dns_override profile true ≡ profile ++ added_lines profile
unfolding with_dns_override
added profile h = rw h refl

unasked : (profile : Text) → with_dns_override profile false ≡ profile
unfolding with_dns_override
unasked profile = refl

-- With "ignore pushed DNS" on, the written profile has a filter for pushed DNS, of its own or
-- added, begins with the profile, and writing it again adds nothing; with it off, the written
-- profile is the stored one.
pub has_dns_pull_filter-with_dns_override :
    (profile : Text)
    → (has_dns_pull_filter (with_dns_override profile true) ≡ true)
      × ((rest : Text) × (with_dns_override profile true ≡ profile ++ rest))
      × (with_dns_override (with_dns_override profile true) true ≡ with_dns_override profile true)
      × (with_dns_override profile false ≡ profile)
has_dns_pull_filter-with_dns_override profile = elim (Bool-cases (has_dns_pull_filter profile)) [
  | inl has ↦
      let e = twice profile has in
      (
        ap has_dns_pull_filter e ∙ has,
        ([], e ∙ sym (append-nil profile)),
        twice _ (ap has_dns_pull_filter e ∙ has),
        unasked profile,
      )
  | inr lacks ↦
      let e = added profile lacks in
      let has = ap has_dns_pull_filter e ∙ added_filters profile in
      (has, (added_lines profile, e), twice _ has, unasked profile)
]
