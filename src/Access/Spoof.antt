-- ===== src/Access/Spoof.antt =====
-- Nothing that a client puts into X-Forwarded-For itself changes the address its login attempts are
-- counted against, and no entry of an allowlist is lost.
use mathlib.Core.List.{reverse-append, reverse-cons, map-append}
use openvpn_connect_web.Access.{
  prepend, parse_entries, client_address, Addresses, hops_of, is_allowed, max_forwarded_hops,
  networks, parse, parse_networks, walk, Parsed, malformed,
}
use openvpn_connect_web.Prelude.{
  All, All-reverse, Bool, List, Option, [], ap, append_assoc, false, if◌then◌else◌, length, map,
  not, refl, reverse, some, true, ◌++◌, ◌<◌, ◌||◌, ◌∙◌, ◌∷◌, ◌≡◌, Bool-cases, Option-cases, arith,
  inl, inr, take_last, take_last-append_short, ◌-◌, sym,
}
use openvpn_connect_web.Prelude.Text.{Text, nonempty, split, split-append, strip}

abbrev pub nonblank : List Text → List Text
nonblank [] = []
nonblank (token ∷ rest) =
    if nonempty (strip token) then strip token ∷ nonblank rest else nonblank rest

module _ {Address Network : Type 0} (ip : Addresses Address Network) where
  -- a hop that the walk passes over: blank, or a proxy of our own
  unfoldable pub is_own : List Network → Text → Bool
  is_own proxies hop = not (nonempty hop) || is_allowed ip (some hop) proxies

  module _ (remote_addr : Option Text) (proxies : List Network) where
    walk_own :
        (own further : List Text)
        → All (λ hop. is_own proxies hop ≡ true) own
        → walk ip remote_addr proxies (own ++ further) ≡ walk ip remote_addr proxies further
    unfolding walk is_own
    walk_own [] further h = refl
    walk_own (hop ∷ own) further h = rw (h.0) (walk_own own further h.1)

    walk_client :
        (client : Text) (a : Address) (further : List Text)
        → is_own proxies client ≡ false
        → parse ip (some client) ≡ some a
        → walk ip remote_addr proxies (client ∷ further) ≡ ip.show a
    unfolding walk is_own
    walk_client client a further h e = rw (h, e) refl

    walk_chain :
        (client : Text) (a : Address) (own further : List Text)
        → is_own proxies client ≡ false
        → parse ip (some client) ≡ some a
        → All (λ hop. is_own proxies hop ≡ true) own
        → walk ip remote_addr proxies (reverse (further ++ client ∷ own)) ≡ ip.show a
    walk_chain client a own further h e owned =
        rw
          (
            reverse-append further (client ∷ own),
            reverse-cons client own,
            append_assoc (reverse own) (client ∷ []) (reverse further),
          )
          (walk_own (reverse own) _ (All-reverse _ own owned) ∙ walk_client client a _ h e)

  hops_of-append :
      (forged chain : Text)
      → hops_of ip (some (forged ++ 44 ∷ chain))
        ≡ hops_of ip (some forged) ++ hops_of ip (some chain)
  unfolding hops_of
  hops_of-append forged chain = ap (map strip) (split-append 44 forged chain) ∙ map-append strip _ _

  allowed_by_none : (remote_addr : Option Text) → is_allowed ip remote_addr [] ≡ false
  unfolding is_allowed
  allowed_by_none remote_addr = elim (Option-cases (parse ip remote_addr)) [
    | inl e ↦ rw (e, is_allowed) refl
    | inr (a, e) ↦ rw (e, is_allowed) refl
  ]

  allowed_by_some :
      (remote_addr : Option Text) (proxies : List Network)
      → is_allowed ip remote_addr proxies ≡ true
      → nonempty proxies ≡ true
  allowed_by_some remote_addr [] h = cc (h, allowed_by_none remote_addr)
  allowed_by_some remote_addr (n ∷ ns) h = refl

  nearest :
      (client : Text) (own forged_hops : List Text)
      → length own < max_forwarded_hops
      → take_last max_forwarded_hops (forged_hops ++ client ∷ own)
        ≡ take_last (max_forwarded_hops - length (client ∷ own)) forged_hops ++ client ∷ own
  nearest client own forged_hops few =
      take_last-append_short max_forwarded_hops forged_hops (client ∷ own) (omega arith)

  -- A request from one of our own proxies, whose header ends in an address `client` that is no
  -- proxy of ours, followed by fewer than twenty hops that are (or are blank), is counted against
  -- that address: whatever text stands before it in the header, entries and commas included.
  pub client_address-forged :
      (proxies : List Network) (remote_addr : Option Text) (forged chain client : Text)
      (own : List Text) (a : Address)
      → is_allowed ip remote_addr proxies ≡ true
      → hops_of ip (some chain) ≡ client ∷ own
      → length own < max_forwarded_hops
      → is_own proxies client ≡ false
      → parse ip (some client) ≡ some a
      → All (λ hop. is_own proxies hop ≡ true) own
      → client_address ip remote_addr (some (forged ++ 44 ∷ chain)) proxies ≡ ip.show a
  unfolding client_address
  client_address-forged proxies remote_addr forged chain client own a peer hops few h e owned =
      let seen = hops_of-append forged chain ∙ ap (◌++◌ (hops_of ip (some forged))) hops in
      rw
        (
          allowed_by_some remote_addr proxies peer,
          peer,
          seen,
          nearest client own (hops_of ip (some forged)) few,
        )
        (walk_chain remote_addr proxies client a own
          (take_last (max_forwarded_hops - length (client ∷ own)) (hops_of ip (some forged))) h e
          owned)

  prepended :
      (n : Network) (p : Parsed Network) (ns : List Network)
      → prepend n p ≡ networks ns
      → (ms : List Network) × ((p ≡ networks ms) × (n ∷ ms ≡ ns))
  prepended n (networks ms) ns e = (ms, (refl, cc e))
  prepended n (malformed entry) ns e = cc e

  abbrev of_networks : List Network → Parsed Network → List Network
  of_networks d (networks ns) = ns
  of_networks d (malformed entry) = d

  parse_entries_complete :
      (tokens : List Text) (ns : List Network)
      → parse_entries ip tokens ≡ networks ns
      → map some ns ≡ map ip.ip_network (nonblank tokens)
  unfolding parse_entries
  parse_entries_complete [] ns e = ap (λ p. map some (of_networks [] p)) (sym e)
  parse_entries_complete (token ∷ rest) ns e = elim (Bool-cases (nonempty (strip token))) [
    | inr blank ↦ rw blank (parse_entries_complete rest ns (rw blank at e))
    | inl entry ↦ elim (Option-cases (ip.ip_network (strip token))) [
      | inl bad ↦ cc (rw (entry, bad) at e)
      | inr (n, good) ↦
          let (ms, (later, whole)) =
            prepended n (parse_entries ip rest) ns (rw (entry, good) at e) in
          rw (entry, good, ← whole) (ap (◌∷◌ (some n)) (parse_entries_complete rest ms later))
    ]
  ]

  -- When `parse_networks` accepts a text, its networks are those of all the text's entries that are
  -- not blank, in order: a malformed entry is never left out.
  pub parse_networks_complete :
      (raw : Text) (ns : List Network)
      → parse_networks ip (some raw) ≡ networks ns
      → nonempty (strip raw) ≡ true
      → map some ns ≡ map ip.ip_network (nonblank (split 44 raw))
  unfolding parse_networks
  parse_networks_complete raw ns e h = parse_entries_complete (split 44 raw) ns (rw h at e)
