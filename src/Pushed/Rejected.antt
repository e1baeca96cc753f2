-- ===== src/Pushed/Rejected.antt =====
-- The report against the push and the routing table.
use openvpn_connect_web.Pushed.{
  parse, PushedRoute, compared, is_installed, networks_of, pushed_key, refused_of, report,
  wholesale, read_option, cidr, gather, nth_of, route_of, route_to, trimmed, options_of,
  up_to_newline,
}
use openvpn_connect_web.Prelude.{
  Bool, Bool-cases, List, Option, [], all, ap, arith, count, count-filter_by, count-sort, false,
  if◌then◌else◌, inl, inr, length, length-filter-all, length-sort, not, refl, ◌&&◌, ◌==◌, ◌∙◌, ◌∷◌,
  ◌≡◌, some, Option-cases, any, get_or, none, sym, true, ◌||◌, ◌≤◌, ℕ, ◌+◌,
}
use openvpn_connect_web.Routing.{Ipv4, Prefix, Route, key_leb}
use openvpn_connect_web.Prelude.Text.{
  Text, nonempty, truthy, cut, text, text_eq, words, text_eq_sound, split,
}

-- what was pushed and is not in the table
abbrev pub is_missing : Ipv4 → List Route → PushedRoute → Bool
is_missing ip installed route = not (is_installed ip (networks_of ip installed) route)

all_missing :
    (ip : Ipv4) (present : List Prefix) (pushed : List PushedRoute) (lines : List Text)
    → wholesale (compared ip pushed (refused_of ip present pushed) lines)
      ≡ (nonempty pushed && all (λ r. not (is_installed ip present r)) pushed)
unfolding wholesale
all_missing ip present pushed lines =
    rw
      (length-sort (λ r s. key_leb (pushed_key ip r) (pushed_key ip s))
        (refused_of ip present pushed))
      (ap (λ b. nonempty pushed && b)
        (length-filter-all (λ r. not (is_installed ip present r)) pushed))

route_to-option :
    (ip : Ipv4) (t : Text) (o : Option Text) (more : List Text) → (route_to ip t o more).option ≡ t
route_to-option ip t none more = refl
route_to-option ip t (some destination) more = refl

route_of-option : (ip : Ipv4) (t : Text) (args : List Text) → (route_of ip t args).option ≡ t
unfolding route_of
route_of-option ip t [] = refl
route_of-option ip t (network ∷ more) =
    route_to-option ip t (cidr ip network (get_or (text "255.255.255.255") (nth_of 0 more))) more

by_verb :
    (a b : Bool) (t : Text) (x y route : PushedRoute)
    → x.option ≡ t
    → y.option ≡ t
    → (if a then some x else if b then some y else none) ≡ some route
    → route.option ≡ t
by_verb true b t x y route hx hy e =
    let same : x ≡ route = cc e in ap (λ (r : PushedRoute). r.option) (sym same) ∙ hx
by_verb false true t x y route hx hy e =
    let same : y ≡ route = cc e in ap (λ (r : PushedRoute). r.option) (sym same) ∙ hy
by_verb false false t x y route hx hy e = cc e

read_option-option :
    (ip : Ipv4) (t : Text) (route : PushedRoute) → read_option ip t ≡ some route → route.option ≡ t
unfolding read_option
read_option-option ip t route e =
    by_verb _ _ t (route_of ip t (words (get_or [] (cut 32 t).1))) _ route
      (route_of-option ip t (words (get_or [] (cut 32 t).1))) refl e

neither : (a b : Bool) → (a || b) ≡ false → b ≡ false
neither true b h = cc h
neither false b h = h

once_more :
    (o t : Text) (seen : List Text) (rest : ℕ)
    → any (text_eq t) seen ≡ false
    → rest ≤ (if text_eq o t || any (text_eq o) seen then 0 else 1)
    → (if text_eq o t then 1 else 0) + rest ≤ (if any (text_eq o) seen then 0 else 1)
once_more o t seen rest new h = elim (Bool-cases (text_eq o t)) [
  | inl same ↦
      let equal : o ≡ t = text_eq_sound o t same in
      let unseen : any (text_eq o) seen ≡ false = rw equal new in ground (arith, same, unseen, h)
  | inr other ↦ ground (arith, other, h)
]

-- no option of the reply makes two routes
gather-IsOnce :
    (ip : Ipv4) (o : Text) (seen raws : List Text)
    → count (λ (r : PushedRoute). text_eq o r.option) (gather ip seen raws)
      ≤ (if any (text_eq o) seen then 0 else 1)
unfolding gather
gather-IsOnce ip o seen [] = ground arith
gather-IsOnce ip o seen (raw ∷ raws) =
    let skipped = gather-IsOnce ip o seen raws in
    elim (Bool-cases (not (nonempty (trimmed ip raw)) || any (text_eq (trimmed ip raw)) seen)) [
      | inl again ↦ rw again skipped
      | inr first ↦ elim (Option-cases (read_option ip (trimmed ip raw))) [
        | inl other ↦ rw (first, other) skipped
        | inr (route, e) ↦
            rw (first, e)
              (rw (read_option-option ip (trimmed ip raw) route e) (
                once_more o (trimmed ip raw) seen _ (neither _ _ first)
                  (gather-IsOnce ip o (trimmed ip raw ∷ seen) raws)))
      ]
    ]

parse-IsOnce :
    (ip : Ipv4) (o : Text) (reply : Option Text)
    → count (λ (r : PushedRoute). text_eq o r.option) (parse ip reply) ≤ 1
unfolding parse
parse-IsOnce ip o none = omega arith
parse-IsOnce ip o (some reply) = elim (Option-cases (options_of reply)) [
  | inl nothing ↦ rw (nothing, parse, count) (omega arith)
  | inr (options, e) ↦ rw (e, parse) (gather-IsOnce ip o [] (split 44 (up_to_newline options)))
]

none_longer : (pushed : List PushedRoute) → (nonempty pushed && (0 == length pushed)) ≡ false
none_longer [] = refl
none_longer (r ∷ pushed) = ground arith

-- The rejected routes are the pushed ones that the table has not, each as often as it was pushed; and
-- none where no reply was seen, or no route is installed at all. The report calls the rejection
-- wholesale just when something was pushed and nothing of it is in the table; and no option of the
-- reply counts twice.
pub report-rejected :
    (ip : Ipv4) (reply : Option Text) (installed : List Route) (lines : List Text)
    (p : PushedRoute → Bool) (o : Text)
    → (count p (report ip reply installed lines).rejected ≡ (
        if truthy reply && nonempty installed
        then count (λ route. p route && is_missing ip installed route) (parse ip reply)
        else 0))
      × (wholesale (report ip reply installed lines) ≡ (
          (truthy reply && nonempty installed)
          && (nonempty (parse ip reply) && all (is_missing ip installed) (parse ip reply))))
      × (count (λ (r : PushedRoute). text_eq o r.option) (parse ip reply) ≤ 1)
unfolding report wholesale
report-rejected ip reply installed lines p o =
    let pushed = parse ip reply in
    let present = networks_of ip installed in
    elim (Bool-cases (truthy reply)) [
      | inr unseen ↦ rw unseen (refl, refl, parse-IsOnce ip o reply)
      | inl seen ↦ elim (Bool-cases (nonempty installed)) [
        | inr down ↦ rw (seen, down) (refl, none_longer pushed, parse-IsOnce ip o reply)
        | inl listed ↦
            rw (seen, listed)
              (
                count-sort (λ r s. key_leb (pushed_key ip r) (pushed_key ip s)) p
                      (refused_of ip present pushed)
                    ∙ count-filter_by (λ r. not (is_installed ip present r)) p pushed,
                all_missing ip present pushed lines,
                parse-IsOnce ip o reply,
              )
      ]
    ]
