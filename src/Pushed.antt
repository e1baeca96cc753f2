-- ===== src/Pushed.antt =====
-- What the server pushed against what the kernel has (app/services/pushed.py). Upper and lower case
-- are those of ASCII.
pub mod Rejected
use mathlib.Core.Option
use openvpn_connect_web.Routing.{network_of, Ipv4, Prefix, Route, key_leb, same_prefix}
mod Tests
use openvpn_connect_web.Prelude.{
  Bool, List, Option, [], all, any, false, filter, get_or, if◌then◌else◌, length, none, not,
  or_else, reverse, some, sort, suc, take_last, true, zero, ℕ, ◌&&◌, ◌++◌, ◌==◌, ◌||◌, ◌∷◌,
}
use openvpn_connect_web.Prelude.Text.{
  Text, contains, cut, isdigit, lower, lower_char, nonempty, split, strip, text, text_eq, truthy,
  words,
}
use openvpn_connect_web.Prelude.Number.{decimal}
use openvpn_connect_web.Routes.{reply}

pub record PushedRoute : Type 0 where
  pub option : Text
  pub destination : Text
  pub gateway : Option Text
  pub metric : Option ℕ
  pub catch_all : Bool

pub record PushReport : Type 0 where
  pub seen : Bool
  pub pushed : List PushedRoute
  pub rejected : List PushedRoute
  pub notes : List Text

unfoldable pub wholesale : PushReport → Bool
wholesale r = nonempty r.pushed && (length r.rejected == length r.pushed)

abbrev pub nothing_pushed : PushReport
nothing_pushed = record { seen = false; pushed = []; rejected = []; notes = [] }

-- the first line of those that has the word
abbrev pub first_reply : List Text → Option Text
first_reply [] = none
first_reply (line ∷ lines) =
    let rest = first_reply lines in if contains (text "PUSH_REPLY") line then some line else rest

unfoldable pub find_reply : List Text → Option Text
unfolding contains
find_reply lines = first_reply (reverse lines)

-- what follows a prefix in lower case, whatever its case
abbrev pub behind : Text → Text → Option Text
behind [] s = some s
behind (_ ∷ _) [] = none
behind (d ∷ p) (c ∷ s) = if lower_char c == d then behind p s else none

abbrev pub up_to_newline : Text → Text
up_to_newline [] = []
up_to_newline (c ∷ s) = let rest = up_to_newline s in if c == 10 then [] else c ∷ rest

-- the group of `PUSH_REPLY,(.*)`, ignoring case
unfoldable pub options_of : Text → Option Text
unfolding lower_char
options_of [] = none
options_of (c ∷ s) = or_else (behind (text "push_reply,") (c ∷ s)) (options_of s)

abbrev pub is_quote : ℕ → Bool
is_quote c = (c == 39) || (c == 34)

abbrev pub without_leading_quotes : Text → Text
without_leading_quotes [] = []
without_leading_quotes (c ∷ s) = if is_quote c then without_leading_quotes s else c ∷ s

-- `.strip("'\"")`
abbrev pub strip_quotes : Text → Text
strip_quotes s = reverse (without_leading_quotes (reverse (without_leading_quotes s)))

abbrev pub nth_of : ℕ → List Text → Option Text
nth_of n [] = none
nth_of zero (t ∷ ts) = some t
nth_of (suc n) (t ∷ ts) = nth_of n ts

-- `int(t) if t.isdigit()`
abbrev pub metric_of : Option Text → Option ℕ
metric_of none = none
metric_of (some t) = if isdigit t then some (decimal t) else none

abbrev pub unread : Text → PushedRoute
unread option = record {
  option = option;
  destination = option;
  gateway = none;
  metric = none;
  catch_all = false;
}

abbrev pub everything : Prefix
everything = record { address = 0; length = 0 }

abbrev pub halves : List Prefix
halves = record { address = 0; length = 1 } ∷ record { address = 2147483648; length = 1 } ∷ []

-- _TROUBLE
abbrev pub trouble_words : List Text
trouble_words =
    text "route add command failed"
    ∷ text "needs a gateway parameter"
    ∷ text "cannot read current default gateway"
    ∷ text "route-nopull"
    ∷ text "unable to redirect"
    ∷ []

abbrev pub tells_trouble : Text → Bool
tells_trouble line = any (λ needle. contains needle (lower line)) trouble_words

-- the lines of trouble, each once, the newest first
abbrev pub gather_notes : List Text → List Text → List Text
gather_notes notes [] = notes
gather_notes notes (line ∷ lines) =
    gather_notes
      (if tells_trouble line && not (any (text_eq line) notes) then line ∷ notes else notes) lines

unfoldable pub notes_of : List Text → List Text
unfolding contains lower text_eq
notes_of lines = take_last 5 (reverse (gather_notes [] lines))

module _ (ip : Ipv4) where
  -- `PushedRoute.network`
  unfoldable pub pushed_network : PushedRoute → Option Prefix
  pushed_network route = ip.network route.destination

  unfoldable pub cidr : (network netmask : Text) → Option Text
  unfolding contains
  cidr network netmask =
      Option.map ip.shown
        (ip.network (if any (λ c. c == 47) network then network else network ++ 47 ∷ netmask))

  abbrev pub route_to : (option : Text) → Option Text → List Text → PushedRoute
  route_to option none more = unread option
  route_to option (some destination) more = record {
    option = option;
    destination = destination;
    gateway = nth_of 1 more;
    metric = metric_of (nth_of 2 more);
    catch_all = false;
  }

  -- `_route`
  unfoldable pub route_of : (option : Text) → (args : List Text) → PushedRoute
  unfolding cidr isdigit decimal
  route_of option [] = unread option
  route_of option (network ∷ more) =
      route_to option (cidr network (get_or (text "255.255.255.255") (nth_of 0 more))) more

  -- the option's route, where it is one that is read
  unfoldable pub read_option : Text → Option PushedRoute
  unfolding route_of cut lower words text_eq
  read_option option =
      let (verb, rest) = cut 32 option in
      if text_eq (lower verb) (text "route")
      then some (route_of option (words (get_or [] rest)))
      else if text_eq (lower verb) (text "redirect-gateway")
      then some (record (unread option) { destination = text "default"; catch_all = true })
      else none

  abbrev pub trimmed : Text → Text
  trimmed raw = strip (strip_quotes (strip raw))

  -- the loop of `parse`, with the options seen
  unfoldable pub gather : (seen : List Text) → List Text → List PushedRoute
  unfolding read_option strip text_eq
  gather seen [] = []
  gather seen (raw ∷ raws) =
      let skipped = gather seen raws in
      let taken = gather (trimmed raw ∷ seen) raws in
      if not (nonempty (trimmed raw)) || any (text_eq (trimmed raw)) seen
      then skipped
      else elim (read_option (trimmed raw)) [ none ↦ skipped | some route ↦ route ∷ taken ]

  unfoldable pub parse : Option Text → List PushedRoute
  unfolding options_of gather split
  parse none = []
  parse (some reply) = elim (options_of reply) [
    | none ↦ []
    | some options ↦ gather [] (split 44 (up_to_newline options))
  ]

  abbrev pub is_present : Prefix → List Prefix → Bool
  is_present n present = any (same_prefix n) present

  unfoldable pub is_installed : List Prefix → PushedRoute → Bool
  unfolding pushed_network
  is_installed present route =
      if route.catch_all
      then is_present everything present || all (λ half. is_present half present) halves
      else elim (pushed_network route) [ none ↦ false | some n ↦ is_present n present ]

  unfoldable pub pushed_key : PushedRoute → ℕ × ℕ × ℕ
  unfolding pushed_network
  pushed_key route = elim (pushed_network route) [
    | none ↦ (1, 0, 0)
    | some n ↦ (0, n.address, n.length)
  ]

  -- the networks of the installed routes
  abbrev pub networks_of : List Route → List Prefix
  networks_of [] = []
  networks_of (route ∷ routes) = elim (network_of ip route.destination) [
    | none ↦ networks_of routes
    | some n ↦ n ∷ networks_of routes
  ]

  abbrev pub refused_of : List Prefix → List PushedRoute → List PushedRoute
  refused_of present pushed = filter (λ r. not (is_installed present r)) pushed

  abbrev pub compared : (pushed rejected : List PushedRoute) → List Text → PushReport
  compared pushed rejected lines = record {
    seen = true;
    pushed = pushed;
    rejected = sort (λ r s. key_leb (pushed_key r) (pushed_key s)) rejected;
    notes = if nonempty rejected then notes_of lines else [];
  }

  unfoldable pub report : Option Text → List Route → List Text → PushReport
  unfolding parse is_installed pushed_key notes_of
  report reply installed lines =
      let pushed = parse reply in
      if not (truthy reply)
      then nothing_pushed
      else if not (nonempty installed)
      then record (nothing_pushed) { seen = true; pushed = pushed }
      else compared pushed (refused_of (networks_of installed) pushed) lines
