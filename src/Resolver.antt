-- ===== src/Resolver.antt =====
-- Who resolves what (app/services/resolver.py). The wording of the report is left out: a note is one
-- of the remarks, with the domain it is about. Upper and lower case are those of ASCII.
pub mod Labels
mod Tests
use openvpn_connect_web.Prelude.{
  Bool, List, Option, [], any, false, get_or, if◌then◌else◌, map, none, not, reverse, some, suc,
  true, zero, ℕ, ◌&&◌, ◌++◌, ◌==◌, ◌||◌, ◌∷◌,
}
use openvpn_connect_web.Store.DnsRules.{DnsRule}
use openvpn_connect_web.Prelude.Text.{Text, lower, nonempty, starts_with, text, text_eq, truthy}
use openvpn_connect_web.Controller.Events.{answer}

-- ALL, SPLIT, NONE and DOWN
pub data DnsMode : Type 0 where
  takes_all takes_some applies_none no_link : DnsMode

pub record LinkDns : Type 0 where
  pub servers : List Text
  pub routed : List Text
  pub search : List Text
  pub default_route : Bool

pub data Note : Type 0 where
  by_tunnel redundant unclaimed in_use : (domain : Text) → Note
  nothing_in_use no_forwarders no_fallbacks : Note

pub record DnsReport : Type 0 where
  pub mode : DnsMode
  pub action_needed : Bool
  pub link : Option LinkDns
  pub notes : List Note

-- a domain of "searchDomains", and a link as resolvectl's JSON has it; what is no dict is left out
pub record SearchDomain : Type 0 where
  pub name : Option Text
  pub route_only : Bool

pub record RawLink : Type 0 where
  pub addresses : List (Option Text)
  pub search_domains : List SearchDomain
  pub default_route : Bool

-- what becomes of running resolvectl: it cannot be run, or ends with a code and, unless its output
-- is blank or no list with a dict in front, that dict
pub data Resolvectl : Type 0 where
  no_resolvectl : Resolvectl
  answered : (returncode : ℕ) (first : Option RawLink) → Resolvectl

abbrev pub present_texts : List (Option Text) → List Text
present_texts [] = []
present_texts (none ∷ ts) = present_texts ts
present_texts (some t ∷ ts) = if nonempty t then t ∷ present_texts ts else present_texts ts

abbrev pub names_with : Bool → List SearchDomain → List Text
names_with route_only [] = []
names_with route_only (d ∷ ds) =
    if truthy d.name && (if route_only then d.route_only else not d.route_only)
    then get_or [] d.name ∷ names_with route_only ds
    else names_with route_only ds

-- `_link`
unfoldable pub link_of : RawLink → LinkDns
link_of raw = record {
  servers = present_texts raw.addresses;
  routed = names_with true raw.search_domains;
  search = names_with false raw.search_domains;
  default_route = raw.default_route;
}

unfoldable pub read_link : Resolvectl → Option LinkDns
unfolding link_of
read_link no_resolvectl = none
read_link (answered zero none) = none
read_link (answered zero (some raw)) = some (link_of raw)
read_link (answered (suc code) first) = none

-- `"." in self.routed`
abbrev pub is_catch_all : LinkDns → Bool
is_catch_all link = any (text_eq (text ".")) link.routed

abbrev pub without_leading_dots : Text → Text
without_leading_dots [] = []
without_leading_dots (c ∷ s) = if c == 46 then without_leading_dots s else c ∷ s

-- `.lower().rstrip(".")`
unfoldable pub plain : Text → Text
unfolding lower
plain name = reverse (without_leading_dots (reverse (lower name)))

-- `s.endswith(suffix)`
abbrev pub ends_with : Text → Text → Bool
ends_with [] suffix = text_eq [] suffix
ends_with (c ∷ s) suffix = text_eq (c ∷ s) suffix || ends_with s suffix

unfoldable pub is_under : (domain entry : Text) → Bool
unfolding text_eq
is_under domain entry =
    not (nonempty entry) || text_eq domain entry || ends_with domain (46 ∷ entry)

-- `_covered`
unfoldable pub covered : Text → List Text → Bool
unfolding plain is_under
covered domain claimed = any (λ entry. is_under (plain domain) (plain entry)) claimed

-- `link.routed or link.search`
abbrev pub claimed_by : LinkDns → List Text
claimed_by link = if nonempty link.routed then link.routed else link.search

-- `_tunnel_takes_everything`
abbrev pub everything_notes : List Text → List Note
everything_notes domains = if nonempty domains then map by_tunnel domains else nothing_in_use ∷ []

-- `_tunnel_takes_some`
abbrev pub split_notes : List Text → List Text → List Note
split_notes claimed domains =
    map (λ d. if covered d claimed then redundant d else unclaimed d) domains

-- `_no_tunnel_resolver`
abbrev pub local_notes : (domains : List Text) → (has_fallbacks : Bool) → List Note
local_notes domains has_fallbacks =
    map in_use domains
    ++ (if nonempty domains then [] else no_forwarders ∷ [])
    ++ (if has_fallbacks then [] else no_fallbacks ∷ [])

abbrev pub local_report : DnsMode → Bool → Option LinkDns → List Text → Bool → DnsReport
local_report mode action link domains has_fallbacks = record {
  mode = mode;
  action_needed = action;
  link = link;
  notes = local_notes domains has_fallbacks;
}

abbrev pub link_report : LinkDns → List Text → Bool → DnsReport
link_report link domains has_fallbacks =
    if not (nonempty link.servers)
    then local_report applies_none (not (nonempty domains)) (some link) domains has_fallbacks
    else if is_catch_all link
    then record {
      mode = takes_all;
      action_needed = true;
      link = some link;
      notes = everything_notes domains;
    }
    else record {
      mode = takes_some;
      action_needed = false;
      link = some link;
      notes = split_notes (claimed_by link) domains;
    }

abbrev pub report_on : Option LinkDns → List Text → Bool → DnsReport
report_on none domains has_fallbacks = local_report no_link false none domains has_fallbacks
report_on (some link) domains has_fallbacks = link_report link domains has_fallbacks

-- `rule_domains`: the domains of the rules that have one
abbrev pub rule_domains : List DnsRule → List Text
rule_domains rules = present_texts (map (λ (r : DnsRule). r.domain) rules)

unfoldable pub report : Resolvectl → (domain_rules fallback_rules : List DnsRule) → DnsReport
unfolding read_link covered text_eq
report answer domain_rules fallback_rules =
    report_on (read_link answer) (rule_domains domain_rules) (nonempty fallback_rules)
