-- ===== src/Resolver/Tests.antt =====
-- Tests of the resolver report on a split link.
use openvpn_connect_web.Resolver.{
  report, RawLink, answered, covered, no_fallbacks, no_forwarders, plain, redundant, unclaimed,
}
use openvpn_connect_web.Store.DnsRules.{DnsRule, domain_rule}
use openvpn_connect_web.Prelude.{List, [], any, false, none, refl, some, true, ◌∷◌, ◌≡◌}
use openvpn_connect_web.Prelude.Text.{Text, text}
use openvpn_connect_web.Resolver.Labels.{covered-is_end_of, is_end_of, labels}

abbrev rule : Text → DnsRule
rule domain = record {
  id = 1;
  kind = domain_rule;
  domain = some domain;
  address = text "10.0.0.1";
  position = none;
  updated_at = 1;
}

abbrev raw : RawLink
raw = record {
  addresses = some (text "10.100.53.2") ∷ none ∷ [];
  search_domains =
      record { name = some (text "Corp.example."); route_only = true }
      ∷ record { name = some (text "lab.example"); route_only = false }
      ∷ [];
  default_route = false;
}

abbrev rules : List DnsRule
rules =
    rule (text "git.corp.example") ∷ rule (text "notcorp.example") ∷ rule (text "lab.example") ∷ []

-- the search domain of a link that has routed domains too counts for nothing
split_link :
    (report (answered 0 (some raw)) rules []).notes
    ≡ redundant (text "git.corp.example")
      ∷ unclaimed (text "notcorp.example")
      ∷ unclaimed (text "lab.example")
      ∷ []
unfolding report
split_link = refl

down_link : (report (answered 1 none) [] []).notes ≡ no_forwarders ∷ no_fallbacks ∷ []
unfolding report
down_link = refl

covered-is_end_of_example :
    covered (text "git.corp.example") (text "Corp.example." ∷ [])
    ≡ any
        (λ entry. is_end_of (labels (plain entry)) (labels (plain (text "git.corp.example"))))
        (text "Corp.example." ∷ [])
covered-is_end_of_example = covered-is_end_of (text "git.corp.example") (text "Corp.example." ∷ [])
