-- ===== src/Router/Examples.antt =====
-- src/proxy/router/mod.rs on a concrete configuration, and the theorems about it there.
use mathlib.Core.List.Perm
use elise_backend.Prelude.{ℕ, ◌≡◌, refl, false, ◌&&◌, none, some, List, [], ◌∷◌, map, ◌==◌}
use elise_backend.Prelude.Text.{codes, bytes_eq}
use elise_backend.Prelude.Strings.{
  ascii_lower, strip_any, split_on, split_once, ends_with, eq_ignore_ascii_case, parse_below,
}
use elise_backend.Router.Config.{
  Engines, OutboundConfig, outbound_of, normalized_type, TomlRouteEntry, RuleConfig, RoutesConfig,
  MatchContext,
}
use elise_backend.Router.Route.{
  kind_of, under_domain, dest_matches, port_range, match_toml_route, push_parsed, add_kind,
  any_dest,
}
use elise_backend.Router.Route.Dimensions.{
  fits, ids_in, networks_in, ports_in, destinations_in, kinds_of, network_fits, port_fits,
  match_toml_route-dimensions,
}
use elise_backend.Router.Route.Order.{match_toml_route-perm}
use elise_backend.Router.Rules.{
  match_outbound, find_tag, choose, rule_fits, network_differs, ip_differs, port_listed,
}
use elise_backend.Router.Rules.Selection.{Selected, match_outbound-Selected}

-- Texts that are ASCII, with no space around them; no networks, no regular expressions, no geo data.
abbrev plain : Engines
plain = record {
  to_lowercase = map ascii_lower;
  to_uppercase = λ s. s;
  trim = λ s. s;
  parse_net = λ s. none;
  parse_ip = λ s. none;
  regex = λ s. none;
  escape = λ s. s;
  match_geosite = λ tag host. false;
  match_geoip = λ code ip. false;
}

abbrev proxy : OutboundConfig
proxy = outbound_of (codes "proxy") (codes "socks5")

abbrev node_rule : List ℕ
node_rule = codes "node_id:1,2"

abbrev domain_rule : List ℕ
domain_rule = codes "domain:Example.com"

abbrev route : TomlRouteEntry
route = record {
  rules = node_rule ∷ codes "network:tcp" ∷ codes "port:80,400-500" ∷ domain_rule ∷ [];
  outs = proxy ∷ [];
}

abbrev reject_mail : RuleConfig
reject_mail = record {
  node_id = [];
  network = some (codes "TCP");
  domain = [];
  domain_suffix = [];
  domain_keyword = [];
  ip = [];
  port = codes "25" ∷ [];
  outbound = codes "block";
}

abbrev config : RoutesConfig
config = record {
  default_outbound = codes "direct";
  outbounds = outbound_of (codes "block") (codes "block") ∷ [];
  rules = reject_mail ∷ [];
  toml_routes = route ∷ [];
}

abbrev to_site : ℕ → MatchContext
to_site port = record {
  node_id = 2;
  network = codes "tcp";
  target_host = codes "www.example.com";
  target_ip = none;
  target_port = port;
  inbound_local_ip = none;
}

routed : match_outbound plain 5 config (to_site 443) ≡ proxy
unfolding match_outbound match_toml_route kind_of push_parsed add_kind dest_matches port_range
    strip_any split_on split_once under_domain ends_with bytes_eq eq_ignore_ascii_case parse_below
    choose any_dest
routed = refl

refused_mail :
    match_outbound plain 5 config (to_site 25) ≡ outbound_of (codes "block") (codes "block")
unfolding match_outbound match_toml_route kind_of push_parsed add_kind dest_matches port_range
    strip_any split_on split_once under_domain ends_with bytes_eq eq_ignore_ascii_case parse_below
    choose any_dest rule_fits network_differs ip_differs port_listed find_tag
refused_mail = refl

default_type : normalized_type plain proxy ≡ codes "socks"
unfolding normalized_type bytes_eq
default_type = refl

match_outbound-Selected_example :
    Selected plain 5 config (to_site 443) (match_outbound plain 5 config (to_site 443))
match_outbound-Selected_example = match_outbound-Selected plain 5 config (to_site 443)

match_toml_route-dimensions_example :
    match_toml_route plain route (to_site 443) (codes "www.example.com") ≡ (
      fits (ids_in plain) (◌==◌ 2) (kinds_of plain route.rules)
      && (fits (networks_in plain) (network_fits (codes "tcp")) (kinds_of plain route.rules)
          && (fits (ports_in plain) (port_fits 443) (kinds_of plain route.rules)
              && fits destinations_in
                  (dest_matches plain none (codes "www.example.com"))
                  (kinds_of plain route.rules))))
match_toml_route-dimensions_example =
    match_toml_route-dimensions plain route (to_site 443) (codes "www.example.com")

match_toml_route-perm_example :
    match_toml_route plain
      (record { rules = node_rule ∷ domain_rule ∷ []; outs = proxy ∷ [] })
      (to_site 443)
      (codes "www.example.com")
    ≡ match_toml_route plain
        (record { rules = domain_rule ∷ node_rule ∷ []; outs = proxy ∷ [] })
        (to_site 443)
        (codes "www.example.com")
match_toml_route-perm_example =
    match_toml_route-perm plain (proxy ∷ []) (node_rule ∷ domain_rule ∷ [])
      (domain_rule ∷ node_rule ∷ []) (to_site 443) (codes "www.example.com")
      (Perm.swap domain_rule node_rule [])
