-- ===== src/Router/Rules.antt =====
-- src/proxy/router/mod.rs: the conditions of a rule, and `match_outbound`.
pub mod Selection
use elise_backend.Prelude.{
  ℕ, ◌%◌, ◌^◌, Bool, true, false, not, ◌&&◌, ◌||◌, Option, none, some, List, [], ◌∷◌, leb, ◌==◌,
  if◌then◌else◌, length, get_elem?,
}
use elise_backend.Prelude.Text.{codes, bytes_eq}
use elise_backend.Prelude.Strings.{
  any, is_empty, contains_text, split_once, eq_ignore_ascii_case, parse_below,
}
use elise_backend.Prelude.Net.{IpAddr}
use elise_backend.Router.Config.{
  Engines, OutboundConfig, outbound_of, TomlRouteEntry, RuleConfig, RoutesConfig, MatchContext,
}
use elise_backend.Router.Route.{under_domain, match_toml_route}

-- `iter().find(|o| o.tag == tag)`
unfoldable pub find_tag : List ℕ → List OutboundConfig → Option OutboundConfig
find_tag tag [] = none
find_tag tag (o ∷ os) = if bytes_eq o.tag tag then some o else find_tag tag os

-- `outs.choose(&mut rng)`, where `draw` is the random number.
unfoldable pub choose : ℕ → List OutboundConfig → Option OutboundConfig
choose draw outs = if is_empty outs then none else get_elem? outs (draw % length outs)

unfoldable pub network_differs : Option (List ℕ) → List ℕ → Bool
network_differs none network = false
network_differs (some net) network =
    not (bytes_eq net (codes "all")) && not (eq_ignore_ascii_case net network)

module _ (e : Engines) where
  -- Whether an entry of `port` has the port in it.
  unfoldable pub port_listed : ℕ → List ℕ → Bool
  port_listed port p = elim (split_once b'-' p) [
    | some (s, t) ↦ elim (parse_below (2 ^ 16) (e.trim s)) [
      | none ↦ false
      | some start ↦ elim (parse_below (2 ^ 16) (e.trim t)) [
        | none ↦ false
        | some end ↦ leb start port && leb port end
      ]
    ]
    | none ↦ elim (parse_below (2 ^ 16) p) [ none ↦ false | some q ↦ port == q ]
  ]

  unfoldable pub ip_differs : List (List ℕ) → Option IpAddr → Bool
  ip_differs [] target_ip = false
  ip_differs (c ∷ cs) none = true
  ip_differs (c ∷ cs) (some tip) = not (
      any (λ cidr. elim (e.parse_net cidr) [ none ↦ false | some contains ↦ contains tip ])
        (c ∷ cs))

  -- The tests of a rule that lead to `continue`, in their order.
  unfoldable pub rule_fits : RuleConfig → MatchContext → List ℕ → Bool
  rule_fits rule ctx target_lower =
      if not (is_empty rule.node_id) && not (any (◌==◌ ctx.node_id) rule.node_id)
      then false
      else if network_differs rule.network ctx.network
      then false
      else if not (is_empty rule.port) && not (any (port_listed ctx.target_port) rule.port)
      then false
      else if not (is_empty rule.domain)
          && not (any (λ d. eq_ignore_ascii_case d target_lower) rule.domain)
      then false
      else if not (is_empty rule.domain_suffix)
          && not (any (λ sfx. under_domain target_lower (e.to_lowercase sfx)) rule.domain_suffix)
      then false
      else if not (is_empty rule.domain_keyword)
          && not (any (λ kw. contains_text target_lower (e.to_lowercase kw)) rule.domain_keyword)
      then false
      else if ip_differs rule.ip ctx.target_ip
      then false
      else true

  -- The loop over `toml_routes`.
  unfoldable pub first_route :
      ℕ → List TomlRouteEntry → MatchContext → List ℕ → Option OutboundConfig
  first_route draw [] ctx target_lower = none
  first_route draw (route ∷ routes) ctx target_lower =
      let rest = first_route draw routes ctx target_lower in
      if match_toml_route e route ctx target_lower && not (is_empty route.outs)
      then elim (choose draw route.outs) [ none ↦ rest | some selected ↦ some selected ]
      else rest

  -- The loop over `rules`.
  unfoldable pub first_rule :
      List OutboundConfig → List RuleConfig → MatchContext → List ℕ → Option OutboundConfig
  first_rule outbounds [] ctx target_lower = none
  first_rule outbounds (rule ∷ rules) ctx target_lower =
      let rest = first_rule outbounds rules ctx target_lower in
      if rule_fits rule ctx target_lower
      then elim (find_tag rule.outbound outbounds) [ none ↦ rest | some ob ↦ some ob ]
      else rest

  -- `draw` is the random number of `choose`.
  unfoldable pub match_outbound : ℕ → RoutesConfig → MatchContext → OutboundConfig
  unfolding first_route first_rule
  match_outbound draw cfg ctx =
      let target_lower = e.to_lowercase ctx.target_host in
      elim (first_route draw cfg.toml_routes ctx target_lower) [
        | some selected ↦ selected
        | none ↦ elim (first_rule cfg.outbounds cfg.rules ctx target_lower) [
          | some ob ↦ ob
          | none ↦ elim (find_tag cfg.default_outbound cfg.outbounds) [
            | some ob ↦ ob
            | none ↦ outbound_of (codes "direct") (codes "direct")
          ]
        ]
      ]
