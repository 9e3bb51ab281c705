-- ===== src/Router/Route.antt =====
-- src/proxy/router/mod.rs: `match_toml_route`, the rules of one route.

pub mod Dimensions
pub mod Order
use elise_backend.Prelude.{
  ℕ, ◌+◌, ◌^◌, Bool, true, false, not, ◌&&◌, ◌||◌, Option, none, some, List, [], ◌∷◌, ◌++◌, ltb,
  leb, ◌==◌, if◌then◌else◌, starts_with,
}
use elise_backend.Prelude.Text.{codes, bytes_eq}
use elise_backend.Prelude.Strings.{
  any, is_empty, strip_prefix, strip_any, contains_text, ends_with, split_on, split_once,
  eq_ignore_ascii_case, parse_below,
}
use elise_backend.Prelude.Net.{IpAddr, ip_eq}
use elise_backend.Router.Config.{Engines, TomlRouteEntry, MatchContext}

-- What a rule restricts, and its text behind the prefix.
pub data Kind : Type 0 where
  skipped : Kind
  nodes networks ports destination : List ℕ → Kind

-- The chain of prefixes in the first loop.
unfoldable pub kind_of : List ℕ → Kind
unfolding strip_any
kind_of rule =
    if is_empty rule || starts_with rule (codes "#")
    then skipped
    else elim (strip_any (codes "node_id:" ∷ []) rule) [
      | some s ↦ nodes s
      | none ↦ elim (strip_any (codes "network:" ∷ []) rule) [
        | some s ↦ networks s
        | none ↦ elim (strip_any (codes "port:" ∷ codes "port_range:" ∷ []) rule) [
          | some s ↦ ports s
          | none ↦ destination rule
        ]
      ]
    ]

-- The vectors that the first loop fills.
pub record Filters : Type 0 where
  pub node_filters : List ℕ
  pub network_filters : List (List ℕ)
  pub port_filters : List (ℕ × ℕ)
  pub dest_rules : List (List ℕ)

-- The loops over the parts of a rule: what a part parses to is pushed.
unfoldable pub push_parsed {ℓ} :
    {A : Type ℓ} → (List ℕ → Option A) → List A → List (List ℕ) → List A
push_parsed parse values [] = values
push_parsed parse values (part ∷ parts) = elim (parse part) [
  | none ↦ push_parsed parse values parts
  | some v ↦ push_parsed parse (values ++ v ∷ []) parts
]

-- `target_lower == sfx || target_lower.ends_with(".sfx")`
unfoldable pub under_domain : List ℕ → List ℕ → Bool
under_domain target_lower sfx = bytes_eq target_lower sfx || ends_with target_lower (b'.' ∷ sfx)

module _ (e : Engines) where
  abbrev pub node_part : List ℕ → Option ℕ
  node_part part = parse_below (2 ^ 32) (e.trim part)

  -- A part of a `port:` rule: a range, or one port.
  unfoldable pub port_range : List ℕ → Option (ℕ × ℕ)
  port_range p = elim (split_once b'-' p) [
    | some (s, t) ↦ elim (parse_below (2 ^ 16) (e.trim s)) [
      | none ↦ none
      | some start ↦ elim (parse_below (2 ^ 16) (e.trim t)) [
        | none ↦ none
        | some end ↦ some (start, end)
      ]
    ]
    | none ↦ elim (parse_below (2 ^ 16) p) [ none ↦ none | some port ↦ some (port, port) ]
  ]

  unfoldable pub add_kind : Filters → Kind → Filters
  add_kind f skipped = f
  add_kind f (nodes s) = record f {
    node_filters = push_parsed node_part f.node_filters (split_on b',' s);
  }
  add_kind f (networks s) = record f {
    network_filters = f.network_filters ++ e.to_lowercase (e.trim s) ∷ [];
  }
  add_kind f (ports s) = record f {
    port_filters = push_parsed (λ part. port_range (e.trim part)) f.port_filters (split_on b',' s);
  }
  add_kind f (destination rule) = record f { dest_rules = f.dest_rules ++ rule ∷ [] }

  -- The first loop.
  unfoldable pub add_rules : Filters → List (List ℕ) → Filters
  add_rules f [] = f
  add_rules f (rule ∷ rules) = add_rules (add_kind f (kind_of (e.trim rule))) rules

  abbrev pub of_ip : Option IpAddr → (IpAddr → Bool) → Bool
  of_ip none test = false
  of_ip (some tip) test = test tip

  abbrev pub of_regex : Option (List ℕ → Bool) → List ℕ → Bool
  of_regex none target_lower = false
  of_regex (some is_match) target_lower = not (is_empty target_lower) && is_match target_lower

  -- `replace(r"\*", ".*")`
  unfoldable pub replace_star : List ℕ → List ℕ
  replace_star [] = []
  replace_star (c ∷ []) = c ∷ []
  replace_star (c ∷ d ∷ s) =
      let skip = b'.' ∷ b'*' ∷ replace_star s in
      let keep = c ∷ replace_star (d ∷ s) in if c == 92 && d == b'*' then skip else keep

  -- A rule with no known prefix.
  unfoldable pub bare_rule : List ℕ → Option IpAddr → List ℕ → Bool
  bare_rule rule target_ip target_lower = elim (e.parse_net rule) [
    | some contains ↦ of_ip target_ip contains
    | none ↦ elim (e.parse_ip rule) [
      | some exact_ip ↦ of_ip target_ip (λ tip. ip_eq tip exact_ip)
      | none ↦
          if any (◌==◌ b'*') rule
          then of_regex (e.regex (codes "^" ++ (replace_star (e.escape rule) ++ codes "$")))
              target_lower
          else not (is_empty target_lower) && under_domain target_lower (e.to_lowercase rule)
    ]
  ]

  unfoldable pub ip_rule : List ℕ → Option IpAddr → Bool
  ip_rule s target_ip = of_ip target_ip (λ tip. elim (e.parse_net s) [
    | some contains ↦ contains tip
    | none ↦ elim (e.parse_ip s) [ none ↦ false | some exact_ip ↦ ip_eq tip exact_ip ]
  ])

  -- The body of the second loop: whether the rule is one that returns true.
  unfoldable pub dest_matches : Option IpAddr → List ℕ → List ℕ → Bool
  unfolding strip_any
  dest_matches target_ip target_lower rule =
      let named = not (is_empty target_lower) in
      if bytes_eq rule (codes "*") then true else elim (strip_any (codes "geosite:" ∷ []) rule) [
        | some s ↦ named && e.match_geosite (e.to_lowercase (e.trim s)) target_lower
        | none ↦ elim (strip_any (codes "geoip:" ∷ []) rule) [
          | some s ↦ of_ip target_ip (e.match_geoip (e.to_uppercase (e.trim s)))
          | none ↦
              elim (strip_any
                (codes "domain:" ∷ codes "domain_suffix:" ∷ codes "domain-suffix:" ∷ []) rule) [
                  | some s ↦ named && under_domain target_lower (e.to_lowercase (e.trim s))
                  | none ↦ elim (strip_any (codes "full:" ∷ []) rule) [
                    | some s ↦ named && bytes_eq target_lower (e.to_lowercase (e.trim s))
                    | none ↦
                        elim (strip_any
                          (codes "keyword:"
                            ∷ codes "domain_keyword:"
                            ∷ codes "domain-keyword:"
                            ∷ [])
                          rule) [
                            | some s ↦
                                named && contains_text target_lower (e.to_lowercase (e.trim s))
                            | none ↦
                                elim (strip_any (codes "regexp:" ∷ codes "domain_regex:" ∷ [])
                                  rule) [
                                    | some s ↦ of_regex (e.regex (e.trim s)) target_lower
                                    | none ↦
                                        elim (strip_any
                                          (codes "ip:" ∷ codes "cidr:" ∷ codes "ip_cidr:" ∷ [])
                                          rule) [
                                            | some s ↦ ip_rule (e.trim s) target_ip
                                            | none ↦ bare_rule rule target_ip target_lower
                                          ]
                                  ]
                          ]
                  ]
                ]
        ]
      ]

  -- The second loop.
  unfoldable pub any_dest : Option IpAddr → List ℕ → List (List ℕ) → Bool
  any_dest target_ip target_lower [] = false
  any_dest target_ip target_lower (rule ∷ rules) =
      let rest = any_dest target_ip target_lower rules in
      if dest_matches target_ip target_lower rule then true else rest

  -- What the loops are followed by.
  unfoldable pub filters_match : Filters → MatchContext → List ℕ → Bool
  filters_match f ctx target_lower =
      if not (is_empty f.node_filters) && not (any (◌==◌ ctx.node_id) f.node_filters)
      then false
      else if not (is_empty f.network_filters)
          && not (
              any (λ n. bytes_eq n (codes "all") || eq_ignore_ascii_case n ctx.network)
                f.network_filters)
      then false
      else if not (is_empty f.port_filters)
          && not (
              any (λ (r : ℕ × ℕ). leb r.0 ctx.target_port && leb ctx.target_port r.1)
                f.port_filters)
      then false
      else if is_empty f.dest_rules
      then true
      else any_dest ctx.target_ip target_lower f.dest_rules

  unfoldable pub match_toml_route : TomlRouteEntry → MatchContext → List ℕ → Bool
  unfolding add_rules filters_match
  match_toml_route route ctx target_lower =
      filters_match
        (add_rules
          (record { node_filters = []; network_filters = []; port_filters = []; dest_rules = [] })
          route.rules)
        ctx target_lower
