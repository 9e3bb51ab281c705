-- ===== src/Router/Config.antt =====
-- src/config/routes.rs: the routes of the configuration, and `MatchContext` of
-- src/proxy/router/mod.rs. A text is its bytes.
use elise_backend.Prelude.{ℕ, Bool, Option, none, some, List, if◌then◌else◌}
use elise_backend.Prelude.Text.{codes, bytes_eq}
use elise_backend.Prelude.Net.{IpAddr}

-- What the router calls: the tables of Unicode, `IpNet`, `Regex` and the geo data.
pub record Engines : Type 0 where
  pub to_lowercase : List ℕ → List ℕ
  pub to_uppercase : List ℕ → List ℕ
  pub trim : List ℕ → List ℕ
  pub parse_net : List ℕ → Option (IpAddr → Bool)
  pub parse_ip : List ℕ → Option IpAddr
  pub regex : List ℕ → Option (List ℕ → Bool)
  pub escape : List ℕ → List ℕ
  pub match_geosite : List ℕ → List ℕ → Bool
  pub match_geoip : List ℕ → IpAddr → Bool

pub record OutboundConfig : Type 0 where
  pub tag : List ℕ
  pub outbound_type : List ℕ
  pub server : Option (List ℕ)
  pub address : Option (List ℕ)
  pub port : Option ℕ
  pub username : Option (List ℕ)
  pub password : Option (List ℕ)
  pub uuid : Option (List ℕ)
  pub alter_id : Option ℕ
  pub cipher : Option (List ℕ)
  pub network : Option (List ℕ)
  pub flow : Option (List ℕ)
  pub security : Option (List ℕ)
  pub tls : Option Bool
  pub sni : Option (List ℕ)
  pub ws_path : Option (List ℕ)
  pub h2_path : Option (List ℕ)
  pub h2_host : Option (List ℕ)
  pub grpc_service_name : Option (List ℕ)
  pub reality_public_key : Option (List ℕ)
  pub reality_short_id : Option (List ℕ)
  pub listen : Option (List ℕ)

-- An outbound with a tag and a type, and the defaults for the rest.
abbrev pub outbound_of : List ℕ → List ℕ → OutboundConfig
outbound_of tag outbound_type = record {
  tag = tag;
  outbound_type = outbound_type;
  server = none;
  address = none;
  port = none;
  username = none;
  password = none;
  uuid = none;
  alter_id = none;
  cipher = none;
  network = none;
  flow = none;
  security = none;
  tls = none;
  sni = none;
  ws_path = none;
  h2_path = none;
  h2_host = none;
  grpc_service_name = none;
  reality_public_key = none;
  reality_short_id = none;
  listen = none;
}

unfoldable pub normalized_type : Engines → OutboundConfig → List ℕ
normalized_type e o =
    let t = e.to_lowercase (e.trim o.outbound_type) in
    if bytes_eq t (codes "freedom")
    then codes "direct"
    else if bytes_eq t (codes "reject")
    then codes "block"
    else if bytes_eq t (codes "socks5")
    then codes "socks"
    else if bytes_eq t (codes "shadowsocks")
    then codes "ss"
    else t

abbrev pub target_host : OutboundConfig → Option (List ℕ)
target_host o = elim o.server [ none ↦ o.address | some s ↦ some s ]

pub record TomlRouteEntry : Type 0 where
  pub rules : List (List ℕ)
  pub outs : List OutboundConfig

pub record RuleConfig : Type 0 where
  pub node_id : List ℕ
  pub network : Option (List ℕ)
  pub domain : List (List ℕ)
  pub domain_suffix : List (List ℕ)
  pub domain_keyword : List (List ℕ)
  pub ip : List (List ℕ)
  pub port : List (List ℕ)
  pub outbound : List ℕ

pub record RoutesConfig : Type 0 where
  pub default_outbound : List ℕ
  pub outbounds : List OutboundConfig
  pub rules : List RuleConfig
  pub toml_routes : List TomlRouteEntry

pub record MatchContext : Type 0 where
  pub node_id : ℕ
  pub network : List ℕ
  pub target_host : List ℕ
  pub target_ip : Option IpAddr
  pub target_port : ℕ
  pub inbound_local_ip : Option IpAddr
