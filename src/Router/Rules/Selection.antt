-- ===== src/Router/Rules/Selection.antt =====
-- src/proxy/router/mod.rs: which outbound a connection gets.
use elise_backend.Prelude.{
  ℕ, suc, ◌%◌, ◌≡◌, refl, ◌⊎◌, inl, inr, Bool, true, false, not, ◌&&◌, ◌||◌, Option, none, some,
  List, [], ◌∷◌, ◌==◌, if◌then◌else◌, length, get_elem?, arith,
}
use elise_backend.Prelude.Bytes.{All}
use elise_backend.Prelude.Text.{codes, bytes_eq}
use elise_backend.Prelude.Strings.{any, is_empty, contains_text, eq_ignore_ascii_case}
use elise_backend.Prelude.Net.{IpAddr}
use elise_backend.Router.Config.{
  Engines, OutboundConfig, outbound_of, TomlRouteEntry, RuleConfig, RoutesConfig, MatchContext,
}
use elise_backend.Router.Route.{under_domain, match_toml_route}
use elise_backend.Router.Rules.{
  find_tag, choose, port_listed, rule_fits, first_route, first_rule, match_outbound,
  network_differs, ip_differs,
}

-- A list of conditions is empty, or one of them holds.
abbrev pub Allows : {A : Type 0} → (A → Bool) → List A → Type 0
Allows test [] = Unit
Allows test (x ∷ xs) = any test (x ∷ xs) ≡ true

abbrev pub NetworkAllows : Option (List ℕ) → List ℕ → Type 0
NetworkAllows none network = Unit
NetworkAllows (some net) network =
    (bytes_eq net (codes "all") || eq_ignore_ascii_case net network) ≡ true

abbrev pub IpAllows : Engines → List (List ℕ) → Option IpAddr → Type 0
IpAllows e [] target_ip = Unit
IpAllows e (c ∷ cs) none = ⊥
IpAllows e (c ∷ cs) (some tip) =
    any (λ cidr. elim (e.parse_net cidr) [ none ↦ false | some contains ↦ contains tip ]) (c ∷ cs)
    ≡ true

-- What a rule asks of a connection.
pub record Fits (e : Engines) (ctx : MatchContext) (lower : List ℕ) (rule : RuleConfig)
    : Type 0 where
  pub node : Allows (◌==◌ ctx.node_id) rule.node_id
  pub network : NetworkAllows rule.network ctx.network
  pub port : Allows (port_listed e ctx.target_port) rule.port
  pub domain : Allows (λ d. eq_ignore_ascii_case d lower) rule.domain
  pub suffix : Allows (λ sfx. under_domain lower (e.to_lowercase sfx)) rule.domain_suffix
  pub keyword : Allows (λ kw. contains_text lower (e.to_lowercase kw)) rule.domain_keyword
  pub ip : IpAllows e rule.ip ctx.target_ip

-- The verdict of a chain of tests.
abbrev Decides : Type 0 → Bool → Type 0
Decides F true = F
Decides F false = ¬ F

-- The first entry that gives something, and that none does.
pub data FirstOf {A B : Type 0} (P : A → B → Type 0) (b : B) : List A → Type 0 where
  here : {x : A} {xs : List A} → P x b → FirstOf P b (x ∷ xs)
  there : {x : A} {xs : List A} → ((c : B) → ¬ P x c) → FirstOf P b xs → FirstOf P b (x ∷ xs)

abbrev pub NoneOf : {A B : Type 0} → (A → B → Type 0) → List A → Type 0
NoneOf {B = B} P xs = All (λ x. (c : B) → ¬ P x c) xs

abbrev Outcome : {A B : Type 0} → (A → B → Type 0) → List A → Option B → Type 0
Outcome P xs none = NoneOf P xs
Outcome P xs (some b) = FirstOf P b xs

abbrev Gives : {B : Type 0} → (B → Type 0) → Option B → Type 0
Gives {B = B} P none = (c : B) → ¬ P c
Gives P (some b) = P b

Gives-self : {B : Type 0} (F : Type 0) (o : Option B) → F → Gives (λ c. F × (o ≡ some c)) o
Gives-self F none f = λ c h. cc (h.1)
Gives-self F (some b) f = (f, refl)

decided :
    {B : Type 0} (F : Type 0) (r : Bool) (o : Option B)
    → Decides F r
    → Gives (λ c. F × (o ≡ some c)) (if r then o else none)
decided F true o d = Gives-self F o d
decided F false o d = λ c h. d h.0

-- One round of a loop that ends with the first result.
Outcome-cons :
    {A B : Type 0} (P : A → B → Type 0) (x : A) (xs : List A) (o rest : Option B)
    → Gives (P x) o
    → Outcome P xs rest
    → Outcome P (x ∷ xs) (elim o [ none ↦ rest | some b ↦ some b ])
Outcome-cons P x xs none none g r = (g, r)
Outcome-cons P x xs none (some b) g r = there g r
Outcome-cons P x xs (some b) rest g r = here g

guarded :
    {B : Type 0} (c : Bool) (o rest : Option B)
    → (if c then elim o [ none ↦ rest | some b ↦ some b ] else rest)
      ≡ elim (if c then o else none) [ none ↦ rest | some b ↦ some b ]
guarded true o rest = refl
guarded false o rest = refl

refused :
    {A : Type 0} (test : A → Bool) (xs : List A)
    → (not (is_empty xs) && not (any test xs)) ≡ true
    → ¬ Allows test xs
refused test [] h a = cc
refused test (x ∷ xs) h a = ground (arith, h, a)

allowed :
    {A : Type 0} (test : A → Bool) (xs : List A)
    → (not (is_empty xs) && not (any test xs)) ≡ false
    → Allows test xs
allowed test [] h = tt
allowed test (x ∷ xs) h = ground (arith, h)

network_refused :
    (n : Option (List ℕ)) (network : List ℕ)
    → network_differs n network ≡ true
    → ¬ NetworkAllows n network
unfolding network_differs
network_refused none network h a = cc
network_refused (some net) network h a = ground (arith, h, a)

network_allowed :
    (n : Option (List ℕ)) (network : List ℕ)
    → network_differs n network ≡ false
    → NetworkAllows n network
unfolding network_differs
network_allowed none network h = tt
network_allowed (some net) network h = ground (arith, h)

test_next :
    (F : Type 0) (c r : Bool)
    → (c ≡ true → ¬ F)
    → (c ≡ false → Decides F r)
    → Decides F (if c then false else r)
test_next F true r no_more go = no_more refl
test_next F false r no_more go = go refl

module _ (e : Engines) where
  ip_refused :
      (cs : List (List ℕ)) (ip : Option IpAddr) → ip_differs e cs ip ≡ true → ¬ IpAllows e cs ip
  unfolding ip_differs
  ip_refused [] ip h a = cc
  ip_refused (c ∷ cs) none h a = a
  ip_refused (c ∷ cs) (some tip) h a = ground (arith, h, a)

  ip_allowed :
      (cs : List (List ℕ)) (ip : Option IpAddr) → ip_differs e cs ip ≡ false → IpAllows e cs ip
  unfolding ip_differs
  ip_allowed [] ip h = tt
  ip_allowed (c ∷ cs) none h = cc
  ip_allowed (c ∷ cs) (some tip) h = ground (arith, h)

  module _ (ctx : MatchContext) (lower : List ℕ) where
    rule_fits-Fits :
        (rule : RuleConfig) → Decides (Fits e ctx lower rule) (rule_fits e rule ctx lower)
    unfolding rule_fits
    rule_fits-Fits rule =
        let F : Type 0 = Fits e ctx lower rule in
        let suffix_test = λ (sfx : List ℕ). under_domain lower (e.to_lowercase sfx) in
        let keyword_test = λ (kw : List ℕ). contains_text lower (e.to_lowercase kw) in
        let domain_test = λ (d : List ℕ). eq_ignore_ascii_case d lower in
        test_next F _ _ (λ h f. refused (◌==◌ ctx.node_id) rule.node_id h f.node)
          λ node.
            test_next F _ _ (λ h f. network_refused rule.network ctx.network h f.network)
              λ network.
                test_next F _ _ (λ h f. refused (port_listed e ctx.target_port) rule.port h f.port)
                  λ port.
                    test_next F _ _ (λ h f. refused domain_test rule.domain h f.domain)
                      λ domain.
                        test_next F _ _ (λ h f. refused suffix_test rule.domain_suffix h f.suffix)
                          λ suffix.
                            test_next F _ _
                              (λ h f. refused keyword_test rule.domain_keyword h f.keyword)
                              λ keyword.
                                test_next F _ true (λ h f. ip_refused rule.ip ctx.target_ip h f.ip)
                                  λ ip. record {
                                    node = allowed (◌==◌ ctx.node_id) rule.node_id node;
                                    network = network_allowed rule.network ctx.network network;
                                    port = allowed (port_listed e ctx.target_port) rule.port port;
                                    domain = allowed domain_test rule.domain domain;
                                    suffix = allowed suffix_test rule.domain_suffix suffix;
                                    keyword = allowed keyword_test rule.domain_keyword keyword;
                                    ip = ip_allowed rule.ip ctx.target_ip ip;
                                  }

    -- A route that matches gives the outbound that is drawn from its own.
    abbrev pub RouteGives : ℕ → TomlRouteEntry → OutboundConfig → Type 0
    RouteGives draw route o =
        (match_toml_route e route ctx lower ≡ true)
        × (get_elem? route.outs (draw % length route.outs) ≡ some o)

    -- A rule that fits gives the outbound with its tag.
    abbrev pub RuleGives : List OutboundConfig → RuleConfig → OutboundConfig → Type 0
    RuleGives outbounds rule o = Fits e ctx lower rule × (find_tag rule.outbound outbounds ≡ some o)

    drawn :
        (m : Bool) (draw : ℕ) (outs : List OutboundConfig)
        → Gives
            (λ o. (m ≡ true) × (get_elem? outs (draw % length outs) ≡ some o))
            (if m && not (is_empty outs) then choose draw outs else none)
    unfolding choose
    drawn false draw outs = λ c h. cc (h.0)
    drawn true draw [] = λ c h. cc (h.1)
    drawn true draw (o ∷ outs) =
        Gives-self (true ≡ true) (get_elem? (o ∷ outs) (draw % suc (length outs))) refl

    route-Gives :
        (draw : ℕ) (route : TomlRouteEntry)
        → Gives (RouteGives draw route) (
            if match_toml_route e route ctx lower && not (is_empty route.outs)
            then choose draw route.outs
            else none)
    route-Gives draw route = drawn (match_toml_route e route ctx lower) draw route.outs

    first_route-Outcome :
        (draw : ℕ) (routes : List TomlRouteEntry)
        → Outcome (RouteGives draw) routes (first_route e draw routes ctx lower)
    unfolding first_route
    first_route-Outcome draw [] = tt
    first_route-Outcome draw (route ∷ routes) =
        rw
          (guarded (match_toml_route e route ctx lower && not (is_empty route.outs))
            (choose draw route.outs) (first_route e draw routes ctx lower))
          (Outcome-cons (RouteGives draw) route routes _ _ (route-Gives draw route)
            (first_route-Outcome draw routes))

    first_rule-Outcome :
        (outbounds : List OutboundConfig) (rules : List RuleConfig)
        → Outcome (RuleGives outbounds) rules (first_rule e outbounds rules ctx lower)
    unfolding first_rule
    first_rule-Outcome outbounds [] = tt
    first_rule-Outcome outbounds (rule ∷ rules) =
        rw
          (guarded (rule_fits e rule ctx lower) (find_tag rule.outbound outbounds)
            (first_rule e outbounds rules ctx lower))
          (Outcome-cons (RuleGives outbounds) rule rules _ _
            (decided (Fits e ctx lower rule) (rule_fits e rule ctx lower)
              (find_tag rule.outbound outbounds) (rule_fits-Fits rule))
            (first_rule-Outcome outbounds rules))

-- The outbound of a connection: the first route that gives one, else the first rule that does,
-- else the default, else a direct connection.
pub data Selected (e : Engines) (draw : ℕ) (cfg : RoutesConfig) (ctx : MatchContext)
    (o : OutboundConfig) : Type 0 where
  by_route :
      FirstOf (RouteGives e ctx (e.to_lowercase ctx.target_host) draw) o cfg.toml_routes
      → Selected e draw cfg ctx o
  by_rule :
      NoneOf (RouteGives e ctx (e.to_lowercase ctx.target_host) draw) cfg.toml_routes
      → FirstOf (RuleGives e ctx (e.to_lowercase ctx.target_host) cfg.outbounds) o cfg.rules
      → Selected e draw cfg ctx o
  by_default :
      NoneOf (RouteGives e ctx (e.to_lowercase ctx.target_host) draw) cfg.toml_routes
      → NoneOf (RuleGives e ctx (e.to_lowercase ctx.target_host) cfg.outbounds) cfg.rules
      → (find_tag cfg.default_outbound cfg.outbounds ≡ some o)
        ⊎ ((find_tag cfg.default_outbound cfg.outbounds ≡ none)
            × (o ≡ outbound_of (codes "direct") (codes "direct")))
      → Selected e draw cfg ctx o

selected :
    (e : Engines) (draw : ℕ) (cfg : RoutesConfig) (ctx : MatchContext)
    (route rule tagged : Option OutboundConfig)
    → Outcome (RouteGives e ctx (e.to_lowercase ctx.target_host) draw) cfg.toml_routes route
    → Outcome (RuleGives e ctx (e.to_lowercase ctx.target_host) cfg.outbounds) cfg.rules rule
    → find_tag cfg.default_outbound cfg.outbounds ≡ tagged
    → Selected e draw cfg ctx (elim route [
      | some selected ↦ selected
      | none ↦ elim rule [
        | some ob ↦ ob
        | none ↦ elim tagged [ some ob ↦ ob | none ↦ outbound_of (codes "direct") (codes "direct") ]
      ]
    ])
selected e draw cfg ctx (some o) rule tagged h k t = by_route h
selected e draw cfg ctx none (some o) tagged h k t = by_rule h k
selected e draw cfg ctx none none (some o) h k t = by_default h k (inl t)
selected e draw cfg ctx none none none h k t = by_default h k (inr (t, refl))

-- `match_outbound` selects as the routes, the rules and the default say, in this order.
pub match_outbound-Selected :
    (e : Engines) (draw : ℕ) (cfg : RoutesConfig) (ctx : MatchContext)
    → Selected e draw cfg ctx (match_outbound e draw cfg ctx)
unfolding match_outbound
match_outbound-Selected e draw cfg ctx =
    let lower = e.to_lowercase ctx.target_host in
    selected e draw cfg ctx (first_route e draw cfg.toml_routes ctx lower)
      (first_rule e cfg.outbounds cfg.rules ctx lower) (find_tag cfg.default_outbound cfg.outbounds)
      (first_route-Outcome e ctx lower draw cfg.toml_routes)
      (first_rule-Outcome e ctx lower cfg.outbounds cfg.rules) refl
