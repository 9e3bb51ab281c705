-- ===== src/Router/Route/Dimensions.antt =====
-- src/proxy/router/mod.rs: a route restricts the node, the network, the port and the destination.
use elise_backend.Prelude.{
  ℕ, ◌≡◌, refl, sym, ap, ◌∙◌, Bool, true, false, not, ◌&&◌, ◌||◌, Option, none, some, List, [], ◌∷◌,
  ◌++◌, map, leb, ◌==◌, if◌then◌else◌,
}
use mathlib.Core.List.{append_assoc, append-nil}
use elise_backend.Prelude.Text.{codes, bytes_eq}
use elise_backend.Prelude.Strings.{any, any-append, is_empty, split_on, eq_ignore_ascii_case}
use elise_backend.Prelude.Net.{IpAddr}
use elise_backend.Router.Config.{Engines, TomlRouteEntry, MatchContext}
use elise_backend.Router.Route.{
  Kind, skipped, nodes, networks, ports, destination, kind_of, Filters, push_parsed, node_part,
  port_range, add_kind, add_rules, dest_matches, any_dest, filters_match, match_toml_route,
}

is_empty-append :
    {B : Type 0} (v w : List B) (b : Bool)
    → is_empty w ≡ not b
    → is_empty (v ++ w) ≡ not (not (is_empty v) || b)
is_empty-append [] w b h = h
is_empty-append (y ∷ v) w b h = refl

module _ {A B : Type 0} (values : A → List B) where
  abbrev flat_map : List A → List B
  flat_map [] = []
  flat_map (x ∷ xs) = values x ++ flat_map xs

  -- No rule has a value, or a value of some rule passes.
  abbrev pub fits : (B → Bool) → List A → Bool
  fits test rules =
      not (any (λ x. not (is_empty (values x))) rules) || any (λ x. any test (values x)) rules

  any-flat_map :
      (test : B → Bool) (xs : List A) → any test (flat_map xs) ≡ any (λ x. any test (values x)) xs
  any-flat_map test [] = refl
  any-flat_map test (x ∷ xs) =
      any-append test (values x) (flat_map xs)
      ∙ ap (◌||◌ (any test (values x))) (any-flat_map test xs)

  is_empty-flat_map :
      (xs : List A) → is_empty (flat_map xs) ≡ not (any (λ x. not (is_empty (values x))) xs)
  is_empty-flat_map [] = refl
  is_empty-flat_map (x ∷ xs) = is_empty-append (values x) (flat_map xs) _ (is_empty-flat_map xs)

  fits-flat_map :
      (test : B → Bool) (xs : List A)
      → (is_empty (flat_map xs) || any test (flat_map xs)) ≡ fits test xs
  fits-flat_map test xs = rw (is_empty-flat_map xs, any-flat_map test xs) refl

guard : (n m r : Bool) → (if not n && not m then false else r) ≡ ((n || m) && r)
guard true m r = refl
guard false true r = refl
guard false false r = refl

abbrev pub network_fits : List ℕ → List ℕ → Bool
network_fits network n = bytes_eq n (codes "all") || eq_ignore_ascii_case n network

abbrev pub port_fits : ℕ → (ℕ × ℕ) → Bool
port_fits port r = leb r.0 port && leb port r.1

last_guard : (n r : Bool) → (if n then true else r) ≡ (n || r)
last_guard true r = refl
last_guard false r = refl

abbrev pub destinations_in : Kind → List (List ℕ)
destinations_in (destination rule) = rule ∷ []
destinations_in _ = []

module _ (e : Engines) where
  -- The values that one rule contributes to each dimension.
  abbrev pub ids_in : Kind → List ℕ
  ids_in (nodes s) = push_parsed (node_part e) [] (split_on b',' s)
  ids_in _ = []

  abbrev pub networks_in : Kind → List (List ℕ)
  networks_in (networks s) = e.to_lowercase (e.trim s) ∷ []
  networks_in _ = []

  abbrev pub ports_in : Kind → List (ℕ × ℕ)
  ports_in (ports s) = push_parsed (λ part. port_range e (e.trim part)) [] (split_on b',' s)
  ports_in _ = []

push_parsed-append :
    {A : Type 0} (parse : List ℕ → Option A) (values : List A) (parts : List (List ℕ))
    → push_parsed parse values parts ≡ values ++ push_parsed parse [] parts
unfolding push_parsed
push_parsed-append {A = A} parse values [] = sym (append-nil values)
push_parsed-append {A = A} parse values (part ∷ parts) =
    pushed (parse part) (λ xs. push_parsed-append parse xs parts)
  where
    pushed :
        (o : Option A)
        → ((xs : List A) → push_parsed parse xs parts ≡ xs ++ push_parsed parse [] parts)
        → elim o [
          | none ↦ push_parsed parse values parts
          | some v ↦ push_parsed parse (values ++ v ∷ []) parts
        ]
          ≡ values ++ elim o [
            | none ↦ push_parsed parse [] parts
            | some v ↦ push_parsed parse (v ∷ []) parts
          ]
    pushed none rest = rest values
    pushed (some v) rest =
        rest (values ++ v ∷ [])
        ∙ append_assoc values (v ∷ []) _
        ∙ ap (λ t. values ++ t) (sym (rest (v ∷ [])))

module _ (e : Engines) where
  abbrev joined : Filters → List Kind → Filters
  joined f kinds = record {
    node_filters = f.node_filters ++ flat_map (ids_in e) kinds;
    network_filters = f.network_filters ++ flat_map (networks_in e) kinds;
    port_filters = f.port_filters ++ flat_map (ports_in e) kinds;
    dest_rules = f.dest_rules ++ flat_map destinations_in kinds;
  }

  add_kind-joined : (f : Filters) (k : Kind) → add_kind e f k ≡ joined f (k ∷ [])
  unfolding add_kind
  add_kind-joined f skipped = simp append-nil
  add_kind-joined f (nodes s) =
      simp append-nil (rw (push_parsed-append (node_part e) f.node_filters (split_on b',' s)) refl)
  add_kind-joined f (networks s) = simp append-nil
  add_kind-joined f (ports s) = simp append-nil (
      rw (push_parsed-append (λ part. port_range e (e.trim part)) f.port_filters (split_on b',' s))
        refl)
  add_kind-joined f (destination rule) = simp append-nil

  joined-joined :
      (f : Filters) (k : Kind) (kinds : List Kind)
      → joined (joined f (k ∷ [])) kinds ≡ joined f (k ∷ kinds)
  joined-joined f k kinds = simp (append-nil, append_assoc)

  abbrev pub kinds_of : List (List ℕ) → List Kind
  kinds_of rules = map (λ rule. kind_of (e.trim rule)) rules

  add_rules-joined :
      (f : Filters) (rules : List (List ℕ)) → add_rules e f rules ≡ joined f (kinds_of rules)
  unfolding add_rules
  add_rules-joined f [] = simp append-nil
  add_rules-joined f (rule ∷ rules) =
      add_rules-joined (add_kind e f (kind_of (e.trim rule))) rules
      ∙ ap (λ t. joined t (kinds_of rules)) (add_kind-joined f (kind_of (e.trim rule)))
      ∙ joined-joined f (kind_of (e.trim rule)) (kinds_of rules)

  any_dest-any :
      (target_ip : Option IpAddr) (lower : List ℕ) (rules : List (List ℕ))
      → any_dest e target_ip lower rules ≡ any (dest_matches e target_ip lower) rules
  unfolding any_dest
  any_dest-any target_ip lower [] = refl
  any_dest-any target_ip lower (rule ∷ rules) =
      last_guard (dest_matches e target_ip lower rule) _
      ∙ ap (λ t. dest_matches e target_ip lower rule || t) (any_dest-any target_ip lower rules)

  filters_match-guards :
      (f : Filters) (ctx : MatchContext) (lower : List ℕ)
      → filters_match e f ctx lower ≡ (
          (is_empty f.node_filters || any (◌==◌ ctx.node_id) f.node_filters)
          && ((is_empty f.network_filters || any (network_fits ctx.network) f.network_filters)
              && ((is_empty f.port_filters || any (port_fits ctx.target_port) f.port_filters)
                  && (is_empty f.dest_rules
                      || any (dest_matches e ctx.target_ip lower) f.dest_rules))))
  unfolding filters_match
  filters_match-guards f ctx lower =
      simp (guard, last_guard, any_dest-any ctx.target_ip lower f.dest_rules)

-- A route matches exactly when its rules allow the node, the network, the port and the destination.
-- Rules of one dimension are alternatives, and a dimension in which no rule has a value that is
-- understood allows everything.
pub match_toml_route-dimensions :
    (e : Engines) (route : TomlRouteEntry) (ctx : MatchContext) (target_lower : List ℕ)
    → let kinds = kinds_of e route.rules in
      match_toml_route e route ctx target_lower ≡ (
        fits (ids_in e) (◌==◌ ctx.node_id) kinds
        && (fits (networks_in e) (network_fits ctx.network) kinds
            && (fits (ports_in e) (port_fits ctx.target_port) kinds
                && fits destinations_in (dest_matches e ctx.target_ip target_lower) kinds)))
unfolding match_toml_route
match_toml_route-dimensions e route ctx target_lower =
    let kinds = kinds_of e route.rules in
    ap (λ f. filters_match e f ctx target_lower) (add_rules-joined e _ route.rules)
    ∙ filters_match-guards e _ ctx target_lower
    ∙ simp (
      fits-flat_map (ids_in e) (◌==◌ ctx.node_id) kinds,
      fits-flat_map (networks_in e) (network_fits ctx.network) kinds,
      fits-flat_map (ports_in e) (port_fits ctx.target_port) kinds,
      fits-flat_map destinations_in (dest_matches e ctx.target_ip target_lower) kinds,
    )
