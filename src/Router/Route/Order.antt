-- ===== src/Router/Route/Order.antt =====
-- src/proxy/router/mod.rs: the order of the rules in a route.
use mathlib.Core.Logic.{∥∥₁_elim}
use mathlib.Core.List.{Perm, Permᴰ}
use mathlib.Core.List.Permᴰ.{nil, cons, swap, trans}
use elise_backend.Prelude.{
  ℕ, ◌≡◌, refl, sym, ◌∙◌, Bool, true, false, not, ◌||◌, List, [], ◌∷◌, map, ◌==◌,
}
use elise_backend.Prelude.Strings.{any, is_empty}
use elise_backend.Router.Config.{Engines, OutboundConfig, MatchContext}
use elise_backend.Router.Route.{kind_of, dest_matches, match_toml_route}
use elise_backend.Router.Route.Dimensions.{
  match_toml_route-dimensions, fits, ids_in, networks_in, ports_in, destinations_in, network_fits,
  port_fits,
}

or_swap : (a b c : Bool) → (a || (b || c)) ≡ (b || (a || c))
or_swap true true c = refl
or_swap true false c = refl
or_swap false b c = refl

any-Permᴰ : {A : Type 0} (p : A → Bool) {xs ys : List A} → Permᴰ xs ys → any p xs ≡ any p ys
any-Permᴰ p nil = refl
any-Permᴰ p (cons {a} {b} {l₁} {l₂} e d) = rw (e, any-Permᴰ p d) refl
any-Permᴰ p (swap {a} {b} {a'} {b'} {l} e f) = rw (e, f) (or_swap (p b') (p a') (any p l))
any-Permᴰ p (trans d e) = any-Permᴰ p d ∙ any-Permᴰ p e

any-map :
    {A B : Type 0} (p : B → Bool) (f : A → B) (xs : List A)
    → any p (map f xs) ≡ any (λ x. p (f x)) xs
any-map p f [] = refl
any-map p f (x ∷ xs) = rw (any-map p f xs) refl

fits-map :
    {A B C : Type 0} (f : A → B) (values : B → List C) (test : C → Bool) (xs ys : List A)
    → Permᴰ xs ys
    → fits values test (map f xs) ≡ fits values test (map f ys)
fits-map {B = B} f values test xs ys d =
    let same =
      λ (p : B → Bool). any-map p f xs ∙ any-Permᴰ (λ x. p (f x)) d ∙ sym (any-map p f ys) in
    rw (same (λ k. not (is_empty (values k))), same (λ k. any test (values k))) refl

reordered :
    (e : Engines) (outs : List OutboundConfig) (rules rules' : List (List ℕ)) (ctx : MatchContext)
    (lower : List ℕ)
    → Permᴰ rules rules'
    → match_toml_route e (record { rules = rules; outs = outs }) ctx lower
      ≡ match_toml_route e (record { rules = rules'; outs = outs }) ctx lower
reordered e outs rules rules' ctx lower d =
    let kind = λ (rule : List ℕ). kind_of (e.trim rule) in
    match_toml_route-dimensions e (record { rules = rules; outs = outs }) ctx lower
    ∙ rw
        (
          fits-map kind (ids_in e) (◌==◌ ctx.node_id) rules rules' d,
          fits-map kind (networks_in e) (network_fits ctx.network) rules rules' d,
          fits-map kind (ports_in e) (port_fits ctx.target_port) rules rules' d,
          fits-map kind destinations_in (dest_matches e ctx.target_ip lower) rules rules' d,
        )
        refl
    ∙ sym (match_toml_route-dimensions e (record { rules = rules'; outs = outs }) ctx lower)

-- The order of the rules in a route does not matter.
pub match_toml_route-perm :
    (e : Engines) (outs : List OutboundConfig) (rules rules' : List (List ℕ)) (ctx : MatchContext)
    (lower : List ℕ)
    → Perm rules rules'
    → match_toml_route e (record { rules = rules; outs = outs }) ctx lower
      ≡ match_toml_route e (record { rules = rules'; outs = outs }) ctx lower
match_toml_route-perm e outs rules rules' ctx lower p =
    ∥∥₁_elim p (hlevel) (reordered e outs rules rules' ctx lower)
