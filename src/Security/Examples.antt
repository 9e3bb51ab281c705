-- ===== src/Security/Examples.antt =====
-- src/security/defense.rs on concrete failures, and the theorems about it there.
use elise_backend.Prelude.{◌≡◌, refl, false, some, [], ◌∷◌, arith}
use elise_backend.Prelude.Net.{v4, ip_eq_instance}
use elise_backend.Prelude.Map.{get}
use elise_backend.Security.Defense.{
  AttackDefenseManager, new, record_failure, record_success, prune_expired, is_banned,
}
use elise_backend.Security.Defense.Bounded.{Bounded, operations-Bounded}
use elise_backend.Security.Defense.Failures.{record_failures, failed, last_of, record_failures-get}

-- Three failures within a minute, and a ban of ten minutes.
abbrev defense : AttackDefenseManager
defense = new 3 60 600

defense-Bounded : Bounded defense
defense-Bounded = unfold new in (tt, omega arith)

operations-Bounded_example :
    Bounded (record_failure (v4 1) 5 defense)
    × Bounded (record_success (v4 1) defense)
    × Bounded (prune_expired 5 defense)
operations-Bounded_example = operations-Bounded defense (v4 1) 5 defense-Bounded

record_failures-get_example :
    (get (v4 1) (record_failures (v4 1) (5 ∷ 7 ∷ 9 ∷ []) defense).records
      ≡ some (failed defense 3 5 (last_of 5 (7 ∷ 9 ∷ []))))
    × (is_banned (v4 1) (record_failures (v4 1) (5 ∷ 7 ∷ 9 ∷ []) defense) ≡ false)
record_failures-get_example =
    record_failures-get (v4 1) 5 (7 ∷ 9 ∷ []) defense (unfold new get in refl)
      (unfold new in omega arith) (unfold new in (omega arith, (omega arith, tt))) (omega arith)
