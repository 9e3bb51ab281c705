-- ===== src/Limiter/Connection/Invariant.antt =====
-- What every interleaving keeps: a counter counts the guards on it, and a thread that owns a
-- counter owns the one in the map.
use elise_backend.Prelude.{
  ℕ, suc, ◌+◌, ◌-◌, ◌≤◌, ◌<◌, ◌≡◌, inl, inr, Bool, Option, none, some, ltb, leb, ◌==◌,
  if◌then◌else◌, arith, ap, sym, ◌∙◌, leb→lt, ==_iff, Bool-cases, Option-cases,
}
use mathlib.Core.Path.{subst}
use elise_backend.Prelude.Threads.{update, tally, tally-update, weight-le-tally}
use elise_backend.Limiter.Connection.{
  ConnectionLimiter, Pc, idle, called, limited, missing, found, looping, refused, guard, free_guard,
  dropping, read_limit, get_counter, insert_counter, compare_exchange, step,
}

-- 1 if the thread holds a guard on the counter.
abbrev pub holds : ℕ → Pc → ℕ
holds c (guard _ d) = if c == d then 1 else 0
holds c _ = 0

-- The user and the counter of a thread that owns one.
abbrev pub target : Pc → Option (ℕ × ℕ)
target (found u _ c) = some (u, c)
target (looping u _ c _) = some (u, c)
target (refused u c) = some (u, c)
target (guard u c) = some (u, c)
target (dropping u c) = some (u, c)
target _ = none

-- The limit that a thread has read is one that was set.
abbrev pub LimitFits : (ℕ → ℕ) → Pc → Type 0
LimitFits bound (limited u limit) = limit ≤ bound u
LimitFits bound (missing u limit) = limit ≤ bound u
LimitFits bound (found u limit _) = limit ≤ bound u
LimitFits bound (looping u limit _ _) = limit ≤ bound u
LimitFits bound _ = Unit {0}

pub record Inv (n : ℕ) (bound : ℕ → ℕ) (l : ConnectionLimiter) (pc : ℕ → Pc) : Type 0 where
  pub counted : (c : ℕ) → l.counter c ≡ tally (holds c) n pc
  pub rooted : (i u c : ℕ) → target (pc i) ≡ some (u, c) → l.active_conns u ≡ some c
  pub fresh : (u c : ℕ) → l.active_conns u ≡ some c → c < l.next
  pub unused : (c : ℕ) → l.next ≤ c → l.counter c ≡ 0
  pub distinct : (u v c : ℕ) → l.active_conns u ≡ some c → l.active_conns v ≡ some c → u ≡ v
  pub bounded : (u c : ℕ) → l.active_conns u ≡ some c → l.counter c ≤ bound u
  pub set_fits : (u limit : ℕ) → l.max_conns u ≡ some limit → limit ≤ bound u
  pub read_fits : (i : ℕ) → LimitFits bound (pc i)
  pub outside : (i : ℕ) → n ≤ i → pc i ≡ idle

module _ {n : ℕ} {bound : ℕ → ℕ} {l : ConnectionLimiter} {pc : ℕ → Pc} (v : Inv n bound l pc)
    (i : ℕ) (lt : i < n) where
  -- A step that changes only where the thread stands.
  pub move :
      (p : Pc)
      → ((c : ℕ) → holds c p ≡ holds c (pc i))
      → ((u c : ℕ) → target p ≡ some (u, c) → l.active_conns u ≡ some c)
      → LimitFits bound p
      → Inv n bound l (update pc i p)
  move p same root fits = record {
    counted = λ c. omega (arith, v.counted c, same c, tally-update (holds c) n i pc p lt);
    rooted = λ j u c h. elim (Bool-cases (i == j)) [
      | inl e ↦ root u c (rw e at h)
      | inr e ↦ v.rooted j u c (rw e at h)
    ];
    fresh = v.fresh;
    unused = v.unused;
    distinct = v.distinct;
    bounded = v.bounded;
    set_fits = v.set_fits;
    read_fits =
        λ j. elim (Bool-cases (i == j)) [ inl e ↦ rw e fits | inr e ↦ rw e (v.read_fits j) ];
    outside = λ j h. ground (arith, v.outside j);
  }

  -- `or_insert_with`: a counter at an address never used, which no thread owns.
  insert :
      (u limit : ℕ)
      → l.active_conns u ≡ none
      → ((c : ℕ) → holds c (pc i) ≡ 0)
      → limit ≤ bound u
      → Inv n bound
          (record l {
            active_conns = update l.active_conns u (some l.next);
            counter = update l.counter l.next 0;
            next = suc l.next;
          })
          (update pc i (found u limit l.next))
  insert u limit absent none_held fits = record {
    counted = λ c. elim (Bool-cases (l.next == c)) [
      | inl e ↦ rw e (
          omega (
            arith,
            v.counted c,
            v.unused c (ground arith),
            none_held c,
            tally-update (holds c) n i pc (found u limit l.next) lt,
          ))
      | inr e ↦ rw e (
          omega (
            arith,
            v.counted c,
            none_held c,
            tally-update (holds c) n i pc (found u limit l.next) lt,
          ))
    ];
    rooted = λ j w c h. elim (Bool-cases (i == j)) [
      | inl e ↦ ground (arith, rw e at h)
      | inr e ↦ ground (arith, v.rooted j w c)
    ];
    fresh = λ w c h. ground (arith, v.fresh w c);
    unused = λ c h. ground (arith, v.unused c);
    distinct = λ w x c h k. ground (arith, v.distinct w x c, v.fresh w c, v.fresh x c);
    bounded = λ w c h. ground (arith, v.bounded w c, v.fresh w c);
    set_fits = v.set_fits;
    read_fits =
        λ j. elim (Bool-cases (i == j)) [ inl e ↦ rw e fits | inr e ↦ rw e (v.read_fits j) ];
    outside = λ j h. ground (arith, v.outside j);
  }

  -- A successful `compare_exchange`: the thread has a guard, within the limit that it read.
  acquire :
      (u limit c cur : ℕ)
      → pc i ≡ looping u limit c cur
      → cur < limit
      → l.counter c ≡ cur
      → Inv n bound (record l { counter = update l.counter c (cur + 1) }) (update pc i (guard u c))
  acquire u limit c cur at below same = record {
    counted = λ d.
        ground (arith, v.counted d, ap (holds d) at, tally-update (holds d) n i pc (guard u c) lt);
    rooted = λ j w d h. elim (Bool-cases (i == j)) [
      | inl e ↦ ground (arith, rw e at h, v.rooted i u c (ap target at))
      | inr e ↦ ground (arith, v.rooted j w d)
    ];
    fresh = v.fresh;
    unused = λ d h. ground (arith, v.unused d, v.fresh u c (v.rooted i u c (ap target at)));
    distinct = v.distinct;
    bounded = λ w d h.
        ground (arith, v.bounded w d, v.distinct w u c, v.rooted i u c (ap target at), fits);
    set_fits = v.set_fits;
    read_fits = λ j. elim (Bool-cases (i == j)) [ inl e ↦ rw e tt | inr e ↦ rw e (v.read_fits j) ];
    outside = λ j h. ground (arith, v.outside j);
  }
    where
      fits : limit ≤ bound u
      fits = subst (LimitFits bound) at (v.read_fits i)

  -- The guard's `fetch_sub`: the counter was at least one.
  release :
      (u c : ℕ)
      → pc i ≡ guard u c
      → Inv n bound
          (record l { counter = update l.counter c (l.counter c - 1) })
          (update pc i (dropping u c))
  release u c at = record {
    counted = λ d. ground (
      arith,
      v.counted d,
      ap (holds d) at,
      weight-le-tally (holds d) n i pc lt,
      tally-update (holds d) n i pc (dropping u c) lt,
    );
    rooted = λ j w d h. elim (Bool-cases (i == j)) [
      | inl e ↦ ground (arith, rw e at h, v.rooted i u c (ap target at))
      | inr e ↦ ground (arith, v.rooted j w d)
    ];
    fresh = v.fresh;
    unused = λ d h. ground (arith, v.unused d, v.unused c);
    distinct = v.distinct;
    bounded = λ w d h. ground (arith, v.bounded w d h, v.bounded w c);
    set_fits = v.set_fits;
    read_fits = λ j. elim (Bool-cases (i == j)) [ inl e ↦ rw e tt | inr e ↦ rw e (v.read_fits j) ];
    outside = λ j h. ground (arith, v.outside j);
  }

  abbrev pub After : ConnectionLimiter × Pc → Type 0
  After (m, p) = Inv n bound m (update pc i p)

  -- One step of a thread that stands at `p`.
  pub step-After : (spurious : Bool) (p : Pc) → pc i ≡ p → After (step spurious l p)
  unfolding step
  step-After spurious idle at = move idle (λ c. ap (holds c) (sym at)) (λ w c h. cc) tt
  step-After spurious (called u) at = elim (Option-cases (l.max_conns u)) [
    | inl e ↦ rw (e, read_limit) (move (free_guard u) (λ c. ap (holds c) (sym at)) (λ w c h. cc) tt)
    | inr (limit, e) ↦ elim (Bool-cases (ltb 0 limit)) [
      | inl q ↦
          rw (e, q, read_limit)
            (move (limited u limit) (λ c. ap (holds c) (sym at)) (λ w c h. cc)
              (v.set_fits u limit e))
      | inr q ↦
          rw (e, q, read_limit) (move (free_guard u) (λ c. ap (holds c) (sym at)) (λ w c h. cc) tt)
    ]
  ]
  step-After spurious (limited u limit) at = elim (Option-cases (l.active_conns u)) [
    | inl e ↦
        rw (e, get_counter)
          (move (missing u limit) (λ c. ap (holds c) (sym at)) (λ w c h. cc)
            (subst (LimitFits bound) at (v.read_fits i)))
    | inr (c, e) ↦
        rw (e, get_counter)
          (move (found u limit c) (λ d. ap (holds d) (sym at)) (λ w d h. ground (arith, e))
            (subst (LimitFits bound) at (v.read_fits i)))
  ]
  step-After spurious (missing u limit) at = elim (Option-cases (l.active_conns u)) [
    | inl e ↦
        rw (e, insert_counter)
          (insert u limit e (λ c. ap (holds c) at) (subst (LimitFits bound) at (v.read_fits i)))
    | inr (c, e) ↦
        rw (e, insert_counter)
          (move (found u limit c) (λ d. ap (holds d) (sym at)) (λ w d h. ground (arith, e))
            (subst (LimitFits bound) at (v.read_fits i)))
  ]
  step-After spurious (found u limit c) at =
      move (looping u limit c (l.counter c)) (λ d. ap (holds d) (sym at))
        (λ w d h. v.rooted i w d (ap target at ∙ h)) (subst (LimitFits bound) at (v.read_fits i))
  step-After spurious (looping u limit c cur) at =
      let again =
        move (looping u limit c (l.counter c)) (λ d. ap (holds d) (sym at))
          (λ w d h. v.rooted i w d (ap target at ∙ h))
          (subst (LimitFits bound) at (v.read_fits i)) in
      elim (Bool-cases (leb limit cur)) [
        | inl e ↦
            rw (e, compare_exchange)
              (move (refused u c) (λ d. ap (holds d) (sym at))
                (λ w d h. v.rooted i w d (ap target at ∙ h)) tt)
        | inr e ↦ elim (Bool-cases spurious) [
          | inl s ↦ rw (e, s, compare_exchange) again
          | inr s ↦ elim (Bool-cases (l.counter c == cur)) [
            | inl q ↦
                rw (e, s, q, compare_exchange)
                  (acquire u limit c cur at (leb→lt limit cur e) ((==_iff _ _).0 q))
            | inr q ↦ rw (e, s, q, compare_exchange) again
          ]
        ]
      ]
  step-After spurious (refused u c) at = move idle (λ d. ap (holds d) (sym at)) (λ w d h. cc) tt
  step-After spurious (guard u c) at = release u c at
  step-After spurious (free_guard u) at = move idle (λ d. ap (holds d) (sym at)) (λ w d h. cc) tt
  step-After spurious (dropping u c) at = move idle (λ d. ap (holds d) (sym at)) (λ w d h. cc) tt
