-- ===== src/Limiter/Connection/Safety.antt =====
-- Every reachable state of the threads under one `ConnectionLimiter`.
use elise_backend.Prelude.{
  ℕ, ◌≤◌, ◌≡◌, refl, inl, inr, Option, none, some, ltb, ◌==◌, if◌then◌else◌, arith, ap, sym, ◌∙◌,
  Bool-cases, Option-cases,
}
use elise_backend.Prelude.Threads.{tally, tally-zero, tally_mono, weight-le-tally}
use elise_backend.Limiter.Connection.{
  ConnectionLimiter, Pc, idle, called, limited, missing, found, looping, refused, guard, free_guard,
  dropping, new, set_user_limit, prune_idle, owns,
}
use elise_backend.Limiter.Connection.System.{
  System, run_thread, Step, call, run, prune, set, init, Reach, start, later,
}
use elise_backend.Limiter.Connection.Invariant.{Inv, holds, target, move, step-After}

-- A thread that has a target owns its counter.
owner : (p : Pc) (u c : ℕ) → target p ≡ some (u, c) → owns c p ≡ 1
owner idle u c h = cc
owner (called w) u c h = cc
owner (limited w m) u c h = cc
owner (missing w m) u c h = cc
owner (found w m d) u c h = ground arith
owner (looping w m d k) u c h = ground arith
owner (refused w d) u c h = ground arith
owner (guard w d) u c h = ground arith
owner (free_guard w) u c h = cc
owner (dropping w d) u c h = ground arith

module _ {n : ℕ} {bound : ℕ → ℕ} {l : ConnectionLimiter} {pc : ℕ → Pc} (v : Inv n bound l pc) where
  pruned_from : (u c : ℕ) → (prune_idle n pc l).active_conns u ≡ some c → l.active_conns u ≡ some c
  unfolding prune_idle
  pruned_from u c h = ground arith

  owned : (i u c : ℕ) → target (pc i) ≡ some (u, c) → 1 ≤ tally (owns c) n pc
  owned i u c h = elim (Bool-cases (ltb i n)) [
    | inl e ↦ omega (arith, owner (pc i) u c h, weight-le-tally (owns c) n i pc (ground arith))
    | inr e ↦ cc (ap target (v.outside i (ground arith)), h)
  ]

  -- A counter that a thread owns stays in the map.
  pruned_keeps :
      (u c : ℕ)
      → l.active_conns u ≡ some c
      → 1 ≤ tally (owns c) n pc
      → (prune_idle n pc l).active_conns u ≡ some c
  unfolding prune_idle
  pruned_keeps u c h k = ground arith

  prune-Inv : Inv n bound (prune_idle n pc l) pc
  prune-Inv = record {
    counted = unfold prune_idle in v.counted;
    rooted = λ i u c h. pruned_keeps u c (v.rooted i u c h) (owned i u c h);
    fresh = λ u c h. unfold prune_idle in v.fresh u c (pruned_from u c h);
    unused = unfold prune_idle in v.unused;
    distinct = λ u w c h k. v.distinct u w c (pruned_from u c h) (pruned_from w c k);
    bounded = λ u c h. unfold prune_idle in v.bounded u c (pruned_from u c h);
    set_fits = unfold prune_idle in v.set_fits;
    read_fits = v.read_fits;
    outside = v.outside;
  }

  set-Inv : (u limit : ℕ) → limit ≤ bound u → Inv n bound (set_user_limit u limit l) pc
  unfolding set_user_limit
  set-Inv u limit fits = elim (Bool-cases (ltb 0 limit)) [
    | inl e ↦ rw e (record {
      counted = v.counted;
      rooted = v.rooted;
      fresh = v.fresh;
      unused = v.unused;
      distinct = v.distinct;
      bounded = v.bounded;
      set_fits = λ w m h. ground (arith, v.set_fits w m);
      read_fits = v.read_fits;
      outside = v.outside;
    })
    | inr e ↦ rw e (record {
      counted = v.counted;
      rooted = v.rooted;
      fresh = v.fresh;
      unused = v.unused;
      distinct = v.distinct;
      bounded = v.bounded;
      set_fits = λ w m h. ground (arith, v.set_fits w m);
      read_fits = v.read_fits;
      outside = v.outside;
    })
  ]

init-Inv : (n : ℕ) (bound : ℕ → ℕ) → Inv n bound init.limiter init.pc
unfolding new
init-Inv n bound = record {
  counted = λ c. sym (tally-zero (holds c) n (λ _. idle) (λ _. refl));
  rooted = λ i u c h. cc;
  fresh = λ u c h. cc;
  unused = λ c h. refl;
  distinct = λ u w c h k. cc;
  bounded = λ u c h. cc;
  set_fits = λ u m h. cc;
  read_fits = λ i. tt;
  outside = λ i h. refl;
}

Step-Inv :
    {n : ℕ} {bound : ℕ → ℕ} {s t : System}
    → Step n bound s t
    → Inv n bound s.limiter s.pc
    → Inv n bound t.limiter t.pc
unfolding run_thread
Step-Inv (call s i u lt at) v = move v i lt (called u) (λ c. ap (holds c) (sym at)) (λ w c h. cc) tt
Step-Inv (run s i spurious lt) v = step-After v i lt spurious (s.pc i) refl
Step-Inv (prune s) v = prune-Inv v
Step-Inv (set s u limit fits) v = set-Inv v u limit fits

-- Every interleaving keeps the invariant: counters count guards, owners own what the map has.
pub Reach-Inv : {n : ℕ} {bound : ℕ → ℕ} {s : System} → Reach n bound s → Inv n bound s.limiter s.pc
Reach-Inv {n} {bound} start = init-Inv n bound
Reach-Inv (later r st) = Step-Inv st (Reach-Inv r)

-- 1 if the thread holds a counted guard of the user.
abbrev pub holds_for : ℕ → Pc → ℕ
holds_for u (guard w _) = if u == w then 1 else 0
holds_for u _ = 0

module _ (active : ℕ → Option ℕ) (u : ℕ) where
  on_counter :
      (c : ℕ) (p : Pc)
      → active u ≡ some c
      → ((w d : ℕ) → target p ≡ some (w, d) → active w ≡ some d)
      → holds_for u p ≤ holds c p
  on_counter c (guard w d) e root = elim (Bool-cases (u == w)) [
    | inl q ↦ ground (arith, root w d refl)
    | inr q ↦ rw q (omega arith)
  ]
  on_counter c _ e root = omega arith

  no_counter :
      (p : Pc)
      → active u ≡ none
      → ((w d : ℕ) → target p ≡ some (w, d) → active w ≡ some d)
      → holds_for u p ≡ 0
  no_counter (guard w d) e root = ground (arith, root w d refl)
  no_counter _ e root = refl

-- However acquiring, dropping and pruning interleave, a user never has more counted guards than
-- the highest limit that was set for it.
pub guards-le-limit :
    {n : ℕ} {bound : ℕ → ℕ} {s : System}
    → Reach n bound s
    → (u : ℕ) → tally (holds_for u) n s.pc ≤ bound u
guards-le-limit {n} {bound} {s} r u =
    let v = Reach-Inv r in
    let active = s.limiter.active_conns in
    elim (Option-cases (active u)) [
      | inl e ↦ omega (
        arith,
        tally-zero (holds_for u) n s.pc (λ i. no_counter active u (s.pc i) e (v.rooted i)),
      )
      | inr (c, e) ↦ omega (
        arith,
        tally_mono (holds_for u) (holds c) n s.pc
            (λ i. on_counter active u c (s.pc i) e (v.rooted i)),
        v.counted c,
        v.bounded u c e,
      )
    ]

-- Pruning never takes away the counter of an acquire in progress or of a guard, and a guard's
-- `fetch_sub` never wraps below zero.
pub prune_keeps_owned :
    {n : ℕ} {bound : ℕ → ℕ} {s : System}
    → Reach n bound s
    → (i u c : ℕ) → target (s.pc i) ≡ some (u, c)
    → ((prune_idle n s.pc s.limiter).active_conns u ≡ some c)
      × (holds c (s.pc i) ≤ s.limiter.counter c)
prune_keeps_owned {n} {bound} {s} r i u c h =
    let v = Reach-Inv r in
    (
      pruned_keeps v u c (v.rooted i u c h) (owned v i u c h),
      elim (Bool-cases (ltb i n)) [
        | inl e ↦ omega (arith, v.counted c, weight-le-tally (holds c) n i s.pc (ground arith))
        | inr e ↦ cc (ap target (v.outside i (ground arith)), h)
      ],
    )

-- When no thread is inside a call or holds a guard, every counter is zero and one prune empties
-- the map.
pub prune_idle-quiescent :
    {n : ℕ} {bound : ℕ → ℕ} {s : System}
    → Reach n bound s
    → ((i : ℕ) → s.pc i ≡ idle)
    → (u c : ℕ) → ((prune_idle n s.pc s.limiter).active_conns u ≡ none) × (s.limiter.counter c ≡ 0)
unfolding prune_idle
prune_idle-quiescent {n} {bound} {s} r quiet u c =
    let v = Reach-Inv r in
    let none_owns : (d : ℕ) → tally (owns d) n s.pc ≡ 0 =
      λ d. tally-zero (owns d) n s.pc (λ i. ap (owns d) (quiet i)) in
    let zero_count : (d : ℕ) → s.limiter.counter d ≡ 0 =
      λ d. v.counted d ∙ tally-zero (holds d) n s.pc (λ i. ap (holds d) (quiet i)) in
    (
      elim (Option-cases (s.limiter.active_conns u)) [
        | inl e ↦ ground (arith, e)
        | inr (d, e) ↦ ground (arith, e, none_owns d, zero_count d)
      ],
      zero_count c,
    )
