-- ===== src/Limiter/Connection.antt =====
-- src/limiter/connection.rs: `ConnectionLimiter`, with each lock section and each atomic operation of
-- `try_acquire`, of the guard's `drop` and of `prune_idle` as one step of a thread. Atomics are
-- sequentially consistent. An `Arc<AtomicU32>` is a number, the address of its counter.
pub mod System
pub mod Invariant
pub mod Safety
use elise_backend.Prelude.{
  ℕ, zero, suc, ◌+◌, ◌-◌, Bool, true, false, ◌||◌, Option, none, some, ltb, leb, ◌==◌,
  if◌then◌else◌,
}
use elise_backend.Prelude.Threads.{update, tally}

-- The two maps, and the counters behind the `Arc`s; `next` is the first address never used.
pub record ConnectionLimiter : Type 0 where
  pub active_conns : ℕ → Option ℕ
  pub max_conns : ℕ → Option ℕ
  pub counter : ℕ → ℕ
  pub next : ℕ

unfoldable pub new : ConnectionLimiter
new = record { active_conns = λ _. none; max_conns = λ _. none; counter = λ _. 0; next = 0 }

unfoldable pub set_user_limit : ℕ → ℕ → ConnectionLimiter → ConnectionLimiter
set_user_limit user_id limit l =
    if ltb 0 limit
    then record l { max_conns = update l.max_conns user_id (some limit) }
    else record l { max_conns = update l.max_conns user_id none }

-- Where a thread stands, with its local variables: `try_acquire` up to `looping`, then a guard.
pub data Pc : Type 0 where
  idle : Pc
  called : ℕ → Pc
  limited : ℕ → ℕ → Pc
  missing : ℕ → ℕ → Pc
  found : ℕ → ℕ → ℕ → Pc
  looping : ℕ → ℕ → ℕ → ℕ → Pc
  refused : ℕ → ℕ → Pc
  guard : ℕ → ℕ → Pc
  free_guard : ℕ → Pc
  dropping : ℕ → ℕ → Pc

-- `max_conns.read().get(..)` and the match on it.
unfoldable pub read_limit : ℕ → ConnectionLimiter → Pc
read_limit user_id l = elim (l.max_conns user_id) [
  | none ↦ free_guard user_id
  | some limit ↦ if ltb 0 limit then limited user_id limit else free_guard user_id
]

-- `active_conns.read().get(..).cloned()`
unfoldable pub get_counter : ℕ → ℕ → ConnectionLimiter → Pc
get_counter user_id limit l = elim (l.active_conns user_id) [
  | none ↦ missing user_id limit
  | some c ↦ found user_id limit c
]

-- `active_conns.write().entry(..).or_insert_with(..).clone()`
unfoldable pub insert_counter : ℕ → ℕ → ConnectionLimiter → ConnectionLimiter × Pc
insert_counter user_id limit l = elim (l.active_conns user_id) [
  | some c ↦ (l, found user_id limit c)
  | none ↦ (
    record l {
      active_conns = update l.active_conns user_id (some l.next);
      counter = update l.counter l.next 0;
      next = suc l.next;
    },
    found user_id limit l.next,
  )
]

-- One round of the loop: `compare_exchange_weak` may fail though the values agree.
unfoldable pub compare_exchange : Bool → ℕ → ℕ → ℕ → ℕ → ConnectionLimiter → ConnectionLimiter × Pc
compare_exchange spurious user_id limit c cur l =
    if leb limit cur
    then (l, refused user_id c)
    else if spurious
    then (l, looping user_id limit c (l.counter c))
    else if l.counter c == cur
    then (record l { counter = update l.counter c (cur + 1) }, guard user_id c)
    else (l, looping user_id limit c (l.counter c))

-- The next step of a thread that is at `pc`; a guard's next step is its `drop`.
unfoldable pub step : Bool → ConnectionLimiter → Pc → ConnectionLimiter × Pc
unfolding read_limit get_counter insert_counter compare_exchange
step spurious l idle = (l, idle)
step spurious l (called user_id) = (l, read_limit user_id l)
step spurious l (limited user_id limit) = (l, get_counter user_id limit l)
step spurious l (missing user_id limit) = insert_counter user_id limit l
step spurious l (found user_id limit c) = (l, looping user_id limit c (l.counter c))
step spurious l (looping user_id limit c cur) = compare_exchange spurious user_id limit c cur l
step spurious l (refused user_id c) = (l, idle)
step spurious l (guard user_id c) =
    (record l { counter = update l.counter c (l.counter c - 1) }, dropping user_id c)
step spurious l (free_guard user_id) = (l, idle)
step spurious l (dropping user_id c) = (l, idle)

-- 1 if the thread owns a clone of the `Arc` of `c`.
abbrev pub owns : ℕ → Pc → ℕ
owns c (found _ _ d) = if c == d then 1 else 0
owns c (looping _ _ d _) = if c == d then 1 else 0
owns c (refused _ d) = if c == d then 1 else 0
owns c (guard _ d) = if c == d then 1 else 0
owns c (dropping _ d) = if c == d then 1 else 0
owns c _ = 0

-- `Arc::strong_count`: the map's own reference and the clones of the `n` threads.
abbrev pub strong_count : ℕ → (ℕ → Pc) → ℕ → ℕ
strong_count n pcs c = 1 + tally (owns c) n pcs

unfoldable pub prune_idle : ℕ → (ℕ → Pc) → ConnectionLimiter → ConnectionLimiter
prune_idle n pcs l = record l {
  active_conns = λ user_id. elim (l.active_conns user_id) [
    | none ↦ none
    | some c ↦ if ltb 0 (l.counter c) || ltb 1 (strong_count n pcs c) then some c else none
  ];
}
