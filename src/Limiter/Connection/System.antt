-- ===== src/Limiter/Connection/System.antt =====
-- Any interleaving of `n` threads that call `try_acquire`, drop guards and prune, while the panel
-- sets limits of at most `bound` for each user.
use elise_backend.Prelude.{ℕ, ◌≤◌, ◌<◌, ◌≡◌, Bool}
use elise_backend.Prelude.Threads.{update}
use elise_backend.Limiter.Connection.{
  ConnectionLimiter, Pc, idle, called, new, set_user_limit, step, prune_idle,
}

pub record System : Type 0 where
  pub limiter : ConnectionLimiter
  pub pc : ℕ → Pc

-- Thread `i` makes its next step.
unfoldable pub run_thread : Bool → ℕ → System → System
run_thread spurious i s =
    let (l, p) = step spurious s.limiter (s.pc i) in record { limiter = l; pc = update s.pc i p }

pub data Step (n : ℕ) (bound : ℕ → ℕ) : System → System → Type 0 where
  call :
      (s : System) (i user_id : ℕ)
      → i < n
      → s.pc i ≡ idle
      → Step n bound s (record s { pc = update s.pc i (called user_id) })
  run : (s : System) (i : ℕ) (spurious : Bool) → i < n → Step n bound s (run_thread spurious i s)
  prune : (s : System) → Step n bound s (record s { limiter = prune_idle n s.pc s.limiter })
  set :
      (s : System) (user_id limit : ℕ)
      → limit ≤ bound user_id
      → Step n bound s (record s { limiter = set_user_limit user_id limit s.limiter })

abbrev pub init : System
init = record { limiter = new; pc = λ _. idle }

pub data Reach (n : ℕ) (bound : ℕ → ℕ) : System → Type 0 where
  start : Reach n bound init
  later : {s t : System} → Reach n bound s → Step n bound s t → Reach n bound t
