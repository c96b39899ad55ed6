-- ===== src/Scheduler/Machine.antt =====
-- Timer interrupts on several cores, one after the other: `sched_lock` keeps the runs of `reschedule`
-- of src/kernel/scheduler/scheduler.cpp apart.
use toystar.Prelude.{
  ℕ, zero, suc, ◌+◌, ◌≡◌, ◌≢◌, false, Option, some, ◌⊎◌, inl, inr, List, [], ◌∷◌, ◌++◌, ◌==◌,
  length, get_elem?, Bool-cases, ==_iff, arith,
}
use toystar.Prelude.Outcome.{Outcome, done, ◌>>=◌}
use toystar.Prelude.Word.{update}
use toystar.Klibc.Vector.Laws.{Holds}
use toystar.Scheduler.{Context, waiting, Thread, Cpu, Sched, reschedule}
use toystar.Scheduler.Links.{Stored, IsLinked}
use toystar.Scheduler.Switch.{left_behind}

-- The cores, by their numbers, and what they share.
pub record Machine : Type 0 where
  pub cores : ℕ → Cpu
  pub shared : Sched

-- `reschedule` on a core, and the registers that it loads.
abbrev pub interrupt : ℕ → ℕ → Context → Machine → Outcome (Option Context × Machine)
interrupt past core regs m = reschedule past regs (m.cores core) m.shared >>= λ r.
    done (r.0, record { cores = update m.cores core r.1; shared = r.2 })

-- The threads `l` wait, in this order, none of them twice and none of them running; every core runs
-- another thread, or none; and the objects that these need are alive.
pub record IsReady (m : Machine) (l : List ℕ) : Type 0 where
  pub linked : IsLinked m.shared.threads m.shared.processes
  pub queue : Holds m.shared.waiting_queue l
  pub unlocked : m.shared.sched_lock ≡ false
  pub waits :
      (i x : ℕ)
      → get_elem? l i ≡ some x
      → (x ≢ 0) × (t : Thread) × (m.shared.threads x ≡ some t) × (t.status ≡ waiting)
  pub distinct : (i j x : ℕ) → get_elem? l i ≡ some x → get_elem? l j ≡ some x → i ≡ j
  pub runs :
      (c : ℕ)
      → (m.cores c).running_thread ≢ 0
      → Stored m.shared.threads (m.cores c).running_thread
        × Stored m.shared.processes (m.cores c).running_process
  pub apart : (c i : ℕ) → get_elem? l i ≢ some (m.cores c).running_thread
  pub exclusive :
      (c d : ℕ)
      → (m.cores c).running_thread ≢ 0
      → (m.cores c).running_thread ≡ (m.cores d).running_thread
      → c ≡ d

-- Where an element of two lists stands.
pub append_cases :
    (xs ys : List ℕ) (i x : ℕ)
    → get_elem? (xs ++ ys) i ≡ some x
    → (get_elem? xs i ≡ some x) ⊎ ((j : ℕ) × (get_elem? ys j ≡ some x) × (i ≡ length xs + j))
append_cases [] ys i x e = inr (i, e, omega arith)
append_cases (y ∷ xs) ys zero x e = inl e
append_cases (y ∷ xs) ys (suc i) x e = elim (append_cases xs ys i x e) [
  | inl h ↦ inl h
  | inr (j, h, k) ↦ inr (j, h, omega arith)
]

pub get_elem?-append :
    (xs ys : List ℕ) (i x : ℕ) → get_elem? xs i ≡ some x → get_elem? (xs ++ ys) i ≡ some x
get_elem?-append [] ys i x e = absurd (cc)
get_elem?-append (y ∷ xs) ys zero x e = e
get_elem?-append (y ∷ xs) ys (suc i) x e = get_elem?-append xs ys i x e

-- What the interrupt does with the first thread that waits.
pub record Starts (m : Machine) (core : ℕ) (regs : Context) (x : ℕ) (xs : List ℕ) (m' : Machine)
    : Type 0 where
  pub thread : (m'.cores core).running_thread ≡ x
  pub elsewhere : (c : ℕ) → c ≢ core → m'.cores c ≡ m.cores c
  pub ready : IsReady m' (xs ++ left_behind (m.cores core).running_thread m.shared.threads)
  pub saved :
      (i y : ℕ)
      → get_elem? (left_behind (m.cores core).running_thread m.shared.threads) i ≡ some y
      → (y ≡ (m.cores core).running_thread)
        × (t : Thread) × (m'.shared.threads y ≡ some t)
        × (t.regs ≡ regs)
  pub others :
      (y : ℕ) → y ≢ x → y ≢ (m.cores core).running_thread → m'.shared.threads y ≡ m.shared.threads y

-- What a core runs after an interrupt on one core.
pub core_cases :
    (cores : ℕ → Cpu) (core c : ℕ) (v : Cpu)
    → ((c ≡ core) × (update cores core v c ≡ v)) ⊎ ((c ≢ core) × (update cores core v c ≡ cores c))
core_cases cores core c v = elim (Bool-cases (c == core)) [
  | inl h ↦ inl ((==_iff c core).0 h, rw h)
  | inr h ↦ inr (ground arith, rw h)
]
