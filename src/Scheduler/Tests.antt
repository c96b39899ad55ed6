-- ===== src/Scheduler/Tests.antt =====
-- The theorems on src/kernel/scheduler/scheduler.cpp at a machine with three threads.
use toystar.Prelude.{
  ℕ, zero, suc, ◌+◌, ◌*◌, ◌<◌, ◌≡◌, ◌≢◌, refl, sym, false, Option, some, ◌⊎◌, inl, inr, List, [],
  ◌∷◌, ◌==◌, if◌then◌else◌, get_elem?, Bool-cases, arith,
}
use mathlib.Core.Path.{subst}
use toystar.Prelude.Outcome.{done, fault}
use toystar.Klibc.Vector.{Vector, vector}
use toystar.Klibc.Vector.Laws.{Holds, vector-Holds}
use toystar.Scheduler.{Context, waiting, running, Thread, Process}
use toystar.Scheduler.Links.{IsLinked}
use toystar.Scheduler.Switch.{nothing}
use toystar.Scheduler.Machine.{Machine, interrupt, IsReady}
use toystar.Scheduler.Stay.{interrupt-stays}
use toystar.Scheduler.Rounds.{interrupts, interrupt-IsReady, waiting_runs, preempted_resumes}
use toystar.Scheduler.Tasks.{zero_context}

abbrev pub regs_of : ℕ → Context
regs_of p = record zero_context { rip = 4096 * p }

abbrev pub thread : ℕ → Thread
thread p = record {
  tid = p;
  status = if p == 100 then running else waiting;
  parent_process = 200;
  regs = regs_of p;
}

abbrev pub pair : ℕ → ℕ → Vector ℕ
pair x y = record { m_data = x ∷ y ∷ []; m_capacity = 2; m_is_empty = false }

abbrev pub process : Process
process = record {
  pid = 1;
  status = running;
  process_directory = 300;
  threads = pair 100 101;
  fd_list = pair 500 501;
  pagemap = 400;
}

-- Core 0 runs the thread 100, and `l` wait.
abbrev pub machine : Vector ℕ → Machine
machine waiting_queue = record {
  cores = λ c. record {
    running_process = if c == 0 then 200 else 0;
    running_thread = if c == 0 then 100 else 0;
    working_dir = 300;
    pagemap = 400;
  };
  shared = record {
    threads = λ p. some (thread p);
    processes = λ p. some process;
    waiting_queue = waiting_queue;
    process_list = record { m_data = 200 ∷ []; m_capacity = 1; m_is_empty = false };
    descriptions = λ p. some (record { file = p; mode = 6; offset = 0 });
    sched_lock = false;
    pid_bitmap = λ i. if i == 0 then 192 else 0;
    tid_bitmap = λ i. if i == 0 then 192 else 0;
    pid_lock = false;
    tid_lock = false;
  };
}

pub pair-Holds : (x y : ℕ) → Holds (pair x y) (x ∷ y ∷ [])
pair-Holds x y = record { elements = refl; capacity = refl; is_empty = refl }

linked : (q : Vector ℕ) → IsLinked (machine q).shared.threads (machine q).shared.processes
linked q = record {
  parents = λ p t e. (process, refl);
  members = λ a r e.
      let same : process ≡ r = cc in
      (
        100 ∷ 101 ∷ [],
        subst (λ v. Holds v.threads (100 ∷ 101 ∷ [])) same (pair-Holds 100 101),
        λ i x z. inr (thread x, refl),
      );
}

pub exclusive :
    (q : Vector ℕ) (c d : ℕ)
    → ((machine q).cores c).running_thread ≢ 0
    → ((machine q).cores c).running_thread ≡ ((machine q).cores d).running_thread
    → c ≡ d
exclusive q c d ne e = elim (Bool-cases (c == 0)) [
  | inl b ↦ elim (Bool-cases (d == 0)) [
    | inl b' ↦ ground arith
    | inr b' ↦
        let first : ((machine q).cores c).running_thread ≡ 100 = rw b refl in
        let second : ((machine q).cores d).running_thread ≡ 0 = rw b' refl in
        absurd (omega (arith, first, second, e))
  ]
  | inr b ↦ absurd (ne (rw b))
]

pub place : (i x : ℕ) → get_elem? (101 ∷ 102 ∷ []) i ≡ some x → (x ≡ 101 + i) × (i < 2)
place zero x e = let q : 101 ≡ x = cc in (sym q, omega arith)
place (suc zero) x e = let q : 102 ≡ x = cc in (sym q, omega arith)
place (suc (suc i)) x e = absurd (cc)

pub two-IsReady : IsReady (machine (pair 101 102)) (101 ∷ 102 ∷ [])
two-IsReady = record {
  linked = linked (pair 101 102);
  queue = pair-Holds 101 102;
  unlocked = refl;
  waits = λ i x e.
      let (q, s) = place i x e in
      let b : (x == 100) ≡ false = ground arith in ((λ z. omega arith), thread x, refl, rw b);
  distinct = λ i j x e f. omega (arith, place i x e, place j x f);
  runs =
      λ c ne. ((thread ((machine (pair 101 102)).cores c).running_thread, refl), (process, refl));
  apart = λ c i e.
      let (q, s) = place i ((machine (pair 101 102)).cores c).running_thread e in
      elim (Bool-cases (c == 0)) [
        | inl b ↦
            let first : ((machine (pair 101 102)).cores c).running_thread ≡ 100 = rw b refl in
            omega (arith, first, q)
        | inr b ↦
            let none_runs : ((machine (pair 101 102)).cores c).running_thread ≡ 0 = rw b refl in
            omega (arith, none_runs, q)
      ];
  exclusive = exclusive (pair 101 102);
}

empty-IsReady : IsReady (machine vector) []
empty-IsReady = record {
  linked = linked vector;
  queue = vector-Holds;
  unlocked = refl;
  waits = λ i x e. nothing i x e;
  distinct = λ i j x e f. nothing i x e;
  runs = λ c ne. ((thread ((machine vector).cores c).running_thread, refl), (process, refl));
  apart = λ c i e. nothing i ((machine vector).cores c).running_thread e;
  exclusive = exclusive vector;
}

abbrev waiting_threads : List ℕ
waiting_threads = 101 ∷ 102 ∷ []

interrupt-IsReady_example :
    ((waiting_threads ≡ [])
      × (((machine (pair 101 102)).cores 1).running_thread ≡ 0)
      × (interrupt 7 1 (regs_of 5) (machine (pair 101 102)) ≡ fault))
    ⊎ ((out : Option Context) × (m' : Machine) × (l' : List ℕ) × (interrupt 7 1
            (regs_of 5)
            (machine (pair 101 102))
          ≡ done (out, m'))
        × IsReady m' l')
interrupt-IsReady_example =
    interrupt-IsReady 7 1 (regs_of 5) (machine (pair 101 102)) (101 ∷ 102 ∷ []) two-IsReady

-- The second thread that waits starts at the second interrupt, which is on core 1.
waiting_runs_example :
    (m1 : Machine) × (m2 : Machine) × (interrupts 7 ((0, regs_of 5) ∷ []) (machine (pair 101 102))
      ≡ done m1)
    × (interrupt 7 1 (regs_of 6) m1 ≡ done (some (regs_of 102), m2))
    × ((m2.cores 1).running_thread ≡ 102)
waiting_runs_example =
    waiting_runs 7 1 ((0, regs_of 5) ∷ []) 1 (regs_of 6) (machine (pair 101 102)) (101 ∷ 102 ∷ [])
      102 (thread 102) two-IsReady refl refl refl

-- Thread 100 is taken from core 0, and core 3 goes on with it.
preempted_resumes_example :
    (m1 : Machine) × (m2 : Machine) × (interrupts 7
        ((0, regs_of 5) ∷ (2, regs_of 6) ∷ [])
        (machine (pair 101 102))
      ≡ done m1)
    × (interrupt 7 3 (regs_of 8) m1 ≡ done (some (regs_of 5), m2))
    × ((m2.cores 3).running_thread ≡ 100)
preempted_resumes_example =
    preempted_resumes 7 0 (regs_of 5) ((2, regs_of 6) ∷ []) 3 (regs_of 8) (machine (pair 101 102))
      101 (102 ∷ []) (thread 100) two-IsReady (λ z. omega arith) refl refl refl

interrupt-stays_example :
    (m' : Machine) × (interrupt 7 0 (regs_of 5) (machine vector) ≡ done (some (regs_of 5), m'))
    × IsReady m' []
    × ((m'.cores 0).running_thread ≡ 100)
    × (t : Thread) × (m'.shared.threads 100 ≡ some t)
    × (t.status ≡ running)
interrupt-stays_example =
    interrupt-stays 7 0 (regs_of 5) (machine vector) (thread 100) empty-IsReady (λ z. omega arith)
      refl
