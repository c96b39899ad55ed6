-- ===== src/Scheduler/Tasks/Tests.antt =====
-- The theorems on new and ended processes of src/kernel/scheduler/scheduler.cpp at a small machine.
use toystar.Prelude.{
  ℕ, suc, ◌+◌, ◌-◌, ◌*◌, ◌<◌, ◌≡◌, refl, sym, ap, false, none, some, inl, inr, [], ◌∷◌, ◌==◌,
  if◌then◌else◌, get_elem?, Bool-cases, arith,
}
use mathlib.Core.Path.{subst}
use toystar.Prelude.Outcome.{done, fault, ◌>>=◌}
use toystar.Klibc.Vector.{vector, at, erase, push_back}
use toystar.Klibc.Vector.Laws.{Holds, vector-Holds}
use toystar.Klibc.Bitmap.{allocate, is_bit_set}
use toystar.Scheduler.{waiting, Thread, Process, Cpu, Sched, reschedule, process_at, thread_at}
use toystar.Scheduler.Switch.{nothing}
use toystar.Scheduler.Switch.{one}
use toystar.Klibc.Bitmap.{clear_bit}
use toystar.Prelude.Word.{update}
use toystar.Scheduler.Machine.{Machine, IsReady}
use toystar.Scheduler.Tasks.{Fresh, syscall_fork, exit_process, create_process}
use toystar.Scheduler.Tasks.Joins.{IsNew}
use toystar.Scheduler.Tasks.Fork.{CanFork, syscall_fork-IsReady}
use toystar.Scheduler.Tests.{
  regs_of, thread, pair, process, machine, pair-Holds, two-IsReady, place, exclusive,
}
use toystar.Scheduler.Tasks.Exit.{IsAlone, exit_process-IsReady}
use toystar.Scheduler.Tasks.Arguments.{start_stack, start_stack-arguments}

abbrev allocated : Fresh
allocated = record { new_process = 201; main_thread = 103; stack = 0 }

allocated-IsNew : IsNew (machine (pair 101 102)) (101 ∷ 102 ∷ []) 103
allocated-IsNew = record {
  nonzero = λ z. omega arith;
  not_waiting = λ i e. omega (arith, place i 103 e);
  not_running = λ c e. elim (Bool-cases (c == 0)) [
    | inl b ↦
        let first : ((machine (pair 101 102)).cores c).running_thread ≡ 100 = rw b refl in
        omega (arith, first, e)
    | inr b ↦
        let none_runs : ((machine (pair 101 102)).cores c).running_thread ≡ 0 = rw b refl in
        omega (arith, none_runs, e)
  ];
}

can_fork : CanFork (machine (pair 101 102)).shared process 2 2
unfolding allocate is_bit_set
can_fork = record {
  pid_lock = refl;
  tid_lock = refl;
  pid_left = refl;
  tid_left = refl;
  list = (200 ∷ [], record { elements = refl; capacity = refl; is_empty = refl });
  open_fds = (
    500 ∷ 501 ∷ [],
    pair-Holds 500 501,
    λ i p e. (record { file = p; mode = 6; offset = 0 }, refl),
  );
}

syscall_fork-IsReady_example :
    (s' : Sched) × (t : Thread) × (child : Process) × (syscall_fork allocated
        (λ i. 600 + i)
        401
        (regs_of 5)
        ((machine (pair 101 102)).cores 0)
        (machine (pair 101 102)).shared
      ≡ done (record (regs_of 5) { rax = 2 }, s'))
    × IsReady (record (machine (pair 101 102)) { shared = s' }) (101 ∷ 102 ∷ 103 ∷ [])
    × (s'.threads 103 ≡ some t)
    × (t.tid ≡ 2)
    × (t.regs ≡ record (regs_of 5) { rax = 0 })
    × (t.status ≡ waiting)
    × (t.parent_process ≡ 201)
    × (s'.processes 201 ≡ some child)
    × (child.pid ≡ 2)
    × (child.process_directory ≡ process.process_directory)
    × (child.pagemap ≡ 401)
    × Holds child.threads (103 ∷ [])
    × Holds child.fd_list (600 ∷ 601 ∷ [])
    × Holds s'.process_list (200 ∷ 201 ∷ [])
unfolding can_fork
syscall_fork-IsReady_example =
    syscall_fork-IsReady allocated (λ i. 600 + i) 401 0 (regs_of 5) (machine (pair 101 102))
      (101 ∷ 102 ∷ []) process 2 2 two-IsReady allocated-IsNew refl can_fork

-- A program called with the arguments 11 and 22.
start_stack-arguments_example :
    (memory' : ℕ → ℕ) × (start_stack (11 ∷ 22 ∷ 0 ∷ []) 0x800008000 (0x7000 + 8 * 3) (λ a. 0)
      ≡ done (0x800008000 - 8 * 3, memory'))
    × (memory' 0x7000 ≡ 2)
    × ((k : ℕ)
        → k < 2
        → get_elem? (11 ∷ 22 ∷ 0 ∷ []) (suc k) ≡ some (memory' (0x7000 + 8 * (k + 1))))
start_stack-arguments_example =
    start_stack-arguments (11 ∷ 22 ∷ []) 0x800008000 0x7000 (λ a. 0)
      ((λ z. omega arith), ((λ z. omega arith), record {})) (omega arith) (omega arith)
      (omega arith)

abbrev single : Sched
single = record ((machine vector).shared) {
  threads = λ p. if p == 100 then some (thread 100) else none;
  processes = λ p.
      if p == 200
      then some (record process {
        threads = record { m_data = 100 ∷ []; m_capacity = 1; m_is_empty = false };
      })
      else none;
}

abbrev single_core : Cpu
single_core = record { running_process = 200; running_thread = 100; working_dir = 0; pagemap = 0 }

exit_process_test :
    (exit_process 7 single_core single >>= λ r.
    done (r.0.running_thread ∷ r.1.process_list.m_capacity ∷ []))
    ≡ done (0 ∷ 0 ∷ [])
unfolding exit_process process_at thread_at at erase
exit_process_test = refl

-- After the end of the last process the next timer interrupt faults.
exit_then_idle_test :
    (exit_process 7 single_core single >>= λ r. reschedule 7 (regs_of 5) r.0 r.1) ≡ fault
unfolding exit_process reschedule vector process_at thread_at at erase
exit_then_idle_test = refl

create_process_test :
    (create_process allocated (0, 0, 0) 0x400000 0x1B 401 300 single >>= λ r.
    thread_at 103 r.1 >>= λ t. done (r.0 ∷ t.tid ∷ t.regs.rsp ∷ t.regs.ss ∷ []))
    ≡ done (201 ∷ 2 ∷ 0x800008000 ∷ 0x23 ∷ [])
unfolding create_process thread_at is_bit_set push_back vector
create_process_test = refl

just_100 : (p : ℕ) (u : Thread) → single.threads p ≡ some u → (p ≡ 100) × (u ≡ thread 100)
just_100 p u e = elim (Bool-cases (p == 100)) [ inl b ↦ (ground arith, cc) | inr b ↦ absurd (cc) ]

abbrev single_process : Process
single_process = record process {
  threads = record { m_data = 100 ∷ []; m_capacity = 1; m_is_empty = false };
}

just_200 : (a : ℕ) (q : Process) → single.processes a ≡ some q → (a ≡ 200) × (q ≡ single_process)
just_200 a q e = elim (Bool-cases (a == 200)) [ inl b ↦ (ground arith, cc) | inr b ↦ absurd (cc) ]

abbrev single_machine : Machine
single_machine = record (machine vector) { shared = single }

one-Holds :
    (x : ℕ) → Holds (record { m_data = x ∷ []; m_capacity = 1; m_is_empty = false }) (x ∷ [])
one-Holds x = record { elements = refl; capacity = refl; is_empty = refl }

single-IsReady : IsReady single_machine []
single-IsReady = record {
  linked = record {
    parents = λ p t e.
        let (i, j) = just_100 p t e in
        (single_process, ap (λ u. single.processes u.parent_process) j);
    members = λ a q e.
        let (i, j) = just_200 a q e in
        (
          100 ∷ [],
          subst (λ v. Holds v.threads (100 ∷ [])) (sym j) (one-Holds 100),
          λ k x z. inr (thread 100, ap single.threads ((one 100 k x z).1)),
        );
  };
  queue = vector-Holds;
  unlocked = refl;
  waits = λ i x e. nothing i x e;
  distinct = λ i j x e f. nothing i x e;
  runs = λ c ne. elim (Bool-cases (c == 0)) [
    | inl b ↦ ((thread 100, rw b), (single_process, rw b))
    | inr b ↦ absurd (ne (rw b))
  ];
  apart = λ c i e. nothing i (single_machine.cores c).running_thread e;
  exclusive = exclusive vector;
}

single-IsAlone : IsAlone single_machine 0 (thread 100) single_process
single-IsAlone = record {
  thread = refl;
  process = refl;
  only = one-Holds 100;
  fds = (500 ∷ 501 ∷ [], pair-Holds 500 501);
  listed =
      (200 ∷ [], one-Holds 200, λ j p e. (single_process, ap single.processes ((one 200 j p e).1)));
  owns = λ p u e f. (just_100 p u e).0;
  owned = λ b q ys i e ne k f. ne (just_200 b q e).0;
  elsewhere = λ c ne n. elim (Bool-cases (c == 0)) [
    | inl b ↦ λ e. ne (ground arith)
    | inr b ↦ absurd (n (rw b))
  ];
}

exit_process-IsReady_example :
    (current' : Cpu) × (s' : Sched) × (exit_process 7 (single_machine.cores 0) single
      ≡ done (current', s'))
    × (current'.running_thread ≡ 0)
    × (s'.threads ≡ update single.threads 100 none)
    × (s'.processes ≡ update single.processes 200 none)
    × (s'.pid_bitmap ≡ clear_bit single.pid_bitmap 1)
    × (s'.tid_bitmap ≡ clear_bit single.tid_bitmap 100)
    × IsReady (record { cores = update single_machine.cores 0 current'; shared = s' }) []
exit_process-IsReady_example =
    exit_process-IsReady 7 0 single_machine [] (thread 100) single_process single-IsReady
      single-IsAlone
