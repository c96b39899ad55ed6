-- ===== src/Scheduler/Tasks/Exit.antt =====
-- The end of a process with one thread, in src/kernel/scheduler/scheduler.cpp.
use toystar.Prelude.{
  ℕ, ◌≡◌, ◌≢◌, refl, sym, ◌∙◌, ap, true, false, Option, none, some, inl, inr, List, [], ◌∷◌, ◌==◌,
  get_elem?, Bool-cases, ==_refl, arith,
}
use mathlib.Core.Path.{subst}
use toystar.Prelude.Outcome.{done, ◌>>=◌}
use toystar.Prelude.Word.{update}
use toystar.Lock.{LockT, acquire, test_and_set, release}
use toystar.Klibc.Bitmap.{clear_bit}
use toystar.Klibc.Vector.{Vector}
use toystar.Klibc.Vector.Laws.{Holds}
use toystar.Klibc.Vector.Access.{at-Holds}
use toystar.Scheduler.{Thread, Process, Cpu, Sched, process_at}
use toystar.Scheduler.Links.{Stored, IsLinked, update-ne, process_at-done, thread_at-done}
use toystar.Scheduler.Machine.{Machine, IsReady, core_cases}
use toystar.Scheduler.Tasks.Erase.{erase_where-done, delete_fds-done}
use toystar.Scheduler.Tasks.{end_thread, end_threads, exit_process}

-- What a store has after an object is deleted.
removed-cases {ℓ} :
    {A : Type ℓ} (store : ℕ → Option A) (x p : ℕ) (u : A)
    → update store x none p ≡ some u
    → (p ≢ x) × (store p ≡ some u)
removed-cases store x p u e = elim (Bool-cases (p == x)) [
  | inl b ↦ absurd (cc)
  | inr b ↦ (ground arith, cc)
]

removed-Stored {ℓ} :
    {A : Type ℓ} (store : ℕ → Option A) (x p : ℕ)
    → p ≢ x
    → Stored store p
    → Stored (update store x none) p
removed-Stored store x p ne (u, e) = (u, update-ne store x p none ne ∙ e)

-- The process `a` of the thread `x` has no other thread, and no other core runs it; what
-- `process_list` and its descriptors hold is alive.
pub record IsAlone (m : Machine) (core : ℕ) (t : Thread) (proc : Process) : Type 0 where
  pub thread : m.shared.threads (m.cores core).running_thread ≡ some t
  pub process : m.shared.processes (m.cores core).running_process ≡ some proc
  pub only : Holds proc.threads ((m.cores core).running_thread ∷ [])
  pub fds : (xs : List ℕ) × Holds proc.fd_list xs
  pub listed :
      (ps : List ℕ) × Holds m.shared.process_list ps
      × ((j p : ℕ) → get_elem? ps j ≡ some p → Stored m.shared.processes p)
  pub owns :
      (p : ℕ) (u : Thread)
      → m.shared.threads p ≡ some u
      → u.parent_process ≡ (m.cores core).running_process
      → p ≡ (m.cores core).running_thread
  pub owned :
      (b : ℕ) (q : Process) (ys : List ℕ) (i : ℕ)
      → m.shared.processes b ≡ some q
      → b ≢ (m.cores core).running_process
      → Holds q.threads ys
      → get_elem? ys i ≢ some (m.cores core).running_thread
  pub elsewhere :
      (c : ℕ)
      → c ≢ core
      → (m.cores c).running_thread ≢ 0
      → (m.cores c).running_process ≢ (m.cores core).running_process

end_threads-one :
    (past : ℕ) (v : Vector ℕ) (current : Cpu) (s : Sched) (t : Thread)
    → Holds v (current.running_thread ∷ [])
    → s.threads current.running_thread ≡ some t
    → end_threads past v.m_capacity 0 v current s
      ≡ done (record s {
        tid_bitmap = clear_bit s.tid_bitmap t.tid;
        threads = update s.threads current.running_thread none;
      })
unfolding end_threads end_thread
end_threads-one past v current s t h e =
    let found = at-Holds v (current.running_thread ∷ []) 0 current.running_thread h refl in
    let here = thread_at-done current.running_thread s t e in
    ap (λ n. end_threads past n 0 v current s) h.capacity ∙ rw (found, here, ==_refl t.tid)

removed-IsLinked :
    (m : Machine) (core : ℕ) (t : Thread) (proc : Process)
    → IsLinked m.shared.threads m.shared.processes
    → IsAlone m core t proc
    → IsLinked
        (update m.shared.threads (m.cores core).running_thread none)
        (update m.shared.processes (m.cores core).running_process none)
removed-IsLinked m core t proc h o =
    let x = (m.cores core).running_thread in
    let a = (m.cores core).running_process in
    record {
      parents = λ p u f.
          let (ne, f') = removed-cases m.shared.threads x p u f in
          removed-Stored m.shared.processes a u.parent_process (λ z. ne (o.owns p u f' z))
            (h.parents p u f');
      members = λ b q f.
          let (ne, f') = removed-cases m.shared.processes a b q f in
          let (ys, k, alive) = h.members b q f' in
          (
            ys,
            k,
            λ i y g. elim (alive i y g) [
              | inl z ↦ inl z
              | inr z ↦ inr (
                  removed-Stored m.shared.threads x y
                    (λ w. o.owned b q ys i f' ne k (g ∙ ap some w)) z)
            ],
          );
    }

-- The cores after one of them stops running its thread.
module _ (m : Machine) (core : ℕ) (l : List ℕ) (h : IsReady m l) (v : Cpu)
    (idle : v.running_thread ≡ 0) where
  idle_apart : (c i : ℕ) → get_elem? l i ≢ some (update m.cores core v c).running_thread
  idle_apart c i e = elim (core_cases m.cores core c v) [
    | inl (z, f) ↦ (h.waits i 0 (e ∙ ap (λ w. some w.running_thread) f ∙ ap some idle)).0 refl
    | inr (z, f) ↦ h.apart c i (e ∙ ap (λ w. some w.running_thread) f)
  ]

  idle_exclusive :
      (c d : ℕ)
      → (update m.cores core v c).running_thread ≢ 0
      → (update m.cores core v c).running_thread ≡ (update m.cores core v d).running_thread
      → c ≡ d
  idle_exclusive c d ne e = elim (core_cases m.cores core c v) [
    | inl (z, f) ↦ absurd (ne (ap (λ w. w.running_thread) f ∙ idle))
    | inr (z, f) ↦ elim (core_cases m.cores core d v) [
      | inl (w, g) ↦ absurd (ne (e ∙ ap (λ w. w.running_thread) g ∙ idle))
      | inr (w, g) ↦
          h.exclusive c d (λ n. ne (ap (λ w. w.running_thread) f ∙ n))
            (sym (ap (λ w. w.running_thread) f) ∙ e ∙ ap (λ w. w.running_thread) g)
    ]
  ]

  idle_runs :
      (t : Thread) (proc : Process)
      → IsAlone m core t proc
      → (c : ℕ) → (update m.cores core v c).running_thread ≢ 0
      → Stored
          (update m.shared.threads (m.cores core).running_thread none)
          (update m.cores core v c).running_thread
        × Stored
            (update m.shared.processes (m.cores core).running_process none)
            (update m.cores core v c).running_process
  idle_runs t proc o c ne = elim (core_cases m.cores core c v) [
    | inl (z, f) ↦ absurd (ne (ap (λ w. w.running_thread) f ∙ idle))
    | inr (z, f) ↦
        let ne' : (m.cores c).running_thread ≢ 0 = λ n. ne (ap (λ w. w.running_thread) f ∙ n) in
        let (a, b) = h.runs c ne' in
        (
          subst (Stored (update m.shared.threads (m.cores core).running_thread none))
              (sym (ap (λ w. w.running_thread) f))
              (removed-Stored m.shared.threads (m.cores core).running_thread
                (m.cores c).running_thread (λ n. z (h.exclusive c core ne' n)) a),
          subst (Stored (update m.shared.processes (m.cores core).running_process none))
              (sym (ap (λ w. w.running_process) f))
              (removed-Stored m.shared.processes (m.cores core).running_process
                (m.cores c).running_process (o.elsewhere c z ne') b),
        )
  ]

acquired : (lock : LockT) → lock ≡ false → acquire lock ≡ done true
unfolding acquire test_and_set
acquired lock free = rw free

-- Where `IsReady` holds, `exit_process` ends for a process with one thread that no other core runs. The
-- thread and the process are deleted, the bits of their numbers cleared, the core runs no thread, and
-- `IsReady` holds with the same threads that wait.
pub exit_process-IsReady :
    (past core : ℕ) (m : Machine) (l : List ℕ) (t : Thread) (proc : Process)
    → IsReady m l
    → IsAlone m core t proc
    → (current' : Cpu) × (s' : Sched) × (exit_process past (m.cores core) m.shared
        ≡ done (current', s'))
      × (current'.running_thread ≡ 0)
      × (s'.threads ≡ update m.shared.threads (m.cores core).running_thread none)
      × (s'.processes ≡ update m.shared.processes (m.cores core).running_process none)
      × (s'.pid_bitmap ≡ clear_bit m.shared.pid_bitmap proc.pid)
      × (s'.tid_bitmap ≡ clear_bit m.shared.tid_bitmap t.tid)
      × IsReady (record { cores = update m.cores core current'; shared = s' }) l
unfolding exit_process release
exit_process-IsReady past core m l t proc h o =
    let s = m.shared in
    let current = m.cores core in
    let x = current.running_thread in
    let (ps, pk, stored) = o.listed in
    let (list, e) =
      erase_where-done past s.process_list.m_capacity 0
        (λ p. process_at p s >>= λ q. done (q.pid == proc.pid)) s.process_list ps pk
        (λ j p f. let (q, g) = stored j p f in (q.pid == proc.pid, rw (process_at-done p s q g))) in
    let (xs, fk) = o.fds in
    let (ds, g) =
      delete_fds-done proc.fd_list.m_capacity 0 proc.fd_list xs s.descriptions fk
        (omega (arith, fk.capacity)) in
    let ended =
      end_threads-one past proc.threads current
        (record s { process_list = list; sched_lock = true }) t o.only o.thread in
    let current' : Cpu = record current { running_thread = 0; running_process = 0 } in
    let s' : Sched = record s {
      process_list = list;
      sched_lock = false;
      tid_bitmap = clear_bit s.tid_bitmap t.tid;
      threads = update s.threads x none;
      descriptions = ds;
      pid_bitmap = clear_bit s.pid_bitmap proc.pid;
      processes = update s.processes current.running_process none;
    } in
    (
      current',
      s',
      rw (
        acquired s.sched_lock h.unlocked,
        process_at-done current.running_process s proc o.process,
        e,
        ended,
        g,
      ),
      refl,
      refl,
      refl,
      refl,
      refl,
      record {
        linked = removed-IsLinked m core t proc h.linked o;
        queue = h.queue;
        unlocked = refl;
        waits = λ i y f.
            let (nonzero, u, k, w) = h.waits i y f in
            (nonzero, u, update-ne s.threads x y none (λ z. h.apart core i (f ∙ ap some z)) ∙ k, w);
        distinct = h.distinct;
        runs = idle_runs m core l h current' refl t proc o;
        apart = idle_apart m core l h current' refl;
        exclusive = idle_exclusive m core l h current' refl;
      },
    )
