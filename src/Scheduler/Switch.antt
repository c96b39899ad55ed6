-- ===== src/Scheduler/Switch.antt =====
-- The parts of `reschedule` of src/kernel/scheduler/scheduler.cpp.
use toystar.Prelude.{
  ℕ, zero, suc, ◌≡◌, ◌≢◌, refl, sym, ◌∙◌, ap, true, false, Option, none, some, inl, inr, List, [],
  ◌∷◌, ◌++◌, ◌==◌, if◌then◌else◌, get_elem?, Bool-cases, arith,
}
use mathlib.Core.Path.{subst}
use toystar.Prelude.Outcome.{done}
use toystar.Klibc.Vector.Laws.{Holds}
use toystar.Klibc.Queue.{Queue}
use toystar.Klibc.Queue.Laws.{push-Holds}
use toystar.Scheduler.{
  Context, waiting, running, dead, is_dying, Thread, Process, Cpu, Sched, put_thread, put_process,
  requeue, switch_out, switch_in,
}
use toystar.Scheduler.Links.{
  Stored, IsLinked, update_self, update-ne, update-Stored, put_thread-IsLinked,
  put_process-IsLinked, thread_at-done, process_at-done, any_running-IsLinked,
}

-- The thread `prev` as a list, unless it is the null pointer or dying.
abbrev pub left_behind : ℕ → (ℕ → Option Thread) → List ℕ
left_behind prev threads = if prev == 0 then [] else unless_dying (threads prev)
  where
    unless_dying : Option Thread → List ℕ
    unless_dying none = []
    unless_dying (some t) = if is_dying t.status then [] else prev ∷ []

-- What `switch_out` leaves for the thread `prev`: it waits behind the others with the registers of the
-- interrupt, unless it is dying; other threads are as they were.
pub record Out (regs : Context) (prev : ℕ) (s s' : Sched) (xs : List ℕ) : Type 0 where
  pub linked : IsLinked s'.threads s'.processes
  pub queue : Holds s'.waiting_queue (xs ++ left_behind prev s.threads)
  pub others : (y : ℕ) → y ≢ prev → s'.threads y ≡ s.threads y
  pub stays : (y : ℕ) → Stored s.threads y → Stored s'.threads y
  pub kept : (a : ℕ) → Stored s.processes a → Stored s'.processes a
  pub returned :
      (i y : ℕ)
      → get_elem? (left_behind prev s.threads) i ≡ some y
      → (i ≡ 0)
        × (y ≡ prev)
        × (prev ≢ 0)
        × (t : Thread) × (s'.threads prev ≡ some t)
        × (t.status ≡ waiting)
        × (t.regs ≡ regs)

pub nothing : {P : Type 0} (i y : ℕ) → get_elem? {A = ℕ} [] i ≡ some y → P
nothing i y e = absurd (cc)

back_null :
    (prev : ℕ) (threads : ℕ → Option Thread) → (prev == 0) ≡ true → left_behind prev threads ≡ []
back_null prev threads z = rw z

back_dying :
    (prev : ℕ) (threads : ℕ → Option Thread) (t : Thread)
    → (prev == 0) ≡ false
    → threads prev ≡ some t
    → is_dying t.status ≡ true
    → left_behind prev threads ≡ []
back_dying prev threads t z e d = rw (z, e, d)

pub back_waits :
    (prev : ℕ) (threads : ℕ → Option Thread) (t : Thread)
    → (prev == 0) ≡ false
    → threads prev ≡ some t
    → is_dying t.status ≡ false
    → left_behind prev threads ≡ prev ∷ []
back_waits prev threads t z e d = rw (z, e, d)

append_nil : (xs : List ℕ) → xs ≡ xs ++ []
append_nil [] = refl
append_nil (x ∷ xs) = ap (λ l. x ∷ l) (append_nil xs)

no_back :
    (q : Queue ℕ) (xs : List ℕ) (prev : ℕ) (threads : ℕ → Option Thread)
    → left_behind prev threads ≡ []
    → Holds q xs
    → Holds q (xs ++ left_behind prev threads)
no_back q xs prev threads b k = subst (Holds q) (append_nil xs ∙ ap (λ l. xs ++ l) (sym b)) k

pub one : (p i y : ℕ) → get_elem? (p ∷ []) i ≡ some y → (i ≡ 0) × (y ≡ p)
one p zero y e = (refl, cc)
one p (suc i) y e = absurd (cc)

requeue-Out :
    (regs : Context) (t : Thread) (current : Cpu) (s : Sched) (xs : List ℕ)
    → IsLinked s.threads s.processes
    → Holds s.waiting_queue xs
    → current.running_thread ≢ 0
    → s.threads current.running_thread ≡ some t
    → Stored s.processes current.running_process
    → left_behind current.running_thread s.threads ≡ current.running_thread ∷ []
    → (s' : Sched) × (requeue regs t current s ≡ done s') × Out regs current.running_thread s s' xs
unfolding requeue
requeue-Out regs t current s xs h k ne e (p, f) b =
    let prev = current.running_thread in
    let t' : Thread = record t { status = waiting; regs = regs } in
    let s1 = put_thread prev t' s in
    let h1 = put_thread-IsLinked s.threads s.processes prev t t' h e refl in
    let (busy, g) = any_running-IsLinked s1 current.running_process p h1 f in
    let p' : Process = record p { status = if busy then running else waiting } in
    let (q, i, k') = push-Holds 0 prev s.waiting_queue xs k in
    (
      record (put_process current.running_process p' s1) { waiting_queue = q },
      rw (process_at-done current.running_process s1 p f, g, i),
      record {
        linked = put_process-IsLinked s1.threads s.processes current.running_process p p' h1 f refl;
        queue = subst (λ l. Holds q (xs ++ l)) (sym b) k';
        others = λ y. update-ne s.threads prev y (some t');
        stays = λ y. update-Stored s.threads prev y t';
        kept = λ a. update-Stored s.processes current.running_process a p';
        returned = λ j y d.
            let (z, w) = one prev j y (ap (λ l. get_elem? l j) (sym b) ∙ d) in
            (z, w, ne, t', update_self s.threads prev t', refl, refl);
      },
    )

pub switch_out-Out :
    (regs : Context) (x : ℕ) (current : Cpu) (s : Sched) (xs : List ℕ)
    → IsLinked s.threads s.processes
    → Holds s.waiting_queue xs
    → current.running_thread ≢ x
    → (current.running_thread ≢ 0
        → Stored s.threads current.running_thread × Stored s.processes current.running_process)
    → (s' : Sched) × (switch_out regs x current s ≡ done s')
      × Out regs current.running_thread s s' xs
unfolding switch_out
switch_out-Out regs x current s xs h k apart alive =
    let prev = current.running_thread in
    let other : (prev == x) ≡ false = ground arith in
    elim (Bool-cases (prev == 0)) [
      | inl z ↦ (
        s,
        rw z,
        record {
          linked = h;
          queue = no_back s.waiting_queue xs prev s.threads (back_null prev s.threads z) k;
          others = λ y ne. refl;
          stays = λ y a. a;
          kept = λ y a. a;
          returned =
              λ i y a. nothing i y (ap (λ l. get_elem? l i) (sym (back_null prev s.threads z)) ∙ a);
        },
      )
      | inr z ↦
          let ne : prev ≢ 0 = ground arith in
          let ((t, e), p) = alive ne in
          elim (Bool-cases (is_dying t.status)) [
            | inl d ↦
                let t' : Thread = record t { status = dead } in
                (
                  put_thread prev t' s,
                  rw (z, other, thread_at-done prev s t e, d),
                  record {
                    linked = put_thread-IsLinked s.threads s.processes prev t t' h e refl;
                    queue =
                        no_back s.waiting_queue xs prev s.threads
                          (back_dying prev s.threads t z e d) k;
                    others = λ y. update-ne s.threads prev y (some t');
                    stays = λ y. update-Stored s.threads prev y t';
                    kept = λ y a. a;
                    returned = λ i y a.
                        nothing i y
                          (ap (λ l. get_elem? l i) (sym (back_dying prev s.threads t z e d)) ∙ a);
                  },
                )
            | inr d ↦
                let (s', g, out) =
                  requeue-Out regs t current s xs h k ne e p (back_waits prev s.threads t z e d) in
                (s', rw (z, other, thread_at-done prev s t e, d, g), out)
          ]
    ]

-- What `switch_in` leaves for the thread `x`, whose registers were `regs`.
pub record In (x : ℕ) (s : Sched) (xs : List ℕ) (regs : Context) (r : Context × Cpu × Sched)
    : Type 0 where
  pub loaded : r.0 ≡ regs
  pub thread : r.1.running_thread ≡ x
  pub state : (t : Thread) × (r.2.threads x ≡ some t) × (t.status ≡ running)
  pub process : Stored r.2.processes r.1.running_process
  pub linked : IsLinked r.2.threads r.2.processes
  pub queue : Holds r.2.waiting_queue xs
  pub unlocked : r.2.sched_lock ≡ false
  pub others : (y : ℕ) → y ≢ x → r.2.threads y ≡ s.threads y
  pub stays : (y : ℕ) → Stored s.threads y → Stored r.2.threads y
  pub kept : (a : ℕ) → Stored s.processes a → Stored r.2.processes a

pub switch_in-In :
    (x : ℕ) (s : Sched) (xs : List ℕ) (t : Thread)
    → IsLinked s.threads s.processes
    → Holds s.waiting_queue xs
    → s.threads x ≡ some t
    → (r : Context × Cpu × Sched) × (switch_in x s ≡ done r) × In x s xs t.regs r
unfolding switch_in
switch_in-In x s xs t h k e =
    let (p, f) = h.parents x t e in
    let p' : Process = record p { status = running } in
    let t' : Thread = record t { status = running } in
    let s2 = put_thread x t' (put_process t.parent_process p' s) in
    let h1 = put_process-IsLinked s.threads s.processes t.parent_process p p' h f refl in
    (
      (
        t.regs,
        record {
          running_process = t.parent_process;
          running_thread = x;
          working_dir = p.process_directory;
          pagemap = p.pagemap;
        },
        record s2 { sched_lock = false },
      ),
      rw (thread_at-done x s t e, process_at-done t.parent_process s p f),
      record {
        loaded = refl;
        thread = refl;
        state = (t', update_self s.threads x t', refl);
        process = (p', update_self s.processes t.parent_process p');
        linked = put_thread-IsLinked s.threads s2.processes x t t' h1 e refl;
        queue = k;
        unlocked = refl;
        others = λ y. update-ne s.threads x y (some t');
        stays = λ y. update-Stored s.threads x y t';
        kept = λ a. update-Stored s.processes t.parent_process a p';
      },
    )
