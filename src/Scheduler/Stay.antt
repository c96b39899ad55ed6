-- ===== src/Scheduler/Stay.antt =====
-- `reschedule` of src/kernel/scheduler/scheduler.cpp where nothing waits.
use toystar.Prelude.{
  ℕ, ◌≡◌, ◌≢◌, refl, sym, ◌∙◌, ap, true, false, none, some, inl, inr, [], ◌==◌, if◌then◌else◌,
  Bool-cases, ==_refl, arith,
}
use mathlib.Core.Path.{subst}
use toystar.Prelude.Outcome.{done, fault}
use toystar.Prelude.Word.{update}
use toystar.Klibc.Vector.Laws.{Holds}
use toystar.Klibc.Queue.{value_or}
use toystar.Klibc.Queue.Laws.{pop-Holds}
use toystar.Lock.{acquire, test_and_set, release}
use toystar.Scheduler.{
  Context, running, dead, is_dying, Thread, Sched, thread_at, stay, switch_out, reschedule,
}
use toystar.Scheduler.Links.{
  Stored, IsLinked, update_self, update-Stored, put_thread-IsLinked, thread_at-done,
}
use toystar.Scheduler.Machine.{Machine, interrupt, IsReady, core_cases}
use toystar.Scheduler.Switch.{nothing, switch_in-In}

-- The cores run what they ran, and nothing waits.
same_threads-IsReady :
    (m m' : Machine)
    → IsReady m []
    → IsLinked m'.shared.threads m'.shared.processes
    → Holds m'.shared.waiting_queue []
    → m'.shared.sched_lock ≡ false
    → ((c : ℕ) → (m'.cores c).running_thread ≡ (m.cores c).running_thread)
    → ((c : ℕ)
        → (m.cores c).running_thread ≢ 0
        → Stored m'.shared.processes (m'.cores c).running_process)
    → ((y : ℕ) → Stored m.shared.threads y → Stored m'.shared.threads y)
    → IsReady m' []
same_threads-IsReady m m' h linked k free same processes stays = record {
  linked = linked;
  queue = k;
  unlocked = free;
  waits = λ i x e. nothing i x e;
  distinct = λ i j x e e'. nothing i x e;
  runs = λ c ne.
      let ne' : (m.cores c).running_thread ≢ 0 = λ z. ne (same c ∙ z) in
      (
        subst (Stored m'.shared.threads) (sym (same c))
            (stays (m.cores c).running_thread (h.runs c ne').0),
        processes c ne',
      );
  apart = λ c i e. nothing i (m'.cores c).running_thread e;
  exclusive = λ c d ne e. h.exclusive c d (λ z. ne (same c ∙ z)) (sym (same c) ∙ e ∙ same d);
}

-- With nothing that waits and no thread that runs, `reschedule` reads through a null pointer.
pub interrupt-idle :
    (past core : ℕ) (regs : Context) (m : Machine)
    → IsReady m []
    → (m.cores core).running_thread ≡ 0
    → interrupt past core regs m ≡ fault
unfolding reschedule acquire value_or stay
interrupt-idle past core regs m h z =
    let (q, p, k) = pop-Holds 0 past m.shared.waiting_queue [] h.queue in rw (h.unlocked, p, z)

-- Where `IsReady` holds, an interrupt on a core that runs a thread while nothing waits: a dying thread is dead then, but its core goes back to it; any
-- other thread goes on with the registers of the interrupt.
pub interrupt-stays :
    (past core : ℕ) (regs : Context) (m : Machine) (t : Thread)
    → IsReady m []
    → (m.cores core).running_thread ≢ 0
    → m.shared.threads (m.cores core).running_thread ≡ some t
    → (m' : Machine) × (interrupt past core regs m
        ≡ done ((if is_dying t.status then none else some regs), m'))
      × IsReady m' []
      × ((m'.cores core).running_thread ≡ (m.cores core).running_thread)
      × (t' : Thread) × (m'.shared.threads (m.cores core).running_thread ≡ some t')
      × (t'.status ≡ (if is_dying t.status then dead else running))
unfolding reschedule acquire test_and_set value_or stay switch_out release
interrupt-stays past core regs m t h ne e =
    let s = m.shared in
    let current = m.cores core in
    let prev = current.running_thread in
    let (q, p, k) = pop-Holds 0 past s.waiting_queue [] h.queue in
    let z : (prev == 0) ≡ false = ground arith in
    let alive : (s' : Sched) → s'.threads ≡ s.threads → thread_at prev s' ≡ done t =
      λ s' f. thread_at-done prev s' t (ap (λ g. g prev) f ∙ e) in
    elim (Bool-cases (is_dying t.status)) [
      | inl d ↦
          let t' : Thread = record t { status = dead } in
          let m' : Machine = record {
            cores = update m.cores core current;
            shared = record s {
              threads = update s.threads prev (some t');
              waiting_queue = q;
              sched_lock = false;
            };
          } in
          let same : (c : ℕ) → m'.cores c ≡ m.cores c = λ c.
            elim (core_cases m.cores core c current) [
              | inl (w, f) ↦ f ∙ ap m.cores (sym w)
              | inr (w, f) ↦ f
            ] in
          (
            m',
            rw (h.unlocked, p, z, alive, d),
            same_threads-IsReady m m' h
                (put_thread-IsLinked s.threads s.processes prev t t' h.linked e refl) k refl
                (λ c. ap (λ v. v.running_thread) (same c))
                (λ c n.
                  subst (Stored s.processes) (sym (ap (λ v. v.running_process) (same c)))
                    (h.runs c n).1)
                (λ y. update-Stored s.threads prev y t'),
            ap (λ v. v.running_thread) (same core),
            t',
            update_self s.threads prev t',
            rw d,
          )
      | inr d ↦
          let t' : Thread = record t { regs = regs } in
          let s1 : Sched = record s {
            threads = update s.threads prev (some t');
            waiting_queue = q;
            sched_lock = true;
          } in
          let (r, f, inn) =
            switch_in-In prev s1 [] t'
              (put_thread-IsLinked s.threads s.processes prev t t' h.linked e refl) k
              (update_self s.threads prev t') in
          let m' : Machine = record { cores = update m.cores core r.1; shared = r.2 } in
          let same : (c : ℕ) → (m'.cores c).running_thread ≡ (m.cores c).running_thread = λ c.
            elim (core_cases m.cores core c r.1) [
              | inl (w, g) ↦
                  ap (λ v. v.running_thread) g
                  ∙ inn.thread
                  ∙ ap (λ n. (m.cores n).running_thread) (sym w)
              | inr (w, g) ↦ ap (λ v. v.running_thread) g
            ] in
          (
            m',
            rw (h.unlocked, p, z, alive, d, z, ==_refl prev, f)
                (ap (λ v. done (some v, m')) inn.loaded),
            same_threads-IsReady m m' h inn.linked inn.queue inn.unlocked same
                (λ c n. elim (core_cases m.cores core c r.1) [
                  | inl (w, g) ↦
                      subst (Stored r.2.processes) (sym (ap (λ v. v.running_process) g)) inn.process
                  | inr (w, g) ↦
                      subst (Stored r.2.processes) (sym (ap (λ v. v.running_process) g))
                        (inn.kept (m.cores c).running_process (h.runs c n).1)
                ])
                (λ y a. inn.stays y (update-Stored s.threads prev y t' a)),
            same core,
            inn.state.0,
            inn.state.1,
            inn.state.2 ∙ rw d,
          )
    ]
