-- ===== src/Scheduler/Rounds.antt =====
-- Sequences of timer interrupts on the cores of src/kernel/scheduler/scheduler.cpp.
use toystar.Prelude.{
  ℕ, zero, suc, ◌≡◌, ◌≢◌, refl, ◌∙◌, ap, false, Option, none, some, ◌⊎◌, inl, inr, List, [], ◌∷◌,
  ◌++◌, ◌==◌, if◌then◌else◌, length, get_elem?, Bool-cases, arith,
}
use toystar.Prelude.Outcome.{Outcome, done, fault, ◌>>=◌}
use toystar.Scheduler.{Context, Thread, is_dying}
use toystar.Scheduler.Switch.{left_behind, back_waits}
use toystar.Scheduler.Machine.{Machine, interrupt, IsReady, get_elem?-append}
use toystar.Scheduler.Starts.{interrupt-Starts}
use toystar.Scheduler.Stay.{interrupt-idle, interrupt-stays}

-- An interrupt on each of the cores of the list, in its order, with the registers it finds.
abbrev pub interrupts : ℕ → List (ℕ × Context) → Machine → Outcome Machine
interrupts past [] m = done m
interrupts past ((core, regs) ∷ calls) m =
    interrupt past core regs m >>= λ r. interrupts past calls r.1

-- Where `IsReady` holds, an interrupt on any core ends, and `IsReady` holds again: no thread waits
-- twice, waits while it runs, or runs on two cores. The one exception is a core that runs no thread while none
-- waits: there `reschedule` faults.
pub interrupt-IsReady :
    (past core : ℕ) (regs : Context) (m : Machine) (l : List ℕ)
    → IsReady m l
    → ((l ≡ []) × ((m.cores core).running_thread ≡ 0) × (interrupt past core regs m ≡ fault))
      ⊎ ((out : Option Context) × (m' : Machine) × (l' : List ℕ) × (interrupt past core regs m
            ≡ done (out, m'))
          × IsReady m' l')
interrupt-IsReady past core regs m [] h = elim (Bool-cases ((m.cores core).running_thread == 0)) [
  | inl b ↦
      let z : (m.cores core).running_thread ≡ 0 = ground arith in
      inl (refl, z, interrupt-idle past core regs m h z)
  | inr b ↦
      let ne : (m.cores core).running_thread ≢ 0 = ground arith in
      let (t, e) = (h.runs core ne).0 in
      let (m', f, ready, same, t', e', state) = interrupt-stays past core regs m t h ne e in
      inr ((if is_dying t.status then none else some regs), m', [], f, ready)
]
interrupt-IsReady past core regs m (x ∷ xs) h =
    let (nonzero, t, e, w) = h.waits 0 x refl in
    let (m', f, s) = interrupt-Starts past core regs m x xs t h e in
    inr (
      some t.regs,
      m',
      xs ++ left_behind (m.cores core).running_thread m.shared.threads,
      f,
      s.ready,
    )

-- Where `IsReady` holds, the thread at place `k` of the queue starts at the interrupt after the next
-- `k` ones, on whatever cores these are, with the registers that it has now; all of them end.
pub waiting_runs :
    (past k : ℕ) (calls : List (ℕ × Context)) (core : ℕ) (regs : Context) (m : Machine) (l : List ℕ)
    (x : ℕ) (t : Thread)
    → IsReady m l
    → get_elem? l k ≡ some x
    → m.shared.threads x ≡ some t
    → length calls ≡ k
    → (m1 : Machine) × (m2 : Machine) × (interrupts past calls m ≡ done m1)
      × (interrupt past core regs m1 ≡ done (some t.regs, m2))
      × ((m2.cores core).running_thread ≡ x)
waiting_runs past k calls core regs m [] x t h e f n = absurd (cc)
waiting_runs past (suc k) [] core regs m (y ∷ l) x t h e f n = absurd (omega arith)
waiting_runs past zero [] core regs m (y ∷ l) x t h e f n =
    let y_is : y ≡ x = cc in
    let (m', g, s) = interrupt-Starts past core regs m y l t h (ap m.shared.threads y_is ∙ f) in
    (m, m', refl, g, s.thread ∙ y_is)
waiting_runs past zero (c ∷ calls) core regs m (y ∷ l) x t h e f n = absurd (omega arith)
waiting_runs past (suc k) ((c, r) ∷ calls) core regs m (y ∷ l) x t h e f n =
    let (nonzero, u, a, w) = h.waits 0 y refl in
    let (m', g, s) = interrupt-Starts past c r m y l u h a in
    let first_ne : x ≢ y =
      λ z. absurd (omega (arith, h.distinct 0 (suc k) y refl (e ∙ ap some z))) in
    let running_ne : x ≢ (m.cores c).running_thread = λ z. h.apart c (suc k) (e ∙ ap some z) in
    let f' : m'.shared.threads x ≡ some t = s.others x first_ne running_ne ∙ f in
    let later = left_behind (m.cores c).running_thread m.shared.threads in
    let (m1, m2, i, j, o) =
      waiting_runs past k calls core regs m' (l ++ later) x t s.ready
        (get_elem?-append l later k x e) f' (omega (arith, n)) in
    (m1, m2, rw g i, j, o)

-- Where `IsReady` holds and threads wait, a thread that an interrupt takes from its core, and that is
-- not dying, is loaded again with the
-- registers that the interrupt found: at the first interrupt after as many as threads wait behind the
-- one that took its place, on whatever cores.
pub preempted_resumes :
    (past core : ℕ) (regs : Context) (calls : List (ℕ × Context)) (core' : ℕ) (regs' : Context)
    (m : Machine) (x : ℕ) (xs : List ℕ) (t : Thread)
    → IsReady m (x ∷ xs)
    → (m.cores core).running_thread ≢ 0
    → m.shared.threads (m.cores core).running_thread ≡ some t
    → is_dying t.status ≡ false
    → length calls ≡ length xs
    → (m1 : Machine) × (m2 : Machine) × (interrupts past ((core, regs) ∷ calls) m ≡ done m1)
      × (interrupt past core' regs' m1 ≡ done (some regs, m2))
      × ((m2.cores core').running_thread ≡ (m.cores core).running_thread)
preempted_resumes past core regs calls core' regs' m x xs t h ne e d n =
    let prev = (m.cores core).running_thread in
    let z : (prev == 0) ≡ false = ground arith in
    let b = back_waits prev m.shared.threads t z e d in
    let (nonzero, u, a, w) = h.waits 0 x refl in
    let (m', f, s) = interrupt-Starts past core regs m x xs u h a in
    let (same, v, g, kept) = s.saved 0 prev (ap (λ l. get_elem? l 0) b) in
    let at : get_elem? (xs ++ left_behind prev m.shared.threads) (length xs) ≡ some prev =
      ap (λ l. get_elem? (xs ++ l) (length xs)) b ∙ get_elem?-last xs prev in
    let (m1, m2, i, j, o) =
      waiting_runs past (length xs) calls core' regs' m' (xs ++ left_behind prev m.shared.threads)
        prev v s.ready at g n in
    (m1, m2, rw f i, j ∙ ap (λ c. done (some c, m2)) kept, o)
  where
    get_elem?-last : (ys : List ℕ) (y : ℕ) → get_elem? (ys ++ (y ∷ [])) (length ys) ≡ some y
    get_elem?-last [] y = refl
    get_elem?-last (z ∷ ys) y = get_elem?-last ys y
