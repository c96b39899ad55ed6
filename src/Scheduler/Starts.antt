-- ===== src/Scheduler/Starts.antt =====
-- `reschedule` of src/kernel/scheduler/scheduler.cpp with threads that wait.
use toystar.Prelude.{
  ℕ, suc, ◌≡◌, ◌≢◌, refl, sym, ◌∙◌, ap, true, false, some, inl, inr, List, ◌∷◌, ◌++◌, ◌==◌,
  get_elem?, ==_refl, arith,
}
use mathlib.Core.Path.{subst}
use toystar.Prelude.Outcome.{done}
use toystar.Prelude.Word.{update}
use toystar.Klibc.Queue.{Queue, pop, value_or}
use toystar.Klibc.Queue.Laws.{pop-Holds}
use toystar.Lock.{acquire}
use toystar.Scheduler.{Context, waiting, Thread, Cpu, Sched, switch_out, switch_in, reschedule}
use toystar.Scheduler.Links.{Stored, update-ne}
use toystar.Scheduler.Machine.{Machine, interrupt, IsReady, append_cases, Starts, core_cases}
use toystar.Scheduler.Switch.{left_behind, Out, switch_out-Out, In, switch_in-In}

-- With a thread that waits, the result of `reschedule` is that of its two halves.
reschedule-halves :
    (past : ℕ) (regs : Context) (current : Cpu) (s s2 : Sched) (x : ℕ) (q : _)
    (r : Context × Cpu × Sched)
    → s.sched_lock ≡ false
    → x ≢ 0
    → pop 0 past s.waiting_queue ≡ done (some x, q)
    → switch_out regs x current (record s { waiting_queue = q; sched_lock = true }) ≡ done s2
    → switch_in x s2 ≡ done r
    → reschedule past regs current s ≡ done (some r.0, r.1, r.2)
unfolding reschedule acquire value_or
reschedule-halves past regs current s s2 x q r free ne e f g =
    let full : (x == 0) ≡ false = ground arith in rw (free, e, full, f, g)

module _ (m : Machine) (core : ℕ) (regs : Context) (x : ℕ) (xs : List ℕ) (t : Thread) (s2 : Sched)
    (r : Context × Cpu × Sched) (h : IsReady m (x ∷ xs)) (e : m.shared.threads x ≡ some t)
    (q : Queue ℕ)
    (out : Out regs
      (m.cores core).running_thread
      (record m.shared { waiting_queue = q; sched_lock = true })
      s2
      xs)
    (inn : In x s2
      (xs ++ left_behind (m.cores core).running_thread m.shared.threads)
      t.regs
      r) where
  abbrev after : Machine
  after = record { cores = update m.cores core r.1; shared = r.2 }

  previous_ne : (m.cores core).running_thread ≢ x
  previous_ne z = h.apart core 0 (ap some (sym z))

  others_kept :
      (y : ℕ) → y ≢ x → y ≢ (m.cores core).running_thread → r.2.threads y ≡ m.shared.threads y
  others_kept y a b = inn.others y a ∙ out.others y b

  thread_kept : (y : ℕ) → Stored m.shared.threads y → Stored r.2.threads y
  thread_kept y a = inn.stays y (out.stays y a)

  -- A thread behind the first one is neither it nor the one that ran.
  behind : (i y : ℕ) → get_elem? xs i ≡ some y → (y ≢ x) × (y ≢ (m.cores core).running_thread)
  behind i y a = (
    λ z. zero_ne_suc (h.distinct 0 (suc i) y (ap some (sym z)) a),
    λ z. h.apart core (suc i) (a ∙ ap some z),
  )
    where
      zero_ne_suc : {n : ℕ} → 0 ≢ suc n
      zero_ne_suc z = omega arith

  waits_after :
      (i y : ℕ)
      → get_elem? (xs ++ left_behind (m.cores core).running_thread m.shared.threads) i ≡ some y
      → (y ≢ 0) × (u : Thread) × (r.2.threads y ≡ some u) × (u.status ≡ waiting)
  waits_after i y a =
      elim (append_cases xs (left_behind (m.cores core).running_thread m.shared.threads) i y a) [
        | inl b ↦
            let (nonzero, u, f, w) = h.waits (suc i) y b in
            let (ne, ne') = behind i y b in (nonzero, u, others_kept y ne ne' ∙ f, w)
        | inr (j, b, k) ↦
            let (z, w, nonzero, u, f, v, kept) = out.returned j y b in
            (
              λ n. nonzero (sym w ∙ n),
              u,
              inn.others y (λ n. previous_ne (sym w ∙ n)) ∙ ap s2.threads w ∙ f,
              v,
            )
      ]

  distinct_after :
      (i j y : ℕ)
      → get_elem? (xs ++ left_behind (m.cores core).running_thread m.shared.threads) i ≡ some y
      → get_elem? (xs ++ left_behind (m.cores core).running_thread m.shared.threads) j ≡ some y
      → i ≡ j
  distinct_after i j y a b =
      elim (append_cases xs (left_behind (m.cores core).running_thread m.shared.threads) i y a) [
        | inl a' ↦
            elim (append_cases xs (left_behind (m.cores core).running_thread m.shared.threads) j y
              b) [
                | inl b' ↦ omega (arith, h.distinct (suc i) (suc j) y a' b')
                | inr (k, b', l) ↦ absurd ((behind i y a').1 ((out.returned k y b').1))
              ]
        | inr (k, a', l) ↦
            elim (append_cases xs (left_behind (m.cores core).running_thread m.shared.threads) j y
              b) [
                | inl b' ↦ absurd ((behind j y b').1 ((out.returned k y a').1))
                | inr (n, b', l') ↦ omega (arith, out.returned k y a', out.returned n y b')
              ]
      ]

  -- The thread that starts does not wait.
  started :
      (i : ℕ)
      → get_elem? (xs ++ left_behind (m.cores core).running_thread m.shared.threads) i ≢ some x
  started i a =
      elim (append_cases xs (left_behind (m.cores core).running_thread m.shared.threads) i x a) [
        | inl b ↦ (behind i x b).0 refl
        | inr (j, b, k) ↦ previous_ne (sym ((out.returned j x b).1))
      ]

  apart_after :
      (c i : ℕ)
      → get_elem? (xs ++ left_behind (m.cores core).running_thread m.shared.threads) i
        ≢ some (after.cores c).running_thread
  apart_after c i a = elim (core_cases m.cores core c r.1) [
    | inl (z, f) ↦ started i (a ∙ ap (λ v. some v.running_thread) f ∙ ap some inn.thread)
    | inr (ne, f) ↦
        let old : get_elem? (xs ++ left_behind (m.cores core).running_thread m.shared.threads) i
            ≡ some (m.cores c).running_thread =
          a ∙ ap (λ v. some v.running_thread) f in
        elim (append_cases xs (left_behind (m.cores core).running_thread m.shared.threads) i
          (m.cores c).running_thread old) [
            | inl b ↦ h.apart c (suc i) b
            | inr (j, b, k) ↦
                let (z, w, nonzero, u, g, v, kept) = out.returned j (m.cores c).running_thread b in
                ne (h.exclusive c core (λ n. nonzero (sym w ∙ n)) w)
          ]
  ]

  runs_after :
      (c : ℕ)
      → (after.cores c).running_thread ≢ 0
      → Stored r.2.threads (after.cores c).running_thread
        × Stored r.2.processes (after.cores c).running_process
  runs_after c ne = elim (core_cases m.cores core c r.1) [
    | inl (z, f) ↦ (
      subst (Stored r.2.threads) (sym (ap (λ v. v.running_thread) f ∙ inn.thread))
          (thread_kept x (t, e)),
      subst (Stored r.2.processes) (sym (ap (λ v. v.running_process) f)) inn.process,
    )
    | inr (z, f) ↦
        let (a, b) = h.runs c (λ n. ne (ap (λ v. v.running_thread) f ∙ n)) in
        (
          subst (Stored r.2.threads) (sym (ap (λ v. v.running_thread) f))
              (thread_kept (m.cores c).running_thread a),
          subst (Stored r.2.processes) (sym (ap (λ v. v.running_process) f))
              (inn.kept (m.cores c).running_process (out.kept (m.cores c).running_process b)),
        )
  ]

  exclusive_after :
      (c d : ℕ)
      → (after.cores c).running_thread ≢ 0
      → (after.cores c).running_thread ≡ (after.cores d).running_thread
      → c ≡ d
  exclusive_after c d ne same = elim (core_cases m.cores core c r.1) [
    | inl (z, f) ↦ elim (core_cases m.cores core d r.1) [
      | inl (w, g) ↦ z ∙ sym w
      | inr (w, g) ↦ absurd (
          h.apart d 0 (
            ap some (
              sym inn.thread
              ∙ sym (ap (λ v. v.running_thread) f)
              ∙ same
              ∙ ap (λ v. v.running_thread) g)))
    ]
    | inr (z, f) ↦ elim (core_cases m.cores core d r.1) [
      | inl (w, g) ↦ absurd (
          h.apart c 0 (
            ap some (
              sym inn.thread
              ∙ sym (ap (λ v. v.running_thread) g)
              ∙ sym same
              ∙ ap (λ v. v.running_thread) f)))
      | inr (w, g) ↦
          h.exclusive c d (λ n. ne (ap (λ v. v.running_thread) f ∙ n))
            (sym (ap (λ v. v.running_thread) f) ∙ same ∙ ap (λ v. v.running_thread) g)
    ]
  ]

  starts : Starts m core regs x xs after
  starts = record {
    thread = ap (λ v. v.running_thread) (update_self_at m.cores core r.1) ∙ inn.thread;
    elsewhere = λ c. update-ne m.cores core c r.1;
    saved = λ i y a.
        let (z, w, nonzero, u, f, v, kept) = out.returned i y a in
        (w, u, inn.others y (λ n. previous_ne (sym w ∙ n)) ∙ ap s2.threads w ∙ f, kept);
    ready = record {
      linked = inn.linked;
      queue = inn.queue;
      unlocked = inn.unlocked;
      waits = waits_after;
      distinct = distinct_after;
      runs = runs_after;
      apart = apart_after;
      exclusive = exclusive_after;
    };
    others = others_kept;
  }
    where
      update_self_at : (f : ℕ → Cpu) (p : ℕ) (v : Cpu) → update f p v p ≡ v
      update_self_at f p v = rw (==_refl p)

-- An interrupt on a core, while threads wait, loads the registers of the first of these; this thread
-- runs then, and the one that ran waits behind the others, unless it is dying. All of `IsReady` holds
-- again.
pub interrupt-Starts :
    (past core : ℕ) (regs : Context) (m : Machine) (x : ℕ) (xs : List ℕ) (t : Thread)
    → IsReady m (x ∷ xs)
    → m.shared.threads x ≡ some t
    → (m' : Machine) × (interrupt past core regs m ≡ done (some t.regs, m'))
      × Starts m core regs x xs m'
interrupt-Starts past core regs m x xs t h e =
    let s = m.shared in
    let current = m.cores core in
    let nonzero = (h.waits 0 x refl).0 in
    let other : current.running_thread ≢ x = λ z. h.apart core 0 (ap some (sym z)) in
    let (q, p, k) = pop-Holds 0 past s.waiting_queue (x ∷ xs) h.queue in
    let s1 : Sched = record s { waiting_queue = q; sched_lock = true } in
    let (s2, f, out) = switch_out-Out regs x current s1 xs h.linked k other (h.runs core) in
    let e2 : s2.threads x ≡ some t = out.others x (λ z. other (sym z)) ∙ e in
    let (r, g, inn) =
      switch_in-In x s2 (xs ++ left_behind current.running_thread s.threads) t out.linked out.queue
        e2 in
    let whole = reschedule-halves past regs current s s2 x q r h.unlocked nonzero p f g in
    let after : Machine = record { cores = update m.cores core r.1; shared = r.2 } in
    (
      after,
      rw whole (ap (λ v. done (some v, after)) inn.loaded),
      starts m core regs x xs t s2 r h e q out inn,
    )
