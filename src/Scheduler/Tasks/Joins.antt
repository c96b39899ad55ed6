-- ===== src/Scheduler/Tasks/Joins.antt =====
-- A new thread among those of src/kernel/scheduler/scheduler.cpp that wait.
use toystar.Prelude.{
  ℕ, ◌≡◌, ◌≢◌, sym, ◌∙◌, ap, false, Option, some, inl, inr, List, [], ◌∷◌, ◌++◌, get_elem?, arith,
}
use mathlib.Core.Path.{subst}
use toystar.Prelude.Word.{update}
use toystar.Klibc.Vector.Laws.{Holds}
use toystar.Scheduler.{waiting, Thread, Process, Sched}
use toystar.Scheduler.Links.{
  Stored, AreAlive, IsLinked, update_self, update-ne, update-Stored, update-cases,
}
use toystar.Scheduler.Switch.{one}
use toystar.Scheduler.Machine.{Machine, IsReady, append_cases}

pub add_process-IsLinked :
    (threads : ℕ → Option Thread) (processes : ℕ → Option Process) (a : ℕ) (q : Process)
    → IsLinked threads processes
    → AreAlive threads q.threads
    → IsLinked threads (update processes a (some q))
add_process-IsLinked threads processes a q h alive = record {
  parents = λ p t f. update-Stored processes a t.parent_process q (h.parents p t f);
  members = λ b r f. elim (update-cases processes a b q r f) [
    | inl (i, j) ↦ subst (AreAlive threads) (ap (λ v. v.threads) j) alive
    | inr f' ↦ h.members b r f'
  ];
}

pub add_thread-IsLinked :
    (threads : ℕ → Option Thread) (processes : ℕ → Option Process) (p : ℕ) (t : Thread)
    → IsLinked threads processes
    → Stored processes t.parent_process
    → IsLinked (update threads p (some t)) processes
add_thread-IsLinked threads processes p t h parent = record {
  parents = λ q u f. elim (update-cases threads p q t u f) [
    | inl (i, j) ↦ subst (Stored processes) (ap (λ v. v.parent_process) j) parent
    | inr f' ↦ h.parents q u f'
  ];
  members = λ a q f.
      let (xs, k, alive) = h.members a q f in
      (
        xs,
        k,
        λ i x g. elim (alive i x g) [ inl z ↦ inl z | inr z ↦ inr (update-Stored threads p x t z) ],
      );
}

-- An address at which no thread waits and that no core runs.
pub record IsNew (m : Machine) (l : List ℕ) (x : ℕ) : Type 0 where
  pub nonzero : x ≢ 0
  pub not_waiting : (i : ℕ) → get_elem? l i ≢ some x
  pub not_running : (c : ℕ) → (m.cores c).running_thread ≢ x

-- A new thread behind those that wait.
pub joins-IsReady :
    (m : Machine) (l : List ℕ) (s' : Sched) (x : ℕ) (t : Thread)
    → IsReady m l
    → IsNew m l x
    → IsLinked s'.threads s'.processes
    → Holds s'.waiting_queue (l ++ (x ∷ []))
    → s'.sched_lock ≡ false
    → s'.threads ≡ update m.shared.threads x (some t)
    → t.status ≡ waiting
    → ((a : ℕ) → Stored m.shared.processes a → Stored s'.processes a)
    → IsReady (record m { shared = s' }) (l ++ (x ∷ []))
joins-IsReady m l s' x t h new linked k free e w kept = record {
  linked = linked;
  queue = k;
  unlocked = free;
  waits = λ i y a. elim (append_cases l (x ∷ []) i y a) [
    | inl b ↦
        let (nonzero, u, f, v) = h.waits i y b in
        let ne : y ≢ x = λ z. new.not_waiting i (b ∙ ap some z) in
        (nonzero, u, ap (λ g. g y) e ∙ update-ne m.shared.threads x y (some t) ne ∙ f, v)
    | inr (j, b, o) ↦
        let (z, v) = one x j y b in
        (
          λ n. new.nonzero (sym v ∙ n),
          t,
          ap s'.threads v ∙ ap (λ g. g x) e ∙ update_self m.shared.threads x t,
          w,
        )
  ];
  distinct = λ i j y a b. elim (append_cases l (x ∷ []) i y a) [
    | inl a' ↦ elim (append_cases l (x ∷ []) j y b) [
      | inl b' ↦ h.distinct i j y a' b'
      | inr (n, b', o) ↦ absurd (new.not_waiting i (a' ∙ ap some ((one x n y b').1)))
    ]
    | inr (n, a', o) ↦ elim (append_cases l (x ∷ []) j y b) [
      | inl b' ↦ absurd (new.not_waiting j (b' ∙ ap some ((one x n y a').1)))
      | inr (n', b', o') ↦ omega (arith, one x n y a', one x n' y b')
    ]
  ];
  runs = λ c ne.
      let (a, b) = h.runs c ne in
      (
        subst (λ g. Stored g (m.cores c).running_thread) (sym e)
            (update-Stored m.shared.threads x (m.cores c).running_thread t a),
        kept (m.cores c).running_process b,
      );
  apart = λ c i a. elim (append_cases l (x ∷ []) i (m.cores c).running_thread a) [
    | inl b ↦ h.apart c i b
    | inr (j, b, o) ↦ new.not_running c (one x j (m.cores c).running_thread b).1
  ];
  exclusive = h.exclusive;
}
