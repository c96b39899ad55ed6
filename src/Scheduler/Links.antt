-- ===== src/Scheduler/Links.antt =====
-- The objects of src/kernel/scheduler/scheduler.cpp that a thread needs to run, and the queue.
use toystar.Prelude.{
  ℕ, zero, suc, ◌+◌, ◌<◌, ◌≡◌, ◌≢◌, refl, sym, ◌∙◌, ap, Bool, false, ◌||◌, Option, none, some, ◌⊎◌,
  inl, inr, List, [], ◌∷◌, ◌==◌, length, get_elem?, Bool-cases, ==_refl, ==_iff, arith,
}
use mathlib.Core.Path.{subst}
use toystar.Prelude.Outcome.{done, fault}
use toystar.Prelude.Word.{update}
use toystar.Klibc.Vector.{Vector}
use toystar.Klibc.Vector.Laws.{Holds}
use toystar.Klibc.Vector.Access.{at-Holds}
use toystar.Scheduler.{is_running, Thread, Process, Sched, any_running, thread_at, process_at}

-- Something is alive at the address.
abbrev pub Stored {ℓ} : {A : Type ℓ} → (ℕ → Option A) → ℕ → Type ℓ
Stored {A = A} store p = (a : A) × (store p ≡ some a)

-- A process has threads that are alive, null pointers aside.
abbrev pub AreAlive : (ℕ → Option Thread) → Vector ℕ → Type 0
AreAlive threads v =
    (xs : List ℕ) × Holds v xs × ((i x : ℕ) → get_elem? xs i ≡ some x → (x ≡ 0) ⊎ Stored threads x)

pub record IsLinked (threads : ℕ → Option Thread) (processes : ℕ → Option Process) : Type 0 where
  pub parents : (p : ℕ) (t : Thread) → threads p ≡ some t → Stored processes t.parent_process
  pub members : (a : ℕ) (q : Process) → processes a ≡ some q → AreAlive threads q.threads

module _ {ℓ} {A : Type ℓ} where
  pub update_self : (store : ℕ → Option A) (p : ℕ) (a : A) → update store p (some a) p ≡ some a
  update_self store p a = rw (==_refl p)

  pub update-ne : (store : ℕ → A) (p q : ℕ) (a : A) → q ≢ p → update store p a q ≡ store q
  update-ne store p q a ne = let e : (q == p) ≡ false = ground arith in rw e

  pub update-Stored :
      (store : ℕ → Option A) (p q : ℕ) (a : A) → Stored store q → Stored (update store p (some a)) q
  update-Stored store p q a (b, e) = elim (Bool-cases (q == p)) [
    | inl h ↦ (a, rw h)
    | inr h ↦ (b, rw h e)
  ]

  -- What a store has after a write.
  pub update-cases :
      (store : ℕ → Option A) (p q : ℕ) (a b : A)
      → update store p (some a) q ≡ some b
      → ((q ≡ p) × (a ≡ b)) ⊎ (store q ≡ some b)
  update-cases store p q a b e = elim (Bool-cases (q == p)) [
    | inl h ↦ inl ((==_iff q p).0 h, cc)
    | inr h ↦ inr cc
  ]

-- A write to a thread that keeps its process.
pub put_thread-IsLinked :
    (threads : ℕ → Option Thread) (processes : ℕ → Option Process) (p : ℕ) (t t' : Thread)
    → IsLinked threads processes
    → threads p ≡ some t
    → t'.parent_process ≡ t.parent_process
    → IsLinked (update threads p (some t')) processes
put_thread-IsLinked threads processes p t t' h e same = record {
  parents = λ q u f. elim (update-cases threads p q t' u f) [
    | inl (i, j) ↦
        let (a, g) = h.parents p t e in
        (a, ap processes (sym (ap (λ v. v.parent_process) j) ∙ same) ∙ g)
    | inr f' ↦ h.parents q u f'
  ];
  members = λ a q f.
      let (xs, k, alive) = h.members a q f in
      (
        xs,
        k,
        λ i x g. elim (alive i x g) [
          | inl z ↦ inl z
          | inr z ↦ inr (update-Stored threads p x t' z)
        ],
      );
}

-- A write to a process that keeps its threads.
pub put_process-IsLinked :
    (threads : ℕ → Option Thread) (processes : ℕ → Option Process) (a : ℕ) (q q' : Process)
    → IsLinked threads processes
    → processes a ≡ some q
    → q'.threads ≡ q.threads
    → IsLinked threads (update processes a (some q'))
put_process-IsLinked threads processes a q q' h e same = record {
  parents = λ p t f. update-Stored processes a t.parent_process q' (h.parents p t f);
  members = λ b r f. elim (update-cases processes a b q' r f) [
    | inl (i, j) ↦ subst (AreAlive threads) (sym same ∙ ap (λ v. v.threads) j) (h.members a q e)
    | inr f' ↦ h.members b r f'
  ];
}

pub thread_at-done :
    (p : ℕ) (s : Sched) (t : Thread) → s.threads p ≡ some t → thread_at p s ≡ done t
unfolding thread_at
thread_at-done p s t e = ap (λ o. elim o [ none ↦ fault | some u ↦ done u ]) e

pub process_at-done :
    (p : ℕ) (s : Sched) (q : Process) → s.processes p ≡ some q → process_at p s ≡ done q
unfolding process_at
process_at-done p s q e = ap (λ o. elim o [ none ↦ fault | some r ↦ done r ]) e

pub get_elem?-below : (xs : List ℕ) (i : ℕ) → i < length xs → (x : ℕ) × (get_elem? xs i ≡ some x)
get_elem?-below [] i h = absurd (omega arith)
get_elem?-below (x ∷ xs) zero h = (x, refl)
get_elem?-below (x ∷ xs) (suc i) h = get_elem?-below xs i (omega arith)

-- The loop on a process's threads ends.
any_running-done :
    (n i : ℕ) (v : Vector ℕ) (xs : List ℕ) (s : Sched)
    → Holds v xs
    → ((j x : ℕ) → get_elem? xs j ≡ some x → (x ≡ 0) ⊎ Stored s.threads x)
    → n + i ≡ length xs
    → (b : Bool) × (any_running n i v s ≡ done b)
unfolding any_running
any_running-done zero i v xs s h alive e = (false, refl)
any_running-done (suc n) i v xs s h alive e =
    let (x, f) = get_elem?-below xs i (omega arith) in
    let (b, g) = any_running-done n (i + 1) v xs s h alive (omega arith) in
    let at = at-Holds v xs i x h f in
    elim (alive i x f) [
      | inl z ↦ (false || b, rw (at, z, g))
      | inr (t, k) ↦ elim (Bool-cases (x == 0)) [
        | inl z ↦ (false || b, rw (at, z, g))
        | inr z ↦ (is_running t.status || b, rw (at, z, thread_at-done x s t k, g))
      ]
    ]

pub any_running-IsLinked :
    (s : Sched) (a : ℕ) (q : Process)
    → IsLinked s.threads s.processes
    → s.processes a ≡ some q
    → (b : Bool) × (any_running q.threads.m_capacity 0 q.threads s ≡ done b)
any_running-IsLinked s a q h e =
    let (xs, k, alive) = h.members a q e in
    any_running-done q.threads.m_capacity 0 q.threads xs s k alive (omega (arith, k.capacity))
