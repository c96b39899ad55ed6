-- ===== src/Scheduler/Tasks/Fork.antt =====
-- `syscall_fork` of src/kernel/scheduler/scheduler.cpp.
use toystar.Prelude.{
  ℕ, zero, suc, ◌+◌, ◌≡◌, refl, ◌∙◌, ap, false, Option, some, inr, List, [], ◌∷◌, ◌++◌, length,
  get_elem?, arith,
}
use mathlib.Core.List.{append-nil, append_assoc}
use toystar.Prelude.Outcome.{done}
use toystar.Prelude.Word.{update}
use toystar.Lock.{acquire, test_and_set, release}
use toystar.Klibc.Bitmap.{allocate}
use toystar.Klibc.Vector.{Vector, vector}
use toystar.Klibc.Vector.Laws.{Holds, push_back-Holds, vector-Holds}
use toystar.Klibc.Vector.Access.{at-Holds}
use toystar.Klibc.Queue.Laws.{push-Holds}
use toystar.Fs.Files.{FileDescription}
use toystar.Scheduler.{Context, waiting, Thread, Process, Sched, put_thread, put_process, queue}
use toystar.Scheduler.Links.{Stored, update_self, update-Stored, process_at-done, get_elem?-below}
use toystar.Scheduler.Switch.{nothing, one}
use toystar.Scheduler.Machine.{Machine, IsReady}
use toystar.Scheduler.Tasks.Joins.{add_process-IsLinked, add_thread-IsLinked, IsNew, joins-IsReady}
use toystar.Scheduler.Tasks.{Fresh, get_new_pid, get_new_tid, copy_fds, syscall_fork}

-- The addresses of `n` new descriptions, from that of number `i` on.
abbrev pub new_fds : ℕ → ℕ → (ℕ → ℕ) → List ℕ
new_fds zero i new_fd = []
new_fds (suc n) i new_fd = new_fd i ∷ new_fds n (i + 1) new_fd

-- The loop on the parent's file descriptions ends where these are alive.
copy_fds-done :
    (n i : ℕ) (new_fd : ℕ → ℕ) (parent child : Vector ℕ) (xs ys : List ℕ)
    (ds : ℕ → Option FileDescription)
    → Holds parent xs
    → Holds child ys
    → ((j p : ℕ) → get_elem? xs j ≡ some p → Stored ds p)
    → n + i ≡ length xs
    → (r : Vector ℕ × (ℕ → Option FileDescription)) × (copy_fds n i new_fd parent child ds ≡ done r)
      × Holds r.0 (ys ++ new_fds n i new_fd)
unfolding copy_fds
copy_fds-done zero i new_fd parent child xs ys ds h k alive e =
    ((child, ds), refl, rw (append-nil ys) k)
copy_fds-done (suc n) i new_fd parent child xs ys ds h k alive e =
    let (p, f) = get_elem?-below xs i (omega arith) in
    let (d, g) = alive i p f in
    let (child', a, k') = push_back-Holds 0 (new_fd i) child ys k in
    let (r, b, k'') =
      copy_fds-done n (i + 1) new_fd parent child' xs (ys ++ (new_fd i ∷ []))
        (update ds (new_fd i) (some d)) h k'
        (λ j q o. update-Stored ds (new_fd i) q d (alive j q o)) (omega arith) in
    (
      r,
      rw (at-Holds parent xs i p h f, g, a, b),
      rw (append_assoc ys (new_fd i ∷ []) (new_fds n (i + 1) new_fd)) at k'',
    )

get_new_pid-some :
    (s : Sched) (pid : ℕ)
    → s.pid_lock ≡ false
    → (allocate s.pid_bitmap).0 ≡ some pid
    → get_new_pid s
      ≡ done (some pid, record s { pid_bitmap = (allocate s.pid_bitmap).1; pid_lock = false })
unfolding get_new_pid acquire test_and_set release
get_new_pid-some s pid free e = rw (free, e)

get_new_tid-some :
    (s : Sched) (tid : ℕ)
    → s.tid_lock ≡ false
    → (allocate s.tid_bitmap).0 ≡ some tid
    → get_new_tid s
      ≡ done (some tid, record s { tid_bitmap = (allocate s.tid_bitmap).1; tid_lock = false })
unfolding get_new_tid acquire test_and_set release
get_new_tid-some s tid free e = rw (free, e)

queue-done :
    (x : ℕ) (s : Sched) (l : List ℕ)
    → s.sched_lock ≡ false
    → Holds s.waiting_queue l
    → (q : _) × (queue x s ≡ done (record s { waiting_queue = q; sched_lock = false }))
      × Holds q (l ++ (x ∷ []))
unfolding queue acquire test_and_set release
queue-done x s l free k =
    let (q, e, k') = push-Holds 0 x s.waiting_queue l k in (q, rw (free, e), k')

-- What `syscall_fork` needs of the parent: numbers are left, the locks are free, and its open file
-- descriptions are alive.
pub record CanFork (s : Sched) (parent : Process) (pid tid : ℕ) : Type 0 where
  pub pid_lock : s.pid_lock ≡ false
  pub tid_lock : s.tid_lock ≡ false
  pub pid_left : (allocate s.pid_bitmap).0 ≡ some pid
  pub tid_left : (allocate s.tid_bitmap).0 ≡ some tid
  pub list : (ps : List ℕ) × Holds s.process_list ps
  pub open_fds :
      (xs : List ℕ) × Holds parent.fd_list xs
      × ((i p : ℕ) → get_elem? xs i ≡ some p → Stored s.descriptions p)

-- Where `IsReady` holds, numbers are left, the locks are free and the parent's descriptors are open,
-- `fork` at a new address for the thread returns the number of the child to the parent, and the child's
-- thread waits behind all others with the same registers but 0 as its result. The child is the last
-- process of the list: it has that number, its parent's directory and the given page map, as many
-- descriptions as its parent, at the new addresses, and this thread alone, which belongs to it.
-- `IsReady` holds again.
pub syscall_fork-IsReady :
    (new : Fresh) (new_fd : ℕ → ℕ) (pagemap core : ℕ) (regs : Context) (m : Machine) (l : List ℕ)
    (parent : Process) (pid tid : ℕ)
    → IsReady m l
    → IsNew m l new.main_thread
    → m.shared.processes (m.cores core).running_process ≡ some parent
    → (can : CanFork m.shared parent pid tid)
    → (s' : Sched) × (t : Thread) × (child : Process) × (syscall_fork new new_fd pagemap regs
          (m.cores core)
          m.shared
        ≡ done (record regs { rax = pid }, s'))
      × IsReady (record m { shared = s' }) (l ++ (new.main_thread ∷ []))
      × (s'.threads new.main_thread ≡ some t)
      × (t.tid ≡ tid)
      × (t.regs ≡ record regs { rax = 0 })
      × (t.status ≡ waiting)
      × (t.parent_process ≡ new.new_process)
      × (s'.processes new.new_process ≡ some child)
      × (child.pid ≡ pid)
      × (child.process_directory ≡ parent.process_directory)
      × (child.pagemap ≡ pagemap)
      × Holds child.threads (new.main_thread ∷ [])
      × Holds child.fd_list (new_fds parent.fd_list.m_capacity 0 new_fd)
      × Holds s'.process_list (can.list.0 ++ (new.new_process ∷ []))
unfolding syscall_fork acquire test_and_set release
syscall_fork-IsReady new new_fd pagemap core regs m l parent pid tid h fresh e can =
    let s = m.shared in
    let (ps, pk) = can.list in
    let (xs, xk, alive) = can.open_fds in
    let (list, a, pk') = push_back-Holds 0 new.new_process s.process_list ps pk in
    let s1 : Sched = record s { process_list = list; sched_lock = false } in
    let s2 : Sched = record s1 { pid_bitmap = (allocate s.pid_bitmap).1; pid_lock = false } in
    let b = get_new_pid-some s1 pid can.pid_lock can.pid_left in
    let (fds, c, fk) =
      copy_fds-done parent.fd_list.m_capacity 0 new_fd parent.fd_list vector xs [] s.descriptions xk
        vector-Holds alive (omega (arith, xk.capacity)) in
    let child : Process = record {
      pid = pid;
      status = waiting;
      process_directory = parent.process_directory;
      threads = vector;
      fd_list = fds.0;
      pagemap = pagemap;
    } in
    let s3 : Sched = put_process new.new_process child (record s2 { descriptions = fds.1 }) in
    let d = get_new_tid-some s3 tid can.tid_lock can.tid_left in
    let t : Thread = record {
      tid = tid;
      status = waiting;
      parent_process = new.new_process;
      regs = record regs { rax = 0 };
    } in
    let (threads, f, tk) = push_back-Holds 0 new.main_thread vector [] vector-Holds in
    let child' : Process = record child { threads = threads } in
    let s4 : Sched = put_process new.new_process child' (
      put_thread new.main_thread t
        (record s3 { tid_bitmap = (allocate s.tid_bitmap).1; tid_lock = false })) in
    let (q, g, qk) = queue-done new.main_thread s4 l refl h.queue in
    let linked1 =
      add_process-IsLinked s.threads s.processes new.new_process child h.linked
        ([], vector-Holds, λ i x z. nothing i x z) in
    let linked2 =
      add_thread-IsLinked s.threads s3.processes new.main_thread t linked1
        (child, update_self s.processes new.new_process child) in
    let linked3 = add_process-IsLinked s4.threads s3.processes new.new_process child' linked2 (
      new.main_thread ∷ [],
      tk,
      λ i x z. inr (
        t,
        ap s4.threads ((one new.main_thread i x z).1) ∙ update_self s.threads new.main_thread t,
      ),
    ) in
    (
      record s4 { waiting_queue = q; sched_lock = false },
      t,
      child',
      rw (process_at-done (m.cores core).running_process s parent e, h.unlocked, a, b, c, d, f, g),
      joins-IsReady m l (record s4 { waiting_queue = q; sched_lock = false }) new.main_thread t h
          fresh linked3 qk refl refl refl
          (λ p z.
            update-Stored s3.processes new.new_process p child'
              (update-Stored s.processes new.new_process p child z)),
      update_self s.threads new.main_thread t,
      refl,
      refl,
      refl,
      refl,
      update_self s3.processes new.new_process child',
      refl,
      refl,
      refl,
      tk,
      fk,
      pk',
    )
