-- ===== src/Scheduler/Tasks.antt =====
-- src/kernel/scheduler/scheduler.cpp: processes are created, copied and ended.
--
-- The addresses that `new` and `PMM::alloc` return are arguments. A page map is only its address here:
-- what the calls of `VMM::vmm` do in it is not modelled, and nor is `Vfs::open`, whose results are
-- arguments, 0 where it fails.
pub mod Joins
pub mod Fork
pub mod Erase
pub mod Exit
mod Tests
pub mod Arguments
use toystar.Prelude.{
  ℕ, zero, suc, ◌+◌, ◌-◌, ◌*◌, ◌^◌, ◌/◌, bit_and, Bool, true, false, ◌||◌, not, Option, none, some,
  List, [], ◌∷◌, ◌==◌, ltb, if◌then◌else◌, get_elem?,
}
use toystar.Prelude.Outcome.{Outcome, done, hang, fault, ◌>>=◌}
use toystar.Prelude.Word.{update, u64_mod, sub64}
use toystar.Lock.{acquire, release}
use toystar.Klibc.Bitmap.{allocate, clear_bit}
use toystar.Klibc.Vector
use toystar.Klibc.Vector.{Vector, vector}
use toystar.Fs.Files.{FileDescription}
use toystar.Fs.Vfs.{minus_one}
use toystar.Memory.Pmm.{physical_base_address}
use toystar.Scheduler.{
  Context, Status, waiting, is_running, Thread, Process, Cpu, Sched, thread_at, process_at,
  put_thread, put_process, queue,
}

-- `none` stands for -1.
unfoldable pub get_new_pid : Sched → Outcome (Option ℕ × Sched)
unfolding acquire release allocate
get_new_pid s = do
  lock ← acquire s.pid_lock
  let r = allocate s.pid_bitmap
  done (r.0, record s { pid_bitmap = r.1; pid_lock = release lock })

unfoldable pub get_new_tid : Sched → Outcome (Option ℕ × Sched)
unfolding acquire release allocate
get_new_tid s = do
  lock ← acquire s.tid_lock
  let r = allocate s.tid_bitmap
  done (r.0, record s { tid_bitmap = r.1; tid_lock = release lock })

-- `memset(regs, 0, sizeof(context))`
abbrev pub zero_context : Context
zero_context = record {
  rax = 0;
  rbx = 0;
  rcx = 0;
  rdx = 0;
  rsi = 0;
  rdi = 0;
  rbp = 0;
  r8 = 0;
  r9 = 0;
  r10 = 0;
  r11 = 0;
  r12 = 0;
  r13 = 0;
  r14 = 0;
  r15 = 0;
  rip = 0;
  cs = 0;
  rflags = 0;
  rsp = 0;
  ss = 0;
}

abbrev pub user_stack : ℕ
user_stack = 0x800000000

abbrev pub user_stack_size : ℕ
user_stack_size = 4096 * 8

-- The registers that a new process starts with.
unfoldable pub first_regs : ℕ → ℕ → ℕ → Context
first_regs rip cs stack = record zero_context {
  rsp =
      if bit_and cs 3 == 0 then (stack + physical_base_address) else (user_stack + user_stack_size);
  ss = if bit_and cs 3 == 0 then 0x10 else 0x23;
  rip = rip;
  rflags = 0x202;
  cs = cs;
}

-- What `new` and `PMM::alloc` return in `create_process`.
pub record Fresh : Type 0 where
  pub new_process : ℕ
  pub main_thread : ℕ
  pub stack : ℕ

-- The result is the address of the process, 0 where there is no number left for it or its thread.
unfoldable pub create_process : Fresh → ℕ × ℕ × ℕ → ℕ → ℕ → ℕ → ℕ → Sched → Outcome (ℕ × Sched)
unfolding get_new_pid get_new_tid first_regs acquire release
create_process new (stdin, stdout, stderr) rip cs pagemap dir s = do
  threads ← Vector.push_back 0 new.main_thread vector
  pid ← get_new_pid s
  tid ← get_new_tid pid.1
  elim pid.0 [
    | none ↦ done (0, tid.1)
    | some new_pid ↦ elim tid.0 [
      | none ↦ done (0, tid.1)
      | some new_tid ↦ (do
        fds1 ← Vector.push_back 0 stdin vector
        fds2 ← Vector.push_back 0 stdout fds1
        fds3 ← Vector.push_back 0 stderr fds2
        let main_thread : Thread = record {
          tid = new_tid;
          status = waiting;
          parent_process = new.new_process;
          regs = first_regs rip cs new.stack;
        }
        let new_process : Process = record {
          pid = new_pid;
          status = waiting;
          process_directory = dir;
          threads = threads;
          fd_list = fds3;
          pagemap = pagemap;
        }
        let s1 =
            put_process new.new_process new_process (put_thread new.main_thread main_thread tid.1)
        lock ← acquire s1.sched_lock
        list ← Vector.push_back 0 new.new_process s1.process_list
        done (new.new_process, record s1 { process_list = list; sched_lock = release lock }))
    ]
  ]

-- The elements for which `test` holds, as a loop erases them that goes on at the next index. `past` is
-- what lies behind the array. The vector does not grow, so its first size is enough for `n`.
unfoldable pub erase_where : ℕ → ℕ → ℕ → (ℕ → Outcome Bool) → Vector ℕ → Outcome (Vector ℕ)
erase_where past zero i test v = done v
erase_where past (suc n) i test v =
    let next : Vector ℕ → Outcome (Vector ℕ) = λ v'. erase_where past n (i + 1) test v' in
    if ltb i v.m_capacity
    then (do
      x ← Vector.at v i
      hit ← test x
      if hit then (Vector.erase 0 past i v >>= λ r. next r.1) else next v)
    else done v

-- One round of the loop on the threads. A thread that runs on another core makes the loop wait for that
-- core; no other core is modelled here.
unfoldable pub end_thread : ℕ → ℕ → Cpu → Sched → Outcome Sched
unfolding erase_where clear_bit
end_thread past p current s = do
  t ← thread_at p s
  r ← thread_at current.running_thread s
  q ←
      (if t.tid == r.tid
        then done s.waiting_queue
        else if is_running t.status
        then hang
        else erase_where past s.waiting_queue.m_capacity 0
            (λ w. thread_at w s >>= λ u. done (u.tid == t.tid)) s.waiting_queue)
  done (record s {
    waiting_queue = q;
    tid_bitmap = clear_bit s.tid_bitmap t.tid;
    threads = update s.threads p none;
  })

unfoldable pub end_threads : ℕ → ℕ → ℕ → Vector ℕ → Cpu → Sched → Outcome Sched
unfolding end_thread
end_threads past zero i threads current s = done s
end_threads past (suc n) i threads current s = do
  p ← Vector.at threads i
  s' ← end_thread past p current s
  end_threads past n (i + 1) threads current s'

-- `delete proc->fd_list[i]`
unfoldable pub delete_fds :
    ℕ → ℕ → Vector ℕ → (ℕ → Option FileDescription) → Outcome (ℕ → Option FileDescription)
delete_fds zero i fds descriptions = done descriptions
delete_fds (suc n) i fds descriptions =
    Vector.at fds i >>= λ fd. delete_fds n (i + 1) fds (update descriptions fd none)

-- `exit_process` has no `return`.
unfoldable pub exit_process : ℕ → Cpu → Sched → Outcome (Cpu × Sched)
unfolding erase_where end_threads delete_fds clear_bit acquire release
exit_process past current s = do
  lock ← acquire s.sched_lock
  proc ← process_at current.running_process s
  list ←
      erase_where past s.process_list.m_capacity 0
        (λ p. process_at p s >>= λ q. done (q.pid == proc.pid)) s.process_list
  s1 ←
      end_threads past proc.threads.m_capacity 0 proc.threads current
        (record s { process_list = list; sched_lock = lock })
  descriptions ← delete_fds proc.fd_list.m_capacity 0 proc.fd_list s1.descriptions
  done (
    record current { running_thread = 0; running_process = 0 },
    record s1 {
      sched_lock = release s1.sched_lock;
      descriptions = descriptions;
      pid_bitmap = clear_bit s1.pid_bitmap proc.pid;
      processes = update s1.processes current.running_process none;
    },
  )

-- After `exit_process` the core waits for an interrupt.
unfoldable pub syscall_exit : ℕ → Cpu → Sched → Outcome (Cpu × Sched)
unfolding exit_process
syscall_exit past current s = exit_process past current s

unfoldable pub syscall_getpid : Context → Cpu → Sched → Outcome Context
syscall_getpid regs current s =
    process_at current.running_process s >>= λ p. done (record regs { rax = p.pid })

unfoldable pub syscall_gettid : Context → Cpu → Sched → Outcome Context
syscall_gettid regs current s =
    thread_at current.running_thread s >>= λ t. done (record regs { rax = t.tid })

-- The copies of the parent's file descriptions, at the addresses `new_fd`: a copy of the null pointer
-- reads address 0.
unfoldable pub copy_fds :
    ℕ
    → ℕ
    → (ℕ → ℕ)
    → Vector ℕ
    → Vector ℕ
    → (ℕ → Option FileDescription)
    → Outcome (Vector ℕ × (ℕ → Option FileDescription))
copy_fds zero i new_fd parent child descriptions = done (child, descriptions)
copy_fds (suc n) i new_fd parent child descriptions = do
  p ← Vector.at parent i
  d ← elim (descriptions p) [ none ↦ fault | some d ↦ done d ]
  child' ← Vector.push_back 0 (new_fd i) child
  copy_fds n (i + 1) new_fd parent child' (update descriptions (new_fd i) (some d))

-- `pagemap` is the copy that `duplicate` makes; the result is that of the parent.
unfoldable pub syscall_fork :
    Fresh → (ℕ → ℕ) → ℕ → Context → Cpu → Sched → Outcome (Context × Sched)
unfolding get_new_pid get_new_tid copy_fds queue acquire release
syscall_fork new new_fd pagemap regs current s = do
  parent ← process_at current.running_process s
  lock ← acquire s.sched_lock
  list ← Vector.push_back 0 new.new_process s.process_list
  pid ← get_new_pid (record s { process_list = list; sched_lock = release lock })
  let child_pid : ℕ = elim pid.0 [ none ↦ minus_one | some n ↦ n ]
  fds ← copy_fds parent.fd_list.m_capacity 0 new_fd parent.fd_list vector pid.1.descriptions
  let child : Process = record {
    pid = child_pid;
    status = waiting;
    process_directory = parent.process_directory;
    threads = vector;
    fd_list = fds.0;
    pagemap = pagemap;
  }
  tid ← get_new_tid (put_process new.new_process child (record (pid.1) { descriptions = fds.1 }))
  elim tid.0 [
    | none ↦ done (record regs { rax = minus_one }, tid.1)
    | some new_tid ↦ (do
      let main_thread : Thread = record {
        tid = new_tid;
        status = waiting;
        parent_process = new.new_process;
        regs = record regs { rax = 0 };
      }
      threads ← Vector.push_back 0 new.main_thread vector
      s3 ← queue new.main_thread (
          put_process new.new_process (record child { threads = threads })
            (put_thread new.main_thread main_thread tid.1))
      done (record regs { rax = child_pid }, s3))
  ]
