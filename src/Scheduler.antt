-- ===== src/Scheduler.antt =====
-- src/kernel/scheduler/scheduler.cpp and scheduler.hpp: the threads that wait, and the switch from one
-- to another.
--
-- Threads and processes are objects on the kernel heap: `threads` and `processes` have what lies at
-- each address, none where nothing is alive; address 0 is the null pointer. A thread's `regs` is its
-- own object, so it is a part of the thread. What is printed is not modelled. The value of
-- `waiting_queue.pop()` is read after its `optional` is destroyed; it is read here as it was.
pub mod Links
pub mod Switch
pub mod Machine
pub mod Starts
pub mod Stay
pub mod Rounds
pub mod Tasks
pub mod Tests
use toystar.Prelude.{
  ℕ, zero, suc, ◌+◌, Bool, true, false, ◌||◌, not, Option, none, some, List, [], ◌∷◌, ◌==◌,
  if◌then◌else◌,
}
use toystar.Prelude.Outcome.{Outcome, done, fault, ◌>>=◌}
use toystar.Prelude.Word.{update}
use toystar.Lock.{LockT, acquire, release}
use toystar.Klibc.Bitmap.{Bitmap}
use toystar.Klibc.Vector
use toystar.Klibc.Vector.{Vector}
use toystar.Fs.Files.{FileDescription}
use toystar.Klibc.Queue.{Queue, push, pop, value_or}

-- `context`
pub record Context : Type 0 where
  pub rax : ℕ
  pub rbx : ℕ
  pub rcx : ℕ
  pub rdx : ℕ
  pub rsi : ℕ
  pub rdi : ℕ
  pub rbp : ℕ
  pub r8 : ℕ
  pub r9 : ℕ
  pub r10 : ℕ
  pub r11 : ℕ
  pub r12 : ℕ
  pub r13 : ℕ
  pub r14 : ℕ
  pub r15 : ℕ
  pub rip : ℕ
  pub cs : ℕ
  pub rflags : ℕ
  pub rsp : ℕ
  pub ss : ℕ

pub data Status : Type 0 where
  waiting : Status
  running : Status
  dying : Status
  dead : Status

abbrev pub is_running : Status → Bool
is_running running = true
is_running waiting = false
is_running dying = false
is_running dead = false

abbrev pub is_dying : Status → Bool
is_dying dying = true
is_dying waiting = false
is_dying running = false
is_dying dead = false

pub record Thread : Type 0 where
  pub tid : ℕ
  pub status : Status
  pub parent_process : ℕ
  pub regs : Context

pub record Process : Type 0 where
  pub pid : ℕ
  pub status : Status
  pub process_directory : ℕ
  pub threads : Vector ℕ
  pub fd_list : Vector ℕ
  pub pagemap : ℕ

-- `cpu`, without the number of its interrupt controller.
pub record Cpu : Type 0 where
  pub running_process : ℕ
  pub running_thread : ℕ
  pub working_dir : ℕ
  pub pagemap : ℕ

-- The objects and the globals that the cores share.
pub record Sched : Type 0 where
  pub threads : ℕ → Option Thread
  pub processes : ℕ → Option Process
  pub waiting_queue : Queue ℕ
  pub process_list : Vector ℕ
  pub descriptions : ℕ → Option FileDescription
  pub sched_lock : LockT
  pub pid_bitmap : Bitmap
  pub tid_bitmap : Bitmap
  pub pid_lock : LockT
  pub tid_lock : LockT

unfoldable pub thread_at : ℕ → Sched → Outcome Thread
thread_at p s = elim (s.threads p) [ none ↦ fault | some t ↦ done t ]

unfoldable pub process_at : ℕ → Sched → Outcome Process
process_at p s = elim (s.processes p) [ none ↦ fault | some q ↦ done q ]

abbrev pub put_thread : ℕ → Thread → Sched → Sched
put_thread p t s = record s { threads = update s.threads p (some t) }

abbrev pub put_process : ℕ → Process → Sched → Sched
put_process p q s = record s { processes = update s.processes p (some q) }

unfoldable pub queue : ℕ → Sched → Outcome Sched
unfolding acquire release push
queue thread_to_queue s = do
  lock ← acquire s.sched_lock
  q ← push 0 thread_to_queue s.waiting_queue
  done (record s { waiting_queue = q; sched_lock = release lock })

-- Where nothing waits: the running thread goes on, and its registers are stored. `none` is the early
-- `return`. `regs` is what the interrupt stored.
unfoldable pub stay : Context → Cpu → Sched → Outcome (Option ℕ × Sched)
stay regs current s = if current.running_thread == 0 then fault else (do
  t ← thread_at current.running_thread s
  if is_dying t.status
      then done (none, put_thread current.running_thread (record t { status = dead }) s)
      else done (
        some current.running_thread,
        put_thread current.running_thread (record t { regs = regs }) s,
      ))

-- The loop on `previous_process->threads` from index `i`, with the rounds that are left.
unfoldable pub any_running : ℕ → ℕ → Vector ℕ → Sched → Outcome Bool
any_running zero i threads s = done false
any_running (suc n) i threads s =
    let rest = any_running n (i + 1) threads s in
    (do
      p ← Vector.at threads i
      b ← if p == 0 then done false else (thread_at p s >>= λ t. done (is_running t.status))
      r ← rest
      done (b || r))

-- The previous thread waits again.
unfoldable pub requeue : Context → Thread → Cpu → Sched → Outcome Sched
unfolding any_running
requeue regs t current s = do
  let s1 = put_thread current.running_thread (record t { status = waiting; regs = regs }) s
  p ← process_at current.running_process s1
  busy ← any_running p.threads.m_capacity 0 p.threads s1
  let s2 =
      put_process current.running_process (record p { status = if busy then running else waiting })
        s1
  q ← push 0 current.running_thread s2.waiting_queue
  done (record s2 { waiting_queue = q })

-- What becomes of the thread that ran, if there is one and it is not the one to run.
unfoldable pub switch_out : Context → ℕ → Cpu → Sched → Outcome Sched
unfolding requeue
switch_out regs scheduled_thread current s =
    if current.running_thread == 0 || current.running_thread == scheduled_thread
    then done s
    else (do
      t ← thread_at current.running_thread s
      if is_dying t.status
          then done (put_thread current.running_thread (record t { status = dead }) s)
          else requeue regs t current s)

-- The registers that `context_switch` loads, the core and the shared state then.
unfoldable pub switch_in : ℕ → Sched → Outcome (Context × Cpu × Sched)
unfolding release
switch_in scheduled_thread s = do
  t ← thread_at scheduled_thread s
  p ← process_at t.parent_process s
  let s1 = put_process t.parent_process (record p { status = running }) s
  let s2 = put_thread scheduled_thread (record t { status = running }) s1
  done (
    t.regs,
    record {
      running_process = t.parent_process;
      running_thread = scheduled_thread;
      working_dir = p.process_directory;
      pagemap = p.pagemap;
    },
    record s2 { sched_lock = release s2.sched_lock },
  )

-- `past` is what lies behind the array of the queue. The result has the registers that
-- `context_switch` loads, none where `reschedule` returns to what was interrupted.
unfoldable pub reschedule : ℕ → Context → Cpu → Sched → Outcome (Option Context × Cpu × Sched)
unfolding acquire release stay switch_out switch_in pop value_or
reschedule past regs current s = do
  lock ← acquire s.sched_lock
  popped ← pop 0 past s.waiting_queue
  let s1 = record s { waiting_queue = popped.1; sched_lock = lock }
  let queue_obj = value_or popped.0 0
  chosen ← if queue_obj == 0 then stay regs current s1 else done (some queue_obj, s1)
  elim chosen.0 [
    | none ↦ done (none, current, record (chosen.1) { sched_lock = release chosen.1.sched_lock })
    | some scheduled_thread ↦ (do
      s2 ← switch_out regs scheduled_thread current chosen.1
      r ← switch_in scheduled_thread s2
      done (some r.0, r.1, r.2))
  ]
