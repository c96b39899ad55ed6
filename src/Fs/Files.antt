-- ===== src/Fs/Files.antt =====
-- src/kernel/fs/files.cpp: the system calls on the file descriptors of the running process.
--
-- A file description is an object on the kernel heap: `descriptions` has what lies at each address,
-- none where no description is alive. `Vfs::open` is a parameter, as its result is the file system's.
pub mod Open
pub mod Access
mod Tests
use toystar.Prelude.{
  ℕ, zero, suc, ◌+◌, ◌-◌, ◌/◌, ◌%◌, ◌^◌, Bool, true, false, ◌||◌, not, Option, none, some, List, [],
  ◌∷◌, ◌==◌, leb, if◌then◌else◌,
}
use toystar.Prelude.Outcome.{Outcome, done, fault, ◌>>=◌}
use toystar.Prelude.Word.{u64_mod, add64, update}
use toystar.Klibc.Vector
use toystar.Klibc.Vector.{Vector}
use toystar.Klibc.Strings.{CString}
use toystar.Fs.Vfs.{minus_one}

-- `file_description`
pub record FileDescription : Type 0 where
  pub file : ℕ
  pub mode : ℕ
  pub offset : ℕ

-- The running process's `fd_list` (0 is no description), the descriptions, and the file systems'.
pub record Files (S : Type 0) : Type 0 where
  pub fd_list : Vector ℕ
  pub descriptions : ℕ → Option FileDescription
  pub world : S

-- `mode & Modes::READ` and `mode & Modes::WRITE`: the bits 2 and 1.
abbrev pub may_read : FileDescription → Bool
may_read fd = not (fd.mode / 4 % 2 == 0)

abbrev pub may_write : FileDescription → Bool
may_write fd = not (fd.mode / 2 % 2 == 0)

-- The loop of `syscall_open` from index `i`, with the rounds that are left: the first free index.
unfoldable pub free_slot : ℕ → ℕ → Vector ℕ → Outcome (Option ℕ)
free_slot zero i fds = done none
free_slot (suc n) i fds =
    let rest = free_slot n (i + 1) fds in
    Vector.at fds i >>= λ fd. if fd == 0 then done (some i) else rest

-- `fd` at the first free index, or behind the others; and where it is.
unfoldable pub place : ℕ → Vector ℕ → Outcome (ℕ × Vector ℕ)
unfolding free_slot
place fd fds = do
  slot ← free_slot fds.m_capacity 0 fds
  elim slot [
    | some i ↦ Vector.assign fds i fd >>= λ fds'. done (i, fds')
    | none ↦
        Vector.push_back 0 fd fds >>= λ fds'. done ((fds'.m_capacity + u64_mod - 1) % u64_mod, fds')
  ]

module _ {S : Type 0} where
  -- `opened` is what `Vfs::open` does: the description's address, 0 if it failed, what it wrote
  -- there, and the file systems' new state. The result is `rax`.
  unfoldable pub syscall_open : (S → ℕ × FileDescription × S) → Files S → Outcome (ℕ × Files S)
  unfolding place
  syscall_open opened st =
      let (fd, description, world) = opened st.world in
      if fd == 0 then done (minus_one, record st { world = world }) else (do
        (rax, fds) ← place fd st.fd_list
        done (
          rax,
          record {
            fd_list = fds;
            descriptions = update st.descriptions fd (some description);
            world = world;
          },
        ))

  -- `fd->...`
  unfoldable pub deref_fd : Files S → ℕ → Outcome FileDescription
  deref_fd st fd = elim (st.descriptions fd) [ none ↦ fault | some d ↦ done d ]

  -- `syscall_read` and `syscall_write` differ in the mode that they test, `allowed`, and in the call,
  -- `access`: `Vfs::read` or `Vfs::write`, on the file, the offset, the size and the buffer.
  unfoldable pub transfer :
      (FileDescription → Bool)
      → (ℕ → ℕ → ℕ → ℕ → S → ℕ × S)
      → ℕ
      → ℕ
      → ℕ
      → Files S
      → Outcome (ℕ × Files S)
  unfolding deref_fd
  transfer allowed access rdi rsi rdx st =
      if leb st.fd_list.m_capacity rdi then done (minus_one, st) else (do
        fd ← Vector.at st.fd_list rdi
        if fd == 0 then done (minus_one, st) else (do
          d ← deref_fd st fd
          if not (allowed d) then done (minus_one, st) else (do
            let (rax, world) = access d.file d.offset rdx rsi st.world
            let moved = record d { offset = add64 d.offset rdx }
            done (
              rax,
              record st { descriptions = update st.descriptions fd (some moved); world = world },
            ))))

  unfoldable pub syscall_read :
      (ℕ → ℕ → ℕ → ℕ → S → ℕ × S) → ℕ → ℕ → ℕ → Files S → Outcome (ℕ × Files S)
  unfolding transfer
  syscall_read vfs_read rdi rsi rdx st = transfer may_read vfs_read rdi rsi rdx st

  unfoldable pub syscall_write :
      (ℕ → ℕ → ℕ → ℕ → S → ℕ × S) → ℕ → ℕ → ℕ → Files S → Outcome (ℕ × Files S)
  unfolding transfer
  syscall_write vfs_write rdi rsi rdx st = transfer may_write vfs_write rdi rsi rdx st

  -- `delete` ends the description's life.
  unfoldable pub syscall_close : ℕ → Files S → Outcome (ℕ × Files S)
  syscall_close rdi st = if leb st.fd_list.m_capacity rdi then done (minus_one, st) else (do
    fd ← Vector.at st.fd_list rdi
    if fd == 0 then done (0, st) else (do
      fds ← Vector.assign st.fd_list rdi 0
      done (0, record st { fd_list = fds; descriptions = update st.descriptions fd none })))
