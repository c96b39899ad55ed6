-- ===== src/Fs/Files/Tests.antt =====
-- Runs of src/kernel/fs/files.cpp, and its theorems at a concrete table of descriptors.
use toystar.Prelude.{ℕ, ◌+◌, ◌≡◌, refl, false, some, [], ◌∷◌, arith}
use toystar.Prelude.Outcome.{done, ◌>>=◌}
use toystar.Klibc.Vector.Laws.{Holds}
use toystar.Fs.Files.{Files, FileDescription, may_read, transfer, syscall_open}
use toystar.Fs.Files.Open.{Opened, syscall_open-Opened}
use toystar.Fs.Files.Access.{Access, moved, transfer-open}

-- Descriptor 1 is free.
abbrev start : Files ℕ
start = record {
  fd_list = record { m_data = 100 ∷ 0 ∷ 200 ∷ []; m_capacity = 3; m_is_empty = false };
  descriptions = λ a. some (record { file = a; mode = 4; offset = 0 });
  world = 7;
}

start-Holds : Holds start.fd_list (100 ∷ 0 ∷ 200 ∷ [])
start-Holds = record { elements = refl; capacity = refl; is_empty = refl }

abbrev fresh : FileDescription
fresh = record { file = 9; mode = 4; offset = 0 }

abbrev opened : ℕ → ℕ × FileDescription × ℕ
opened world = (300, fresh, world + 1)

-- It returns the offset and the size, and counts the calls.
abbrev access : Access ℕ
access file offset size buffer world = (offset + size, world + 1)

syscall_open-Opened_example :
    (st : Files ℕ) × (syscall_open opened start ≡ done (1, st))
    × Opened start (100 ∷ 0 ∷ 200 ∷ []) 300 fresh 8 st
syscall_open-Opened_example =
    syscall_open-Opened opened start (100 ∷ 0 ∷ 200 ∷ []) 300 fresh 8 start-Holds (omega arith) refl
      (omega arith)

transfer-open_example :
    (st : Files ℕ) × ((syscall_open opened start >>= λ r. transfer may_read access r.0 0 16 r.1)
      ≡ done (16, st))
    × (st.descriptions 300 ≡ some (moved fresh 16))
    × (st.world ≡ 9)
transfer-open_example =
    transfer-open may_read access opened start (100 ∷ 0 ∷ 200 ∷ []) 300 fresh 8 0 16 start-Holds
      (omega arith) refl (omega arith) refl
