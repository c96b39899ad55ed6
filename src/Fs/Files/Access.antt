-- ===== src/Fs/Files/Access.antt =====
-- `syscall_read`, `syscall_write` and `syscall_close` of src/kernel/fs/files.cpp.
use toystar.Prelude.{
  ℕ, zero, suc, ◌≤◌, ◌<◌, ◌≡◌, ◌≢◌, refl, sym, ◌∙◌, ap, Bool, true, false, none, some, List, [],
  ◌∷◌, ◌==◌, leb, length, get_elem?, set, arith, Bool-cases, inl, inr, ==_refl, get_elem?-set_self,
  length-set,
}
use mathlib.Core.Path.{subst}
use mathlib.Core.Option.{some-injective}
use toystar.Prelude.Outcome.{done, fault, ◌>>=◌}
use toystar.Prelude.Word.{u64_mod, add64, update}
use toystar.Klibc.Vector
use toystar.Klibc.Vector.{Vector}
use toystar.Klibc.Vector.Laws.{Holds}
use toystar.Klibc.Vector.Access.{get_elem?-some, at-Holds, assign-Holds}
use toystar.Fs.Vfs.{minus_one}
use toystar.Fs.Files.{
  Files, FileDescription, transfer, deref_fd, syscall_open, syscall_read, syscall_write,
  syscall_close,
}
use toystar.Fs.Files.Open.{lowest_free, placed, syscall_open-Opened}

get_elem?-placed : (fd : ℕ) (xs : List ℕ) → get_elem? (placed fd xs) (lowest_free xs) ≡ some fd
get_elem?-placed fd [] = refl
get_elem?-placed fd (x ∷ xs) = elim (Bool-cases (x == 0)) [
  | inl b ↦ rw b
  | inr b ↦ rw b (get_elem?-placed fd xs)
]

abbrev pub Access : Type 0 → Type 0
Access S = ℕ → ℕ → ℕ → ℕ → S → ℕ × S

-- The description after a transfer of `n` bytes.
abbrev pub moved : FileDescription → ℕ → FileDescription
moved d n = record d { offset = add64 d.offset n }

set-same : (xs : List ℕ) (i x : ℕ) → get_elem? xs i ≡ some x → set xs i x ≡ xs
set-same [] i x e = refl
set-same (y ∷ xs) zero x e = ap (λ t. t ∷ xs) (sym (some-injective y x e))
set-same (y ∷ xs) (suc i) x e = ap (λ t. y ∷ t) (set-same xs i x e)

module _ {S : Type 0} where
  deref_fd-live :
      (st : Files S) (fd : ℕ) (d : FileDescription)
      → st.descriptions fd ≡ some d
      → deref_fd st fd ≡ done d
  unfolding deref_fd
  deref_fd-live st fd d live = ap (λ o. elim o [ none ↦ fault | some x ↦ done x ]) live

  transfer-done :
      (allowed : FileDescription → Bool) (access : Access S) (i buffer n fd : ℕ) (st : Files S)
      (d : FileDescription)
      → leb st.fd_list.m_capacity i ≡ false
      → Vector.at st.fd_list i ≡ done fd
      → fd ≢ 0
      → st.descriptions fd ≡ some d
      → allowed d ≡ true
      → transfer allowed access i buffer n st
        ≡ done (
          (access d.file d.offset n buffer st.world).0,
          record st {
            descriptions = update st.descriptions fd (some (moved d n));
            world = (access d.file d.offset n buffer st.world).1;
          },
        )
  unfolding transfer
  transfer-done allowed access i buffer n fd st d inside at good live ok =
      let z : (fd == 0) ≡ false = ground arith in rw (inside, at, z, deref_fd-live st fd d live, ok)

  -- After a call of `syscall_open`, a transfer on the descriptor that it returned works on that
  -- file, from that offset, if the description's mode allows it, and moves the offset on by the
  -- number of bytes asked for.
  pub transfer-open :
      (allowed : FileDescription → Bool) (access : Access S) (opened : S → ℕ × FileDescription × S)
      (st : Files S) (xs : List ℕ) (fd : ℕ) (d : FileDescription) (world : S) (buffer n : ℕ)
      → Holds st.fd_list xs
      → length xs < u64_mod
      → opened st.world ≡ (fd, d, world)
      → fd ≢ 0
      → allowed d ≡ true
      → (st' : Files S) × ((syscall_open opened st >>= λ r.
            transfer allowed access r.0 buffer n r.1)
          ≡ done ((access d.file d.offset n buffer world).0, st'))
        × (st'.descriptions fd ≡ some (moved d n))
        × (st'.world ≡ (access d.file d.offset n buffer world).1)
  transfer-open allowed access opened st xs fd d world buffer n h small e good ok =
      let (st', o, k) = syscall_open-Opened opened st xs fd d world h small e good in
      let place = get_elem?-placed fd xs in
      let at = at-Holds st'.fd_list (placed fd xs) (lowest_free xs) fd k.table place in
      let l = get_elem?-some (placed fd xs) (lowest_free xs) fd place in
      let inside : leb st'.fd_list.m_capacity (lowest_free xs) ≡ false =
        ground (arith, k.table.capacity) in
      let live : st'.descriptions fd ≡ some d = ap (λ m. m fd) k.described ∙ rw (==_refl fd) in
      let t =
        transfer-done allowed access (lowest_free xs) buffer n fd st' d inside at good live ok in
      (
        record st' {
          descriptions = update st'.descriptions fd (some (moved d n));
          world = (access d.file d.offset n buffer world).1;
        },
        rw o (
            t
            ∙ ap
                (λ w. done (
                  (access d.file d.offset n buffer w).0,
                  record st' {
                    descriptions = update st'.descriptions fd (some (moved d n));
                    world = (access d.file d.offset n buffer w).1;
                  },
                ))
                k.state),
        rw (==_refl fd),
        refl,
      )

  transfer-free :
      (allowed : FileDescription → Bool) (access : Access S) (i buffer n : ℕ) (st : Files S)
      → leb st.fd_list.m_capacity i ≡ false
      → Vector.at st.fd_list i ≡ done 0
      → transfer allowed access i buffer n st ≡ done (minus_one, st)
  unfolding transfer
  transfer-free allowed access i buffer n st inside at = rw (inside, at)

  -- The state after `syscall_close`.
  closes :
      (st : Files S) (xs : List ℕ) (i fd : ℕ)
      → Holds st.fd_list xs
      → get_elem? xs i ≡ some fd
      → (st' : Files S) × (syscall_close i st ≡ done (0, st')) × Holds st'.fd_list (set xs i 0)
  unfolding syscall_close
  closes st xs i fd h e =
      let small = get_elem?-some xs i fd e in
      let at = at-Holds st.fd_list xs i fd h e in
      let inside : leb st.fd_list.m_capacity i ≡ false = ground (arith, h.capacity) in
      elim (Bool-cases (fd == 0)) [
        | inl z ↦
            let q : fd ≡ 0 = ground arith in
            (
              st,
              rw (inside, at, z),
              subst (Holds st.fd_list) (sym (set-same xs i 0 (e ∙ ap some q))) h,
            )
        | inr z ↦
            let (v, a, k) = assign-Holds st.fd_list xs i 0 h small in
            (
              record st { fd_list = v; descriptions = update st.descriptions fd none },
              rw (inside, at, z, a),
              k,
            )
      ]

  -- Closing a descriptor of the table returns 0, and a transfer on it after that returns -1 and
  -- changes nothing.
  transfer-close :
      (allowed : FileDescription → Bool) (access : Access S) (st : Files S) (xs : List ℕ)
      (i fd buffer n : ℕ)
      → Holds st.fd_list xs
      → get_elem? xs i ≡ some fd
      → (st' : Files S) × (syscall_close i st ≡ done (0, st'))
        × (transfer allowed access i buffer n st' ≡ done (minus_one, st'))
  transfer-close allowed access st xs i fd buffer n h e =
      let (st', c, k) = closes st xs i fd h e in
      let small = get_elem?-some xs i fd e in
      let free = get_elem?-set_self xs i 0 small in
      let inside : leb st'.fd_list.m_capacity i ≡ false =
        ground (arith, k.capacity, length-set xs i 0) in
      (
        st',
        c,
        transfer-free allowed access i buffer n st' inside
            (at-Holds st'.fd_list (set xs i 0) i 0 k free),
      )

  -- A descriptor outside the table: `read`, `write` and `close` return -1 and change nothing.
  calls-outside :
      (access : Access S) (st : Files S) (i buffer n : ℕ)
      → st.fd_list.m_capacity ≤ i
      → (syscall_read access i buffer n st ≡ done (minus_one, st))
        × (syscall_write access i buffer n st ≡ done (minus_one, st))
        × (syscall_close i st ≡ done (minus_one, st))
  unfolding syscall_read syscall_write syscall_close transfer
  calls-outside access st i buffer n h =
      let outside : leb st.fd_list.m_capacity i ≡ true = ground arith in
      (rw outside, rw outside, rw outside)
