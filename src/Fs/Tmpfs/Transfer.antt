-- ===== src/Fs/Tmpfs/Transfer.antt =====
-- What `read` of src/kernel/fs/tmpfs.cpp returns after `write`.
use toystar.Prelude.{ℕ, ◌+◌, ◌-◌, ◌<◌, ◌≤◌, ◌≡◌, ap, ◌∙◌, true, false, if◌then◌else◌, arith}
use toystar.Prelude.Outcome.{done}
use toystar.Memory.Pmm.Search.{within}
use toystar.Fs.Vfs.{FsNode}
use toystar.Fs.Tmpfs.{Tmpfs, TmpfsNode}
use toystar.Fs.Tmpfs.Contents.{read, write, copy, IsFile, byte_at, read-inside, write-inside}

copied :
    (to from : ℕ → ℕ) (dest src bytes i : ℕ)
    → i < bytes
    → copy to dest from src bytes (dest + i) ≡ from (src + i)
unfolding copy
copied to from dest src bytes i lt =
    let here : within dest bytes (dest + i) ≡ true = ground arith in
    let back : dest + i - dest ≡ i = omega arith in rw (here, back)

-- The byte of a file after a write.
overlaid :
    (to from : ℕ → ℕ) (frame offset src bytes i : ℕ)
    → copy to (frame + offset) from src bytes (frame + i)
      ≡ (if within offset bytes i then from (src + (i - offset)) else to (frame + i))
unfolding copy
overlaid to from frame offset src bytes i =
    let same : within (frame + offset) bytes (frame + i) ≡ within offset bytes i = ground arith in
    let back : frame + i - (frame + offset) ≡ i - offset = omega arith in rw (same, back)

outside :
    (to from : ℕ → ℕ) (frame offset src bytes size a : ℕ)
    → offset + bytes ≤ size
    → within frame size a ≡ false
    → copy to (frame + offset) from src bytes a ≡ to a
unfolding copy
outside to from frame offset src bytes size a le out =
    let no_byte : within (frame + offset) bytes a ≡ false = ground arith in rw no_byte

module _ {st : Tmpfs} {path frame : ℕ} {nd : TmpfsNode} {file : FsNode ℕ}
    (h : IsFile st path frame nd file) where
  -- A write and then a read, both inside of the file's size, return 0. The buffer of the read then
  -- holds the bytes of the write where the two ranges meet, and the file's bytes from before
  -- elsewhere; no byte outside of the file has changed. The file's bytes lie in the mapping of
  -- physical memory.
  pub read-write :
      (offset size buffer offset' size' buffer' : ℕ)
      → offset + size ≤ file.size
      → offset' + size' ≤ file.size
      → (st₁ st₂ : Tmpfs) × (write path offset size buffer st ≡ done (0, st₁))
        × (read path offset' size' buffer' st₁ ≡ done (0, st₂))
        × ((i : ℕ)
            → i < size'
            → st₂.buffers (buffer' + i) ≡ (
                if within offset size (offset' + i)
                then st.buffers (buffer + (offset' + i - offset))
                else byte_at st frame (offset' + i)))
        × ((a : ℕ) → within frame file.size a ≡ false → st₁.pmm.memory a ≡ st.pmm.memory a)
  read-write offset size buffer offset' size' buffer' le le' =
      let memory = copy st.pmm.memory (frame + offset) st.buffers buffer size in
      let st₁ : Tmpfs = record st { pmm = record st.pmm { memory = memory } } in
      let h₁ : IsFile st₁ path frame nd file = record {
        file_there = h.file_there;
        node_there = h.node_there;
        own = h.own;
        bytes = h.bytes;
        room = h.room;
        lies = h.lies;
      } in
      let st₂ : Tmpfs = record st₁ {
        buffers = copy st.buffers buffer' memory (frame + offset') size';
      } in
      (
        st₁,
        st₂,
        write-inside h offset size buffer le,
        read-inside h₁ offset' size' buffer' le',
        λ i lt.
            let e : frame + offset' + i ≡ frame + (offset' + i) = omega arith in
            copied st.buffers memory buffer' (frame + offset') size' i lt
            ∙ ap memory e
            ∙ overlaid st.pmm.memory st.buffers frame offset buffer size (offset' + i),
        λ a out. outside st.pmm.memory st.buffers frame offset buffer size file.size a le out,
      )
