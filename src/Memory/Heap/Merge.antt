-- ===== src/Memory/Heap/Merge.antt =====
-- `try_to_merge`, `kfree` and `krealloc` of src/kernel/memory/heap.cpp.
use toystar.Prelude.{
  ℕ, zero, suc, ◌+◌, ◌-◌, ◌^◌, Bool, true, false, none, some, ◌&&◌, ◌||◌, ◌==◌, ltb, leb,
  if◌then◌else◌, not,
}
use toystar.Prelude.Word.{add64, sub64}
use toystar.Prelude.Outcome.{Outcome, done, hang, fault, ◌>>=◌}
use toystar.Lock.{acquire, release}
use toystar.Memory.Heap.{
  Heap, Ptr, null, max_power, min_power, sizeof_block, shl_int, bucket, deref, set_bucket, set_next,
  set_size, index_from_order, find_buddy, order_for, order_fuel, kmalloc,
}

-- What the pointer `p` of `try_to_merge` points to: a bucket, or the `next` of a block.
pub data Slot : Type 0 where
  bucket_slot : ℕ → Slot
  next_slot : Ptr → Slot

unfoldable pub load : Slot → Heap → Outcome Ptr
unfolding bucket deref
load (bucket_slot index) s = bucket index s
load (next_slot p) s = do b ← deref p s; done b.next

abbrev pub store : Slot → Ptr → Heap → Heap
store (bucket_slot index) q s = set_bucket index q s
store (next_slot p) q s = set_next p q s

-- `while (buddy--) { … }`: `p` and `buddyBlock` afterwards. It unlinks `curr` on the way.
unfoldable pub seek_buddy : ℕ → Ptr → Slot → Ptr → Heap → Outcome (Slot × Ptr × Heap)
unfolding load deref
seek_buddy zero curr p buddy_block s = done (p, buddy_block, s)
seek_buddy (suc n) curr p buddy_block s = do
  at ← load p s
  b ← deref buddy_block s
  let unlink = at == curr
  seek_buddy n curr (if unlink then p else next_slot buddy_block) b.next
      (if unlink then store p b.next s else s)

-- The loop of `try_to_merge`.
unfoldable pub merge_loop : ℕ → ℕ → ℕ → Ptr → Bool → Heap → Outcome (Bool × Heap)
unfolding index_from_order find_buddy seek_buddy bucket deref
merge_loop zero order i curr merged s = hang
merge_loop (suc fuel) order i curr merged s = if curr == null then done (merged, s) else do
  let index = index_from_order order
  found ← find_buddy (suc fuel) order i s
  elim found [
    | none ↦ do c ← deref curr s; merge_loop fuel order (i + 1) c.next merged s
    | some buddy ↦ do
      head ← bucket index s
      r ← seek_buddy buddy curr (bucket_slot index) head s
      b ← deref r.1 r.2
      let s1 = store r.0 b.next r.2
      c ← deref curr s1
      let next = if c.next == r.1 then (s1.blocks c.next).next else c.next
      up ← bucket (sub64 index 1) s1
      bit ← shl_int (order + 1)
      let lower = if ltb curr r.1 then curr else r.1
      let s2 = set_next lower up (set_size lower bit s1)
      merge_loop fuel order (i + 1) next true (set_bucket (sub64 index 1) lower s2)
  ]

unfoldable pub try_to_merge : ℕ → ℕ → Heap → Outcome (Bool × Heap)
unfolding index_from_order bucket merge_loop
try_to_merge fuel order s =
    if ltb max_power order
    then done (false, s)
    else do curr ← bucket (index_from_order order) s; merge_loop fuel order 0 curr false s

-- `while (order < MAX_POWER && try_to_merge(order++));`
unfoldable pub merge_up : ℕ → ℕ → ℕ → Heap → Outcome Heap
unfolding try_to_merge
merge_up zero fuel order s = hang
merge_up (suc n) fuel order s =
    let rest = merge_up n fuel (order + 1) in
    if ltb order max_power
    then (try_to_merge fuel order s >>= λ r. if r.0 then rest r.1 else done r.1)
    else done s

-- `ptr` lies outside the heap, by the test of `kfree` and `krealloc`.
unfoldable pub is_foreign : Ptr → Heap → Bool
is_foreign ptr s = ltb ptr s.base_addr || ltb (add64 s.base_addr (2 ^ max_power)) ptr

unfoldable pub kfree : ℕ → Ptr → Heap → Outcome Heap
unfolding is_foreign deref order_for index_from_order acquire release bucket merge_up
kfree fuel ptr s = if is_foreign ptr s then done s else do
  let block = sub64 ptr sizeof_block
  b ← deref block s
  order ← order_for order_fuel min_power b.size
  let index = index_from_order order
  lock ← acquire s.heap_lock
  let s1 = record s { heap_lock = lock }
  head ← bucket index s1
  s2 ← merge_up 21 fuel order (set_bucket index block (set_next block head s1))
  done (record s2 { heap_lock = release s2.heap_lock })

-- `memcpy` of src/klibc/memory.cpp, for ranges that do not overlap.
unfoldable pub memcpy : (ℕ → ℕ) → ℕ → ℕ → ℕ → ℕ → ℕ
memcpy mem dest src bytes a =
    if leb dest a && ltb a (dest + bytes) then mem (src + (a - dest)) else mem a

-- `krealloc`; `none` is the null pointer of its first test. `kmalloc` may return null too, and the
-- copy then goes through it: a fault, unless nothing is copied.
unfoldable pub krealloc : ℕ → Ptr → ℕ → Heap → Outcome (Ptr × Heap)
unfolding is_foreign deref kmalloc memcpy kfree
krealloc fuel ptr bytes s = if is_foreign ptr s then done (null, s) else do
  r ← kmalloc bytes s
  b ← deref (sub64 ptr sizeof_block) r.1
  let count = if ltb b.size bytes then b.size else bytes
  if r.0 == null && not (count == 0) then fault else do
    s' ← kfree fuel ptr (record r.1 { payload = memcpy r.1.payload r.0 ptr count })
    done (r.0, s')
