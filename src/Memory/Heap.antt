-- ===== src/Memory/Heap.antt =====
-- src/kernel/memory/heap.cpp: the buddy allocator of the kernel heap.
--
-- The headers of the blocks are a store from addresses to `Block`, and `bucketList` is an array of
-- one page, so an index past it is a fault. A loop along a list of blocks takes fuel and hangs
-- without it, as the code would on a cycle.
pub mod Merge
pub mod FreeLists
pub mod Order
pub mod Conserve
pub mod Find
pub mod Take
pub mod Kmalloc
pub mod Init
pub mod Buddy
mod Tests
pub mod Split
use toystar.Prelude.{
  ℕ, zero, suc, ◌+◌, ◌-◌, ◌*◌, ◌/◌, ◌^◌, Bool, true, false, Option, none, some, ◌&&◌, ◌||◌, ◌==◌,
  ltb, leb, if◌then◌else◌, not, bit_xor,
}
use toystar.Prelude.Word.{u64_mod, add64, sub64, update}
use toystar.Prelude.Outcome.{Outcome, done, hang, fault, ◌>>=◌}
use toystar.Lock.{LockT, acquire, release}

abbrev pub max_power : ℕ
max_power = 20

abbrev pub min_power : ℕ
min_power = 4

abbrev pub Ptr : Type 0
Ptr = ℕ

abbrev pub null : Ptr
null = 0

pub record Block : Type 0 where
  pub size : ℕ
  pub next : Ptr
  pub reserved : ℕ

-- `sizeof(Block)`, with its padding
abbrev pub sizeof_block : ℕ
sizeof_block = 24

-- `bucketList` points to one page of pointers.
abbrev pub bucket_count : ℕ
bucket_count = 512

-- The fields of `BuddyAllocator`, the lock beside them, and the memory that they lead to: block
-- headers, and the bytes of the payloads.
pub record Heap : Type 0 where
  pub bucket_list : ℕ → Ptr
  pub base_addr : ℕ
  pub heap_lock : LockT
  pub blocks : Ptr → Block
  pub payload : ℕ → ℕ

-- `1 << order` for an `int`, as it is converted to `size_t`; a shift by the width is undefined.
abbrev pub shl_int : ℕ → Outcome ℕ
shl_int order =
    if ltb order 31
    then done (2 ^ order)
    else if order == 31
    then done (u64_mod - 2 ^ 31)
    else fault

-- `bucketList[index]`
unfoldable pub bucket : ℕ → Heap → Outcome Ptr
bucket index s = if ltb index bucket_count then done (s.bucket_list index) else fault

-- `*curr`
unfoldable pub deref : Ptr → Heap → Outcome Block
deref p s = if p == null then fault else done (s.blocks p)

abbrev pub set_bucket : ℕ → Ptr → Heap → Heap
set_bucket index p s = record s { bucket_list = update s.bucket_list index p }

abbrev pub set_next : Ptr → Ptr → Heap → Heap
set_next p q s = record s { blocks = update s.blocks p (record (s.blocks p) { next = q }) }

abbrev pub set_size : Ptr → ℕ → Heap → Heap
set_size p n s = record s { blocks = update s.blocks p (record (s.blocks p) { size = n }) }

unfoldable pub index_from_order : ℕ → ℕ
index_from_order order = sub64 max_power order

-- `while (i--) curr = curr->next`
unfoldable pub walk : ℕ → Ptr → Heap → Outcome Ptr
unfolding deref
walk zero curr s = done curr
walk (suc i) curr s = do b ← deref curr s; walk i b.next s

-- The second loop of `find_buddy`, with the position of `curr`.
unfoldable pub search_buddy : ℕ → Ptr → Ptr → ℕ → Heap → Outcome (Option ℕ)
search_buddy zero buddy curr i s = hang
search_buddy (suc fuel) buddy curr i s =
    let rest = search_buddy fuel buddy (s.blocks curr).next (i + 1) s in
    if curr == null then done none else if curr == buddy then done (some i) else rest

-- `find_buddy`; `none` is -1.
unfoldable pub find_buddy : ℕ → ℕ → ℕ → Heap → Outcome (Option ℕ)
unfolding index_from_order bucket walk search_buddy
find_buddy fuel order i s = if leb order min_power then done none else do
  head ← bucket (index_from_order order) s
  if head == null then done none else do
    curr ← walk i head s
    if curr == null
        then done none
        else do bit ← shl_int order; search_buddy fuel (bit_xor curr bit) head 0 s

-- `split_block`. Its first test is false of every order.
unfoldable pub split_block : ℕ → Heap → Outcome (Bool × Heap)
unfolding index_from_order bucket
split_block order s = if leb order min_power && ltb max_power order then done (false, s) else do
  let index = index_from_order order
  block ← bucket index s
  if block == null then done (false, s) else do
    let s1 = set_bucket index (s.blocks block).next s
    bit ← shl_int order
    let block2 = add64 block (bit / 2)
    old ← bucket (index + 1) s1
    let s2 = set_size block2 (bit / 2) (set_next block2 old s1)
    let s3 = set_size block (bit / 2) (set_next block block2 s2)
    done (true, set_bucket (index + 1) block s3)

-- `while ((1 << order) < size) order++`
unfoldable pub order_for : ℕ → ℕ → ℕ → Outcome ℕ
order_for zero order size = hang
order_for (suc fuel) order size =
    let rest = order_for fuel (order + 1) size in
    shl_int order >>= λ bit. if ltb bit size then rest else done order

-- From order 4 the shift is undefined after 28 rounds.
abbrev pub order_fuel : ℕ
order_fuel = 30

-- `while (!split_block(t++)) { if (t > MAX_POWER) { return nullptr; } }`: the last `t` that was
-- tried, or `none` at the `return`.
unfoldable pub split_above : ℕ → ℕ → Heap → Outcome (Option ℕ × Heap)
unfolding split_block
split_above zero t s = hang
split_above (suc fuel) t s =
    let rest = split_above fuel (t + 1) in
    split_block t s >>= λ r.
    if r.0 then done (some t, r.1) else if ltb max_power (t + 1) then done (none, r.1) else rest r.1

-- `while (--t > order) split_block(t)`, with `n` rounds left, for `t = order + n`.
unfoldable pub split_down : ℕ → ℕ → Heap → Outcome Heap
unfolding split_block
split_down zero order s = done s
split_down (suc n) order s = do r ← split_block (order + suc n) s; split_down n order r.1

-- The end of `kmalloc`, with a block in the bucket.
unfoldable pub take_block : ℕ → Heap → Outcome (Ptr × Heap)
unfolding bucket deref
take_block index s = do
  allocated ← bucket index s
  b ← deref allocated s
  let s' = set_next allocated null (set_bucket index b.next s)
  done (add64 allocated sizeof_block, record s' { heap_lock = release s'.heap_lock })

-- The rest of `kmalloc` when the bucket is empty. The early `return nullptr` leaves the lock held.
unfoldable pub kmalloc_split : ℕ → ℕ → Heap → Outcome (Ptr × Heap)
unfolding split_above split_down take_block
kmalloc_split order index s = do
  r ← split_above 21 (order + 1) s
  elim (r.0) [
    | none ↦ done (null, r.1)
    | some t ↦ split_down (t - order - 1) order r.1 >>= take_block index
  ]

unfoldable pub kmalloc : ℕ → Heap → Outcome (Ptr × Heap)
unfolding order_for index_from_order acquire release bucket kmalloc_split take_block
kmalloc bytes s = do
  order ← order_for order_fuel min_power (add64 bytes sizeof_block)
  let index = index_from_order order
  lock ← acquire s.heap_lock
  let s1 = record s { heap_lock = lock }
  head ← bucket index s1
  if head == null then kmalloc_split order index s1 else take_block index s1
