-- ===== src/BlockV2.antt =====
-- The block allocation of block manager V2 without prefix caching: `RefCounter` and
-- `CopyOnWriteTracker` of vllm_blend/vllm/core/block/common.py, `NaiveBlockAllocator` and `NaiveBlock` of
-- vllm_blend/vllm/core/block/naive_block.py. The tracker and the counter are fields of the one allocator
-- that owns them. A block is an object in a heap and its own copy-on-write target; the factory of the
-- allocator builds `NaiveBlock`s. Python's order of a set is the order of its list here.
pub mod Refcounts
pub mod CopyOnWrite
pub mod Chain
pub mod Devices
pub mod Table
use cache_blend.Prelude.{
  ℕ, zero, suc, ◌+◌, ◌-◌, Bool, true, false, not, Option, none, some, List, [], ◌∷◌, ◌++◌, ◌==◌,
  length, mem, dedup, remove, Result, ok, raise, ◌>>=◌, ◌>>◌, assert, or_raise, assertion_error,
  no_free_blocks_error, out_of_fuel, ltb, leb, if◌then◌else◌,
}
use cache_blend.Prelude.Int.{ℤ}
use cache_blend.Prelude.Heap.{Heap, read, write, alloc}
use cache_blend.Prelude.Dict.{Dict, lookup, insert, nat_eq}

abbrev pub RefCounter : Type 0
RefCounter = Dict ℕ ℕ

zero_counts : List ℕ → RefCounter
zero_counts [] = []
zero_counts (i ∷ is) = (i, 0) ∷ zero_counts is

unfoldable pub new_refcounter : List ℕ → RefCounter
unfolding zero_counts
new_refcounter all_block_indices = zero_counts (dedup all_block_indices)

unfoldable pub incr : RefCounter → ℕ → Result (ℕ × RefCounter)
incr r block_id = do
  pre_incr_refcount ← or_raise (lookup block_id r) assertion_error
  ok (pre_incr_refcount + 1, insert block_id (pre_incr_refcount + 1) r)

unfoldable pub decr : RefCounter → ℕ → Result (ℕ × RefCounter)
decr r block_id = do
  refcount ← or_raise (lookup block_id r) assertion_error
  assert (ltb 0 refcount)
  ok (refcount - 1, insert block_id (refcount - 1) r)

unfoldable pub get : RefCounter → ℕ → Result ℕ
get r block_id = or_raise (lookup block_id r) assertion_error

pub record NaiveBlockAllocator : Type 0 where
  pub free_block_indices : List ℕ
  pub all_block_indices : List ℕ
  pub refcounter : RefCounter
  pub block_size : ℕ
  pub copy_on_writes : Dict ℕ (List ℕ)

pub record NaiveBlock : Type 0 where
  pub token_ids : List ℤ
  pub block_size : ℕ
  pub prev_block : Option ℕ
  pub block_id : Option ℕ

abbrev pub NaiveBlocks : Type 0
NaiveBlocks = Heap NaiveBlock

unfoldable pub block_range : ℕ → ℕ → List ℕ
block_range i zero = []
block_range i (suc n) = i ∷ block_range (suc i) n

unfoldable pub new_naive : ℕ → ℕ → Option (List ℕ) → Result NaiveBlockAllocator
unfolding new_refcounter block_range
new_naive num_blocks block_size block_ids = do
  let ids : List ℕ = elim block_ids [ none ↦ block_range 0 num_blocks | some is ↦ is ]
  assert (length (dedup ids) == num_blocks)
  ok (record {
    free_block_indices = dedup ids;
    all_block_indices = dedup ids;
    refcounter = new_refcounter (dedup ids);
    block_size = block_size;
    copy_on_writes = [];
  })

unfoldable pub allocate_new_block_id : NaiveBlockAllocator → Result (ℕ × NaiveBlockAllocator)
unfolding incr
allocate_new_block_id a = elim a.free_block_indices [
  | [] ↦ raise no_free_blocks_error
  | block_id ∷ rest ↦ do
    (refcount, r) ← incr a.refcounter block_id
    ok (
      block_id,
      record a { refcounter = r; free_block_indices = remove block_id a.free_block_indices },
    )
]

-- `set.add`.
unfoldable pub add_index : ℕ → List ℕ → List ℕ
add_index i is = if mem i is then is else is ++ i ∷ []

unfoldable pub free_block_id : NaiveBlockAllocator → ℕ → Result NaiveBlockAllocator
unfolding decr add_index
free_block_id a block_id = do
  (refcount, r) ← decr a.refcounter block_id
  if refcount == 0
      then ok (record a {
        refcounter = r;
        free_block_indices = add_index block_id a.free_block_indices;
      })
      else ok (record a { refcounter = r })

unfoldable pub allocate_mutable :
    NaiveBlockAllocator → NaiveBlocks → Option ℕ → Result (ℕ × NaiveBlockAllocator × NaiveBlocks)
unfolding allocate_new_block_id
allocate_mutable a h prev_block = do
  (block_id, a') ← allocate_new_block_id a
  let (p, h') = alloc h (record {
    token_ids = [];
    block_size = a.block_size;
    prev_block = prev_block;
    block_id = some block_id;
  })
  ok (p, a', h')

-- `NaiveBlockAllocator.free`; a block without an id fails the assertion of `decr`.
unfoldable pub free :
    NaiveBlockAllocator → NaiveBlocks → ℕ → Result (NaiveBlockAllocator × NaiveBlocks)
unfolding free_block_id
free a h p = do
  block_id ← or_raise (read h p).block_id assertion_error
  a' ← free_block_id a block_id
  ok (a', write h p (record (read h p) { block_id = none }))

-- `self._copy_on_writes[src].append(dst)`, over a `defaultdict(list)`.
unfoldable pub track : ℕ → ℕ → Dict ℕ (List ℕ) → Dict ℕ (List ℕ)
track src dst cows = elim (lookup src cows) [
  | none ↦ insert src (dst ∷ []) cows
  | some dsts ↦ insert src (dsts ++ dst ∷ []) cows
]

unfoldable pub cow_block_if_not_appendable :
    NaiveBlockAllocator → NaiveBlocks → ℕ → Result (Option ℕ × NaiveBlockAllocator × NaiveBlocks)
unfolding get free allocate_mutable track
cow_block_if_not_appendable a h p = elim (read h p).block_id [
  | none ↦ ok (none, a, h)
  | some src_block_id ↦ do
    refcount ← get a.refcounter src_block_id
    assert (not (refcount == 0))
    if ltb 1 refcount
        then (do
          (a', h') ← free a h p
          (q, a'', h'') ← allocate_mutable a' h' (read h' p).prev_block
          dst ← or_raise (read {A = NaiveBlock} h'' q).block_id assertion_error
          ok (
            some dst,
            record a'' { copy_on_writes = track src_block_id dst a''.copy_on_writes },
            h'',
          ))
        else ok (some src_block_id, a, h)
]

unfoldable pub clear_cows : NaiveBlockAllocator → Dict ℕ (List ℕ) × NaiveBlockAllocator
clear_cows a = (a.copy_on_writes, record a { copy_on_writes = [] })

unfoldable pub num_empty_slots : NaiveBlock → ℕ
num_empty_slots b = b.block_size - length b.token_ids

unfoldable pub block_is_full : NaiveBlock → Bool
unfolding num_empty_slots
block_is_full b = num_empty_slots b == 0

unfoldable pub append_token_ids_no_cow : NaiveBlock → List ℤ → Result NaiveBlock
unfolding num_empty_slots
append_token_ids_no_cow b token_ids = do
  assert (leb (length token_ids) (num_empty_slots b))
  ok (record b { token_ids = b.token_ids ++ token_ids })

unfoldable pub append_token_ids :
    NaiveBlockAllocator → NaiveBlocks → ℕ → List ℤ → Result (NaiveBlockAllocator × NaiveBlocks)
unfolding append_token_ids_no_cow cow_block_if_not_appendable
append_token_ids a h p token_ids = do
  b ← append_token_ids_no_cow (read h p) token_ids
  let h' = write h p b
  elim b.block_id [
    | none ↦ ok (a, h')
    | some i ↦ do
      (block_id, a', h'') ← cow_block_if_not_appendable a h' p
      ok (a', write h'' p (record (read h'' p) { block_id = block_id }))
  ]

unfoldable pub allocate_immutable :
    NaiveBlockAllocator
    → NaiveBlocks
    → Option ℕ
    → List ℤ
    → Result (ℕ × NaiveBlockAllocator × NaiveBlocks)
unfolding allocate_mutable append_token_ids
allocate_immutable a h prev_block token_ids = do
  (p, a', h') ← allocate_mutable a h prev_block
  (a'', h'') ← append_token_ids a' h' p token_ids
  ok (p, a'', h'')

-- `get_all_blocks_recursively`. A block's predecessor is older than the block, so as many rounds as there
-- are objects are enough.
unfoldable pub all_blocks : ℕ → NaiveBlocks → ℕ → List ℕ → Result (List ℕ)
all_blocks zero h p later = raise out_of_fuel
all_blocks (suc rounds) h p later = elim (read h p).prev_block [
  | none ↦ ok (p ∷ later)
  | some q ↦ all_blocks rounds h q (p ∷ later)
]

unfoldable pub fork_blocks :
    NaiveBlockAllocator
    → NaiveBlocks
    → Option ℕ
    → List ℕ
    → List ℕ
    → Result (List ℕ × NaiveBlockAllocator × NaiveBlocks)
unfolding incr append_token_ids_no_cow
fork_blocks a h prev_block [] forked = ok (forked, a, h)
fork_blocks a h prev_block (p ∷ ps) forked = do
  block_id ← or_raise (read h p).block_id assertion_error
  (refcount, r) ← incr a.refcounter block_id
  assert (not (refcount == 1))
  b ←
      append_token_ids_no_cow
        (record {
          token_ids = [];
          block_size = a.block_size;
          prev_block = prev_block;
          block_id = some block_id;
        })
        (read h p).token_ids
  let (q, h') = alloc h b
  fork_blocks (record a { refcounter = r }) h' (some q) ps (forked ++ q ∷ [])

-- `NaiveBlockAllocator.fork`.
unfoldable pub fork :
    NaiveBlockAllocator → NaiveBlocks → ℕ → Result (List ℕ × NaiveBlockAllocator × NaiveBlocks)
unfolding all_blocks fork_blocks
fork a h last_block = do
  source_blocks ← all_blocks h.next h last_block []
  fork_blocks a h none source_blocks []

unfoldable pub num_free_blocks : NaiveBlockAllocator → ℕ
num_free_blocks a = length a.free_block_indices
