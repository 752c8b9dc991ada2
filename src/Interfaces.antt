-- ===== src/Interfaces.antt =====
-- `BlockSpaceManager` of vllm_blend/vllm/core/interfaces.py: what the scheduler asks of a block manager,
-- whose state is of the type `M`; and block manager V1 behind it.
use cache_blend.Prelude.{ℕ, Bool, List, Result, ok}
use cache_blend.Prelude.Int.{ℤ}
use cache_blend.Prelude.Dict.{Dict}
use cache_blend.Sequence.{Sequence}
use cache_blend.Sequence.Group.{SequenceGroup}
use cache_blend.Allocator.{get_num_free_blocks}
use cache_blend.ManagerV1
use cache_blend.ManagerV1.{AllocStatus, BlockSpaceManagerV1}
use cache_blend.ManagerV1.Append
use cache_blend.ManagerV1.Swap
use cache_blend.ManagerV1.Computed

pub record BlockSpaceManager (M : Type 0) : Type 0 where
  pub can_allocate : M → SequenceGroup → Result AllocStatus
  pub allocate : M → SequenceGroup → Result M
  pub can_append_slots : M → SequenceGroup → ℕ → Result Bool
  pub append_slots : M → Sequence → ℕ → Result (Dict ℕ (List ℕ) × M)
  pub fork : M → Sequence → Sequence → Result M
  pub can_swap_in : M → SequenceGroup → ℕ → Result Bool
  pub swap_in : M → SequenceGroup → ℕ → Result (Dict ℕ ℕ × M)
  pub can_swap_out : M → SequenceGroup → Result Bool
  pub swap_out : M → SequenceGroup → Result (Dict ℕ ℕ × M)
  pub free : M → Sequence → Result M
  pub get_block_table : M → Sequence → Result (List ℕ)
  pub get_num_free_gpu_blocks : M → ℕ
  pub get_num_free_cpu_blocks : M → ℕ
  pub access_all_blocks_in_seq : M → Sequence → ℤ → Result M
  pub get_common_computed_block_ids : M → List Sequence → Result (List ℕ)
  pub mark_blocks_as_computed : M → SequenceGroup → Result M

-- `hash` is Python's built-in hash of a sequence's tokens and its LoRA id.
abbrev pub v1 : (List ℤ → ℕ → ℤ) → BlockSpaceManager BlockSpaceManagerV1
v1 hash = record {
  can_allocate = ManagerV1.can_allocate;
  allocate = ManagerV1.allocate hash;
  can_append_slots = Append.can_append_slots;
  append_slots = λ m seq num_lookahead_slots. Append.append_slots hash m seq;
  fork = ManagerV1.fork;
  can_swap_in = Swap.can_swap_in;
  swap_in = Swap.swap_in;
  can_swap_out = Swap.can_swap_out;
  swap_out = Swap.swap_out;
  free = ManagerV1.free;
  get_block_table = ManagerV1.get_block_table;
  get_num_free_gpu_blocks = λ m. get_num_free_blocks m.gpu_allocator;
  get_num_free_cpu_blocks = λ m. get_num_free_blocks m.cpu_allocator;
  access_all_blocks_in_seq = Computed.access_all_blocks_in_seq;
  get_common_computed_block_ids = λ m seqs. ok (Computed.get_common_computed_block_ids m seqs);
  mark_blocks_as_computed = Computed.mark_blocks_as_computed;
}
