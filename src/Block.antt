-- ===== src/Block.antt =====
-- vllm_blend/vllm/block.py, and `Device` of vllm_blend/vllm/utils.py: the logical and the physical token blocks.
-- `token_ids` of a logical block holds `block_size` places; the first `num_tokens` of them are in use.
-- `block_number` of a physical block is its place in the device's memory. Time stamps are integers,
-- since the program only compares them.
pub mod Logical
use cache_blend.Prelude.{
  ℕ, ◌+◌, ◌-◌, ◌<◌, ◌≤◌, ◌≡◌, Bool, true, false, Option, List, ◌++◌, ◌==◌, ltb, leb, length, take,
  drop, get_elem?, replicate, Result, ok, ◌>>=◌, ◌>>◌, assert, or_raise, index_error,
}
use cache_blend.Prelude.Int.{ℤ, pos, negsuc}

abbrev pub blank_token_id : ℤ
blank_token_id = negsuc 0

abbrev pub default_last_accessed_time : ℤ
default_last_accessed_time = negsuc 0

pub record LogicalTokenBlock : Type 0 where
  pub block_number : ℕ
  pub block_size : ℕ
  pub token_ids : List ℤ
  pub num_tokens : ℕ

unfoldable pub new_logical_block : ℕ → ℕ → LogicalTokenBlock
new_logical_block block_number block_size = record {
  block_number = block_number;
  block_size = block_size;
  token_ids = replicate block_size blank_token_id;
  num_tokens = 0;
}

unfoldable pub is_empty : LogicalTokenBlock → Bool
is_empty b = b.num_tokens == 0

unfoldable pub get_num_empty_slots : LogicalTokenBlock → ℕ
get_num_empty_slots b = b.block_size - b.num_tokens

unfoldable pub is_full : LogicalTokenBlock → Bool
is_full b = b.num_tokens == b.block_size

unfoldable pub append_tokens : LogicalTokenBlock → List ℤ → Result LogicalTokenBlock
unfolding get_num_empty_slots
append_tokens b token_ids = do
  assert (leb (length token_ids) (get_num_empty_slots b))
  let curr_idx = b.num_tokens
  let after = drop (curr_idx + length token_ids) b.token_ids
  ok (record b {
    token_ids = take curr_idx b.token_ids ++ (token_ids ++ after);
    num_tokens = curr_idx + length token_ids;
  })

unfoldable pub get_token_ids : LogicalTokenBlock → List ℤ
get_token_ids b = take b.num_tokens b.token_ids

unfoldable pub get_last_token_id : LogicalTokenBlock → Result ℤ
get_last_token_id b = do
  assert (ltb 0 b.num_tokens)
  or_raise (get_elem? b.token_ids (b.num_tokens - 1)) index_error

pub data Device : Type 0 where
  gpu cpu : Device

pub record PhysicalTokenBlock : Type 0 where
  pub device : Device
  pub block_number : ℕ
  pub block_size : ℕ
  pub block_hash : ℤ
  pub num_hashed_tokens : ℕ
  pub ref_count : ℕ
  pub last_accessed : ℤ
  pub computed : Bool

unfoldable pub new_physical_block : Device → ℕ → ℕ → ℤ → ℕ → PhysicalTokenBlock
new_physical_block device block_number block_size block_hash num_hashed_tokens = record {
  device = device;
  block_number = block_number;
  block_size = block_size;
  block_hash = block_hash;
  num_hashed_tokens = num_hashed_tokens;
  ref_count = 0;
  last_accessed = default_last_accessed_time;
  computed = false;
}
