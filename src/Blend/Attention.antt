-- ===== src/Blend/Attention.antt =====
-- `XFormersImpl.forward` of vllm_blend/vllm/attention/backends/xformers.py up to the attention kernels:
-- the choice of rows at a check layer and the merge of new rows into old ones after it.
-- `row_diffs` is torch's sum of squared differences row by row, `topk` the indices of `torch.topk` and
-- `sort` the values of `torch.sort`. `recomp_ratio` is a ratio of two numbers. The dictionary
-- `cache_fuse_metadata` is `FuseMetadata`; its slot mappings, biases, types,
-- `check_layer`, `collect`, `org_seq_len`, `org_pos` and `fake_q` are left out. `kv_cache` is given: the profiling
-- run, which has none, stores no rows.
use cache_blend.Prelude.{
  ℕ, zero, suc, ◌+◌, ◌-◌, ◌*◌, ◌/◌, Bool, Option, none, some, List, [], ◌∷◌, ◌++◌, map, ◌==◌,
  length, take, drop, Result, ok, ◌>>=◌, ◌>>◌, assert, or_raise, type_error,
}
use cache_blend.Prelude.Int.{ℤ, pos, negsuc, ◌+ℤ◌, ◌-ℤ◌}
use cache_blend.Blend.Rows.{gather, index_put}

-- `status`: -1, 0, 1 and 2 in the source.
pub data FuseStatus : Type 0 where
  decoding full_prefill checking after_check : FuseStatus

pub record FuseMetadata : Type 0 where
  pub check : Bool
  pub check_layers : List ℕ
  pub recomp_num : ℕ
  pub recomp_den : ℕ
  pub suffix_len : ℕ
  pub imp_indices : Option (List ℤ)

-- `int(n * recomp_ratio)`, which rounds towards zero.
unfoldable pub trunc_ratio : ℤ → ℕ → ℕ → ℤ
trunc_ratio (pos n) num den = pos (n * num / den)
trunc_ratio (negsuc n) num den = pos 0 -ℤ pos (suc n * num / den)

-- `[start + l for l in range(n)]`.
unfoldable pub offsets : ℤ → ℕ → List ℤ
offsets start zero = []
offsets start (suc n) = start ∷ offsets (start +ℤ pos 1) n

unfoldable pub last_indices : ℕ → ℕ → List ℤ
unfolding offsets
last_indices total_len last_len = offsets (pos total_len -ℤ pos last_len) last_len

-- `rows[:-n]`, which is empty for n = 0.
unfoldable pub drop_last {ℓ} : {R : Type ℓ} → ℕ → List R → List R
drop_last zero rows = []
drop_last (suc n) rows = take (length rows - suc n) rows

module _ {ℓ κ} {R : Type ℓ} {S : Type κ} where
  -- The indices of a check layer: the rows that differ most, then the suffix.
  unfoldable pub select_rows :
      (List R → List R → Result (List S))
      → (List S → ℤ → Result (List ℕ))
      → (List ℕ → List ℕ)
      → FuseMetadata
      → List R
      → List R
      → Result (List ℤ)
  unfolding drop_last last_indices trunc_ratio
  select_rows row_diffs topk sort meta value value_old = do
    let last_len = meta.suffix_len
    let total_len = length value
    let topk_num = trunc_ratio (pos total_len -ℤ pos last_len) meta.recomp_num meta.recomp_den
    diffs ← row_diffs (drop_last last_len value) (drop_last last_len value_old)
    chosen ← topk diffs topk_num
    ok (map pos (sort chosen) ++ last_indices total_len last_len)

-- What a forward pass holds when it comes to the kernels. `stored_key` and `stored_value` are the rows
-- handed to `write_to_paged_cache`; `key_old` and `value_old` are written in place.
pub record Attended {ℓ} (R : Type ℓ) : Type ℓ where
  pub query : List R
  pub decode_query : Option (List R)
  pub key : List R
  pub value : List R
  pub stored_key : List R
  pub stored_value : List R
  pub key_old : List R
  pub value_old : List R
  pub meta : FuseMetadata

module _ {ℓ κ} {R : Type ℓ} {S : Type κ} where
  unfoldable pub attend :
      (List R → List R → Result (List S))
      → (List S → ℤ → Result (List ℕ))
      → (List ℕ → List ℕ)
      → FuseStatus
      → FuseMetadata
      → (query key value key_old value_old : List R) → (num_prefill_tokens num_decode_tokens : ℕ)
      → Result (Attended R)
  unfolding select_rows
  attend row_diffs topk sort checking meta query key value key_old value_old prefill decode = do
    top_indices ← select_rows row_diffs topk sort meta value value_old
    query' ← gather query top_indices
    assert (length query' == length top_indices)
    ok (record {
      query = query';
      decode_query = none;
      key = take prefill key;
      value = take prefill value;
      stored_key = key;
      stored_value = value;
      key_old = key_old;
      value_old = value_old;
      meta = record meta { imp_indices = some top_indices };
    })
  attend row_diffs topk sort after_check meta query key value key_old value_old prefill decode = do
    imp_indices ← or_raise meta.imp_indices type_error
    key' ← index_put key_old imp_indices key
    value' ← index_put value_old imp_indices value
    assert (length query == length imp_indices)
    ok (record {
      query = query;
      decode_query = none;
      key = take prefill key';
      value = take prefill value';
      stored_key = key';
      stored_value = value';
      key_old = key';
      value_old = value';
      meta = meta;
    })
  attend row_diffs topk sort _ meta query key value key_old value_old prefill decode = do
    assert (length key == prefill + decode)
    assert (length value == prefill + decode)
    assert (length (take prefill query) == prefill)
    assert (length (drop prefill query) == decode)
    ok (record {
      query = take prefill query;
      decode_query = some (drop prefill query);
      key = take prefill key;
      value = take prefill value;
      stored_key = key;
      stored_value = value;
      key_old = key_old;
      value_old = value_old;
      meta = meta;
    })
