-- ===== src/Blend/Layers.antt =====
-- The loop over the layers in `LlamaModel.forward` of
-- vllm_blend/vllm/model_executor/models/llama.py: the status that each layer runs under, and the
-- positions that are left. `layer` stands for `LlamaDecoderLayer`: from its number, its status, the
-- positions, the states that pass through the layers and the metadata, to new states and metadata.
use cache_blend.Prelude.{
  ℕ, zero, suc, ◌+◌, Bool, Option, none, some, List, get_elem?, mem, Result, ok, ◌>>=◌, or_raise,
  index_error, type_error, unbound_local_error, ltb, if◌then◌else◌,
}
use cache_blend.Blend.Rows.{gather}
use cache_blend.Blend.Attention.{
  FuseStatus, decoding, full_prefill, checking, after_check, FuseMetadata,
}

-- A prefill that checks forgets the indices of the last one.
unfoldable pub start_metadata : FuseMetadata → FuseMetadata
start_metadata meta = if meta.check then record meta { imp_indices = none } else meta

-- The head of the loop: the new status and `check_layer_idx`, which a decoding pass leaves unbound.
unfoldable pub next_status :
    FuseMetadata → FuseStatus → Option ℕ → ℕ → Result (FuseStatus × Option ℕ)
next_status meta temp_status check_layer_idx i =
    if meta.check
    then (if mem i meta.check_layers
        then (do
          idx ← or_raise check_layer_idx unbound_local_error
          check_layer ← or_raise (get_elem? meta.check_layers idx) index_error
          ok (checking, some (idx + 1)))
        else (do
          first ← or_raise (get_elem? meta.check_layers 0) index_error
          ok (if ltb first i then after_check else temp_status, check_layer_idx)))
    else ok (temp_status, check_layer_idx)

module _ {ℓ} {P : Type ℓ} where
  -- The positions after a layer: a check layer keeps those of the chosen rows. The attention of a check
  -- layer has set the indices; indexing by `None` would add an axis, which a list of positions has not.
  unfoldable pub next_positions : FuseStatus → FuseMetadata → List P → Result (List P)
  next_positions checking meta positions = do
    imp_indices ← or_raise meta.imp_indices type_error
    gather positions imp_indices
  next_positions _ meta positions = ok positions

module _ {ℓ κ} {P : Type ℓ} {X : Type κ}
    (layer : ℕ → FuseStatus → List P → X → FuseMetadata → Result (X × FuseMetadata)) where
  -- `rounds` layers are left, from layer `i` on.
  unfoldable pub run_layers :
      ℕ → ℕ → FuseStatus → Option ℕ → List P → X → FuseMetadata → Result (X × FuseMetadata × List P)
  unfolding next_status next_positions
  run_layers zero i temp_status check_layer_idx positions x meta = ok (x, meta, positions)
  run_layers (suc rounds) i temp_status check_layer_idx positions x meta = do
    (status, idx) ← next_status meta temp_status check_layer_idx i
    (x', meta') ← layer i status positions x meta
    positions' ← next_positions status meta' positions
    run_layers rounds (suc i) status idx positions' x' meta'

  -- `forward`: `prefill` tells whether the batch has prompts.
  unfoldable pub forward : ℕ → Bool → List P → X → FuseMetadata → Result (X × FuseMetadata × List P)
  unfolding run_layers
  forward num_layers prefill positions x meta =
      if prefill
      then run_layers num_layers 0 full_prefill (some 0) positions x (start_metadata meta)
      else run_layers num_layers 0 decoding none positions x meta
