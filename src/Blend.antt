-- ===== src/Blend.antt =====
-- The blending of cached keys and values: which rows of a layer are computed again, and how the layers
-- of the model take part. vllm_blend/vllm/attention/backends/xformers.py and
-- vllm_blend/vllm/model_executor/models/llama.py.
pub mod Rows
pub mod Attention
pub mod Layers
pub mod Schedule
pub mod Fused
pub mod Chosen
pub mod Chunks
