-- ===== src/Lib.antt =====
-- The scheduler, the block memory and the key-value blending of the serving engine in vllm_blend/vllm: which
-- requests run in a round, how they are cut into blocks of tokens, how the block manager lends physical
-- blocks to them and counts the references, and which tokens the blended prefill computes again.
--
-- How the parts interact. A request is a `SequenceGroup` of `Sequence`s; each sequence keeps its token
-- ids (`SequenceData`) and the logical blocks that they fill. The block manager maps the logical blocks
-- of a sequence to physical blocks, which it takes from one allocator for each device and shares between
-- forked sequences; the caching allocator leaves its freed blocks to the evictor. The scheduler keeps the
-- groups in three queues, waiting, running and swapped; in a round it takes prompts, serves the running
-- groups, preempts some where blocks run out and swaps others in, within a budget of tokens and sequences,
-- and asks the block manager through an interface for every block. A blended prompt is joined
-- from chunks whose keys and values were computed before; the model then checks one layer, chooses the rows
-- that differ most from the cached ones, and computes only those again in the layers after it.
--
-- Which file models which part:
-- - Prelude and its children: what all modules share. Errors holds Python's exceptions as values, Dict its
--   dictionaries, Sets its sets, Heap its shared mutable objects, Lists and Int the list and integer
--   operations over the native numbers.
-- - Utils: `cdiv`, `chunk_list` and `merge_dicts` of vllm_blend/vllm/utils.py.
-- - Block: vllm_blend/vllm/block.py, with `Device` of vllm_blend/vllm/utils.py. An object's fields are
--   those of the source; Block/Logical proves what an append does.
-- - Sequence: `SequenceStatus`, `SequenceData` and `Sequence` of vllm_blend/vllm/sequence.py;
--   Sequence/Group holds `SequenceGroup`, Sequence/Metadata `SequenceGroupMetadata`, Sequence/Data, Sequence/Slots and Sequence/Synced the proofs.
--   A method of the data or of a group whose name the sequence has too carries the prefix data_ or group_.
-- - Evictor: `LRUEvictor` of vllm_blend/vllm/core/evictor.py; Evictor/Order proves its choice.
-- - Allocator: the two allocators of vllm_blend/vllm/core/block_manager_v1.py.
-- - ManagerV1: `BlockSpaceManagerV1` of the same file. Append holds the methods around `append_slots`, Swap
--   those that swap, Computed those on access times and computed blocks. Counts relates the counts and the
--   free lists to one call of an allocator, Tables counts the tables that hold a block, and Sharing, Growing,
--   Admission and Start prove forking and freeing, growing, admission and the constructor.
-- - BlockV2: the naive allocation of block manager V2, `RefCounter` and `CopyOnWriteTracker` of
--   vllm_blend/vllm/core/block/common.py and `NaiveBlockAllocator` and `NaiveBlock` of
--   vllm_blend/vllm/core/block/naive_block.py. BlockV2/Devices is `CpuGpuBlockAllocator` of
--   vllm_blend/vllm/core/block/cpu_gpu_block_allocator.py and BlockV2/Table `BlockTable` of
--   vllm_blend/vllm/core/block/block_table.py; its Chunks and Room prove how tokens are cut and how many
--   blocks they need. BlockV2/Refcounts proves the counts of single calls and
--   BlockV2/CopyOnWrite the copy on write.
-- - Interfaces: `BlockSpaceManager` of vllm_blend/vllm/core/interfaces.py as a record of operations, and
--   block manager V1 behind it.
-- - Policy: vllm_blend/vllm/core/policy.py; Policy/Sorted proves the order that it makes.
-- - Scheduler: vllm_blend/vllm/core/scheduler.py, for any block manager behind the interface. The file itself
--   holds the state and the operations on one group, Scheduler/Budget `SchedulingBudget`, Scheduler/Config
--   `SchedulerConfig` of vllm_blend/vllm/config.py, Scheduler/Running, Swapped and Prefills the three
--   functions that serve a queue, Rounds and Chunked the two policies of a round, Calls `schedule`, and Abort
--   `abort_seq_group`. An Invariant module below each queue carries an invariant of the steps through its loop;
--   Requests and its children count the requests of the queues, Limits and Budget/Spent the budget, and Fcfs, Swaps,
--   Termination, Removal and Restored prove what their names say.
-- - ManagerV2: `BlockSpaceManagerV2` of vllm_blend/vllm/core/block_manager_v2.py, and the manager behind the
--   interface; the names of its methods end in _v2.
-- - StopChecker: vllm_blend/vllm/engine/output_processor/stop_checker.py; StopChecker/Steps and Outputs are
--   vllm_blend/vllm/engine/output_processor/multi_step.py, over a detokenizer, and Continues proves what a
--   sequence that goes on has passed.
-- - Blend: the reuse of cached keys and values. Blend/Attention is `XFormersImpl.forward` of
--   vllm_blend/vllm/attention/backends/xformers.py up to the kernels, over torch's indexing in Blend/Rows;
--   Blend/Layers is the loop of `LlamaModel.forward` of vllm_blend/vllm/model_executor/models/llama.py;
--   Blend/Chunks is example/blend.py. Blend/Chosen, Blend/Fused and Blend/Schedule hold the proofs on the
--   choice of rows, on their merge with cached ones and on the statuses of the layers.
-- - Tests: runs at concrete inputs.
--
-- Conventions. Physical blocks are objects that tables, allocators and evictor share, so they stand
-- in a heap and are named by their address; a call returns the new state, or raises. The loop that
-- fills logical blocks runs on fuel, the number of tokens, and is proved to return. The walk from a
-- block to its predecessors runs on fuel, the number of objects; BlockV2/Chain proves that this is
-- enough over the heaps that the allocator builds. The loops of `_schedule_running` run on fuel too,
-- one round for each group of the queue, and Scheduler/Running/Termination proves that they end. A
-- group stands in one queue or one output at a time, so that a call returns the changed group;
-- `schedule` finds the running groups of its outputs by their request ids, which are distinct. The
-- times that a round reads are its arguments; LoRA is given by the number of adapters that fit, if
-- it is on, and the delay factor is a ratio of two numbers. Python's `hash` is a parameter; the sums
-- of squared differences, `topk` and `sort` of torch and the decoder layer are parameters too. A
-- tensor is the list of its rows, and the recomputed share is a ratio of two numbers like the
-- watermark, so that their products are exact where the source rounds floats. The forward pass has a
-- `kv_cache`. In Blend/Chunks the tokenizer and the run of the engine are parameters, since
-- example/blend.py hands each chunk to the engine as a text. Times and log probabilities are
-- integers. A Python set is a list that holds each number once, and is iterated in the order of that
-- list.
--
-- Not modelled: the prefix caching of block manager V2, which that manager refuses, the other
-- configurations, the engine but for its stop checker and multi-step outputs, executors, workers and
-- entry points, the tensor code of the models, the kernels, slot mappings and masks of attention,
-- LoRA, speculative decoding, and of vllm_blend/vllm/sequence.py the beam search score and the
-- containers of sampler outputs.
pub mod Prelude
pub mod Utils
pub mod Block
pub mod Sequence
pub mod Evictor
pub mod Allocator
pub mod ManagerV1
pub mod BlockV2
pub mod Interfaces
pub mod ManagerV2
pub mod Policy
pub mod Scheduler
pub mod StopChecker
pub mod Blend
mod Tests
