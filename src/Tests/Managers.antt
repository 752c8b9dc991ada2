-- ===== src/Tests/Managers.antt =====
-- Block manager V1 on two GPU blocks and one CPU block: sequences 7 and 8 share the GPU block 0.
use cache_blend.Prelude.{
  ℕ, suc, ◌+◌, ◌≤◌, ◌<◌, ◌≡◌, ◌≢◌, refl, ◌⊎◌, true, false, none, some, List, [], ◌∷◌, length, mem,
  ◌==◌, ok, raise, value_error, assertion_error, key_error, arith, if◌then◌else◌,
}
use cache_blend.Prelude.Int.{ℤ, pos, negsuc}
use cache_blend.Prelude.Heap.{read, write}
use cache_blend.Prelude.Dict.{Dict, lookup, contains, insert, delete, nat_eq, int_eq}
use cache_blend.Block.{Device, gpu, cpu, PhysicalTokenBlock, LogicalTokenBlock}
use cache_blend.Evictor.{Blocks, LruEvictor, evict, num_blocks}
use cache_blend.Evictor.Order.{addresses, BeforeAll, evict-BeforeAll}
use cache_blend.Allocator.{uncached, get_num_free_blocks}
use cache_blend.Sequence.{
  Sequence, SequenceStatus, waiting, running, new_sequence_data, bare_sequence,
}
use cache_blend.Sequence.Group.{SequenceGroup, get_seqs, num_seqs}
use cache_blend.ManagerV1.{
  BlockSpaceManagerV1, BlockTable, assign_tables, new_manager, allocate, can_allocate, fits, fork,
  free,
}
use cache_blend.ManagerV1.Append.{append_slots}
use cache_blend.ManagerV1.Counts.{Pool}
use cache_blend.ManagerV1.Tables.{holders}
use cache_blend.ManagerV1.Sharing.{IsConsistent, free-IsConsistent, fork-IsConsistent}
use cache_blend.ManagerV1.Growing.{Grown, WantsBlock, append_slots-Grown}
use cache_blend.ManagerV1.Admission.{
  IsNew, allocate-IsConsistent, can_allocate-allocate, allocate-IsConsistent,
}
use cache_blend.ManagerV1.Start.{new_manager-IsConsistent}

abbrev hash : List ℤ → ℕ → ℤ
hash ts lora = pos (length ts + lora)

abbrev some_block : Device → ℕ → ℕ → PhysicalTokenBlock
some_block device number count = record {
  device = device;
  block_number = number;
  block_size = 2;
  block_hash = negsuc 0;
  num_hashed_tokens = 0;
  ref_count = count;
  last_accessed = negsuc 0;
  computed = false;
}

abbrev shared_heap : Blocks
shared_heap = record {
  next = 3;
  cell = λ q.
      if q == 0
      then some_block gpu 0 2
      else if q == 1
      then some_block gpu 1 0
      else some_block cpu 0 0;
}

abbrev shared : BlockSpaceManagerV1
shared = record {
  block_size = 2;
  num_total_gpu_blocks = 2;
  num_total_cpu_blocks = 1;
  block_sliding_window = none;
  watermark_blocks = 0;
  enable_caching = false;
  gpu_allocator =
      uncached (record { device = gpu; block_size = 2; num_blocks = 2; free_blocks = 1 ∷ [] });
  cpu_allocator =
      uncached (record { device = cpu; block_size = 2; num_blocks = 1; free_blocks = 2 ∷ [] });
  block_tables = (7, 0 ∷ []) ∷ (8, 0 ∷ []) ∷ [];
  heap = shared_heap;
}

shared-Pool :
    (d : Device)
    → Pool shared.heap (elim d [ gpu ↦ shared.gpu_allocator | cpu ↦ shared.cpu_allocator ]) d
shared-Pool gpu = record {
  alloc = _;
  plain = refl;
  list = record { nodup = (refl, tt); free_iff = λ q. ground arith };
}
shared-Pool cpu = record {
  alloc = _;
  plain = refl;
  list = record { nodup = (refl, tt); free_iff = λ q. ground arith };
}

shared-IsConsistent : IsConsistent shared
unfolding holders contains
shared-IsConsistent = record {
  tidy = record { counted = λ q h. ground arith; unheld = λ q h. ground arith; pool = pools };
  distinct = (refl, (refl, tt));
  nodup = ((refl, tt), ((refl, tt), tt));
  uncached = refl;
  no_window = refl;
}
  where
    pools : (d : Device) → Pool shared.heap (cache_blend.ManagerV1.allocator shared d) d
    pools gpu = shared-Pool gpu
    pools cpu = shared-Pool cpu

-- A sequence of that id with `n` logical blocks.
abbrev sequence : ℕ → ℕ → SequenceStatus → Sequence
sequence id n status = record {
  seq_id = id;
  prompt = [];
  block_size = 2;
  eos_token_id = none;
  lora_request = none;
  seq_data = record {
    prompt_token_ids = pos 5 ∷ pos 6 ∷ [];
    output_token_ids = [];
    cumulative_logprob = pos 0;
    num_computed_tokens = 0;
    stage = cache_blend.Sequence.prefill;
  };
  output_logprobs = [];
  output_text = [];
  logical_token_blocks = blocks n;
  status = status;
}
  where
    blocks : ℕ → List LogicalTokenBlock
    blocks ℕ.zero = []
    blocks (suc k) =
        record { block_number = k; block_size = 2; token_ids = pos 5 ∷ pos 6 ∷ []; num_tokens = 2 }
        ∷ blocks k

free-IsConsistent_example :
    ((lookup 7 shared.block_tables ≡ none) × (free shared (sequence 7 1 running) ≡ ok shared))
    ⊎ ((m' : BlockSpaceManagerV1) × (free shared (sequence 7 1 running) ≡ ok m')
        × IsConsistent m'
        × (m'.block_tables ≡ delete 7 shared.block_tables))
free-IsConsistent_example = free-IsConsistent shared (sequence 7 1 running) shared-IsConsistent

fork-IsConsistent_example :
    ((lookup 7 shared.block_tables ≡ none)
      × (fork shared (sequence 7 1 running) (sequence 9 1 running) ≡ raise key_error))
    ⊎ ((t : BlockTable) × (m' : BlockSpaceManagerV1) × (lookup 7 shared.block_tables ≡ some t)
        × (fork shared (sequence 7 1 running) (sequence 9 1 running) ≡ ok m')
        × IsConsistent m'
        × (m'.block_tables ≡ insert 9 t shared.block_tables))
unfolding contains
fork-IsConsistent_example =
    fork-IsConsistent shared (sequence 7 1 running) (sequence 9 1 running) shared-IsConsistent refl

-- Sequence 7 writes into the shared block: it gets a copy.
append_slots-Grown_example :
    ((1 ≡ length (sequence 7 1 running).logical_token_blocks)
      × ((read shared_heap 0).device ≢ gpu)
      × (append_slots hash shared (sequence 7 1 running) ≡ raise assertion_error))
    ⊎ (WantsBlock shared (sequence 7 1 running) (0 ∷ []) 0
        × (get_num_free_blocks shared.gpu_allocator ≡ 0)
        × (append_slots hash shared (sequence 7 1 running) ≡ raise value_error))
    ⊎ ((copies : Dict ℕ (List ℕ)) × (m' : BlockSpaceManagerV1) × (append_slots hash shared
            (sequence 7 1 running)
          ≡ ok (copies, m'))
        × Grown shared (sequence 7 1 running) m')
unfolding lookup
append_slots-Grown_example =
    append_slots-Grown hash shared (sequence 7 1 running) (0 ∷ []) 0 shared-IsConsistent refl
      (omega arith) (omega arith) refl

-- A group of two waiting sequences with one logical block each.
abbrev group : SequenceGroup
group = record {
  request_id = 1;
  seqs_dict = (3, sequence 3 1 waiting) ∷ (4, sequence 4 1 waiting) ∷ [];
  sampling_params = record { best_of = 2; use_beam_search = false };
  metrics = record {
    arrival_time = pos 0;
    last_token_time = pos 0;
    first_scheduled_time = none;
    first_token_time = none;
    time_in_queue = none;
    finished_time = none;
  };
  lora_request = none;
}

abbrev group-IsNew : IsNew shared group
unfolding get_seqs num_seqs contains
group-IsNew = record {
  first = sequence 3 1 waiting;
  others = sequence 4 1 waiting ∷ [];
  waits = refl;
  all_wait = refl;
  distinct = (refl, (refl, tt));
  fresh = (refl, (refl, tt));
}

allocate-IsConsistent_example :
    ((get_num_free_blocks shared.gpu_allocator < 1)
      × (allocate hash shared group ≡ raise value_error))
    ⊎ ((t : BlockTable) × (m' : BlockSpaceManagerV1) × (allocate hash shared group ≡ ok m')
        × IsConsistent m'
        × (length t ≡ 1)
        × (m'.block_tables
            ≡ assign_tables
                (sequence 3 1 waiting ∷ sequence 4 1 waiting ∷ [])
                t
                shared.block_tables)
        × (get_num_free_blocks m'.gpu_allocator + length t
            ≡ get_num_free_blocks shared.gpu_allocator))
unfolding get_seqs num_seqs contains
allocate-IsConsistent_example =
    allocate-IsConsistent hash shared group shared-IsConsistent group-IsNew

can_allocate-allocate_example :
    (t : BlockTable) × (m' : BlockSpaceManagerV1) × (allocate hash shared group ≡ ok m')
    × IsConsistent m'
    × (length t ≡ 1)
    × (0 ≤ get_num_free_blocks m'.gpu_allocator)
    × ((j : ℕ)
        → lookup j m'.block_tables
          ≡ (if mem j (3 ∷ 4 ∷ []) then some t else lookup j shared.block_tables))
unfolding get_seqs num_seqs contains can_allocate get_num_free_blocks
can_allocate-allocate_example =
    can_allocate-allocate hash shared group shared-IsConsistent group-IsNew refl

abbrev no_blocks : Blocks
no_blocks = record { next = 0; cell = λ _. some_block gpu 0 0 }

new_manager-IsConsistent_example :
    (m : BlockSpaceManagerV1) × (new_manager 2 200 4 (1, 100) none false no_blocks ≡ ok m)
    × IsConsistent m
    × (get_num_free_blocks m.gpu_allocator ≡ 200)
    × (get_num_free_blocks m.cpu_allocator ≡ 4)
    × (m.watermark_blocks ≡ 2)
new_manager-IsConsistent_example = new_manager-IsConsistent 2 200 4 1 100 no_blocks refl

-- Three freed blocks: 0 and 1 of the same time, 1 with more hashed tokens, and 2 younger.
abbrev freed_heap : Blocks
freed_heap = record {
  next = 3;
  cell = λ q.
      if q == 0
      then record (some_block gpu 0 0) {
        block_hash = pos 10;
        num_hashed_tokens = 2;
        last_accessed = pos 5;
      }
      else if q == 1
      then record (some_block gpu 1 0) {
        block_hash = pos 11;
        num_hashed_tokens = 4;
        last_accessed = pos 5;
      }
      else record (some_block gpu 2 0) {
        block_hash = pos 12;
        num_hashed_tokens = 6;
        last_accessed = pos 6;
      };
}

abbrev evictor : LruEvictor
evictor = record { free_table = (pos 10, 0) ∷ (pos 11, 1) ∷ (pos 12, 2) ∷ [] }

evict_second :
    (h : Blocks) × (evict evictor freed_heap
      ≡ ok (1, record { free_table = (pos 10, 0) ∷ (pos 12, 2) ∷ [] }, h))
unfolding evict contains delete
evict_second = (_, refl)

evict-BeforeAll_example :
    ((evictor.free_table ≡ []) × (evict evictor freed_heap ≡ raise value_error))
    ⊎ ((v : ℕ) × (e' : LruEvictor) × (evict evictor freed_heap
          ≡ ok (v, e', write freed_heap v (record (read freed_heap v) { computed = false })))
        × (mem v (addresses evictor.free_table) ≡ true)
        × BeforeAll freed_heap v evictor.free_table
        × (e'.free_table ≡ delete (read freed_heap v).block_hash evictor.free_table)
        × (suc (num_blocks e') ≡ num_blocks evictor))
unfolding contains
evict-BeforeAll_example =
    evict-BeforeAll evictor freed_heap (refl, (refl, (refl, tt))) (refl, (refl, (refl, tt)))
      (omega arith)
