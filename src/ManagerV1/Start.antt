-- ===== src/ManagerV1/Start.antt =====
-- The manager that `BlockSpaceManagerV1.__init__` builds (vllm_blend/vllm/core/block_manager_v1.py), without prefix
-- caching and without a sliding window.
use cache_blend.Prelude.{
  ℕ, zero, suc, ◌+◌, ◌*◌, ◌/◌, ◌≡◌, refl, ◌∙◌, true, false, none, List, [], ◌∷◌, length, ltb, ok,
  arith,
}
use cache_blend.Prelude.Int.{negsuc}
use cache_blend.Prelude.Heap.{alloc}
use cache_blend.Block.{Device, gpu, cpu, new_physical_block}
use cache_blend.Evictor.{Blocks}
use cache_blend.Allocator.{uncached, new_uncached, init_blocks, get_num_free_blocks}
use cache_blend.ManagerV1.{BlockSpaceManagerV1, new_manager, allocator}
use cache_blend.ManagerV1.Counts.{dev_beq, other, refs, IsFreeList, Pool}
use cache_blend.ManagerV1.Tables.{holders}
use cache_blend.ManagerV1.Sharing.{IsConsistent}

-- Two free lists over a heap in which nothing is referred to.
record AllFree (h : Blocks) (dev : Device) (fs gs : List ℕ) : Type 0 where
  own : IsFreeList h dev fs
  others : IsFreeList h (other dev) gs
  zero_refs : (q : ℕ) → ltb q h.next ≡ true → refs h q ≡ 0

module _ (h : Blocks) (dev : Device) (i size : ℕ) where
  abbrev grown : Blocks
  grown = (alloc h (new_physical_block dev i size (negsuc 0) 0)).1

  AllFree-alloc : (fs gs : List ℕ) → AllFree h dev fs gs → AllFree grown dev (h.next ∷ fs) gs
  unfolding new_physical_block
  AllFree-alloc fs gs a = record {
    own = record {
      nodup = (ground (arith, a.own.free_iff h.next), a.own.nodup);
      free_iff = λ q. ground (arith, a.own.free_iff q, same dev);
    };
    others = record {
      nodup = a.others.nodup;
      free_iff = λ q. ground (arith, a.others.free_iff q, apart dev);
    };
    zero_refs = λ q k. ground (arith, a.zero_refs q);
  }
    where
      same : (d : Device) → dev_beq d d ≡ true
      same gpu = refl
      same cpu = refl

      apart : (d : Device) → dev_beq d (other d) ≡ false
      apart gpu = refl
      apart cpu = refl

init_blocks-AllFree :
    (rounds i : ℕ) (dev : Device) (size : ℕ) (fs gs : List ℕ) (h : Blocks)
    → AllFree h dev fs gs
    → AllFree (init_blocks rounds i dev size fs h).1 dev (init_blocks rounds i dev size fs h).0 gs
      × (length (init_blocks rounds i dev size fs h).0 ≡ length fs + rounds)
unfolding init_blocks
init_blocks-AllFree zero i dev size fs gs h a = (a, omega arith)
init_blocks-AllFree (suc rounds) i dev size fs gs h a =
    let (b, n) =
      init_blocks-AllFree rounds (suc i) dev size (h.next ∷ fs) gs (grown h dev i size)
        (AllFree-alloc h dev i size fs gs a) in
    (b, omega (arith, n))

AllFree-swap : (h : Blocks) (fs gs : List ℕ) → AllFree h gpu fs gs → AllFree h cpu gs fs
AllFree-swap h fs gs a = record { own = a.others; others = a.own; zero_refs = a.zero_refs }

nothing : (h : Blocks) → h.next ≡ 0 → AllFree h gpu [] []
nothing h e = record {
  own = record { nodup = tt; free_iff = λ q. ground arith };
  others = record { nodup = tt; free_iff = λ q. ground arith };
  zero_refs = λ q k. ground arith;
}

module _ (size num_gpu num_cpu watermark per : ℕ) (h : Blocks) (e : h.next ≡ 0) where
  abbrev gpu_made : List ℕ × Blocks
  gpu_made = init_blocks num_gpu 0 gpu size [] h

  abbrev cpu_made : List ℕ × Blocks
  cpu_made = init_blocks num_cpu 0 cpu size [] gpu_made.1

  gpu_AllFree : AllFree gpu_made.1 gpu gpu_made.0 [] × (length gpu_made.0 ≡ num_gpu)
  gpu_AllFree =
      let (a, n) = init_blocks-AllFree num_gpu 0 gpu size [] [] h (nothing h e) in
      (a, n ∙ omega arith)

  cpu_AllFree : AllFree cpu_made.1 cpu cpu_made.0 gpu_made.0 × (length cpu_made.0 ≡ num_cpu)
  cpu_AllFree =
      let (a, n) =
        init_blocks-AllFree num_cpu 0 cpu size [] gpu_made.0 gpu_made.1
          (AllFree-swap _ _ _ gpu_AllFree.0) in
      (a, n ∙ omega arith)

  -- Over an empty heap the constructor builds a consistent manager in which every block is free, with the
  -- watermark rounded down.
  pub new_manager-IsConsistent :
      (m : BlockSpaceManagerV1) × (new_manager size num_gpu num_cpu (watermark, per) none false h
        ≡ ok m)
      × IsConsistent m
      × (get_num_free_blocks m.gpu_allocator ≡ num_gpu)
      × (get_num_free_blocks m.cpu_allocator ≡ num_cpu)
      × (m.watermark_blocks ≡ watermark * num_gpu / per)
  unfolding new_manager new_uncached get_num_free_blocks holders
  new_manager-IsConsistent = (made, refl, consistent, gpu_AllFree.1, cpu_AllFree.1, refl)
    where
      made : BlockSpaceManagerV1
      made = record {
        block_size = size;
        num_total_gpu_blocks = num_gpu;
        num_total_cpu_blocks = num_cpu;
        block_sliding_window = none;
        watermark_blocks = watermark * num_gpu / per;
        enable_caching = false;
        gpu_allocator = uncached (record {
          device = gpu;
          block_size = size;
          num_blocks = num_gpu;
          free_blocks = gpu_made.0;
        });
        cpu_allocator = uncached (record {
          device = cpu;
          block_size = size;
          num_blocks = num_cpu;
          free_blocks = cpu_made.0;
        });
        block_tables = [];
        heap = cpu_made.1;
      }

      pools : (d : Device) → Pool made.heap (allocator made d) d
      pools gpu = record { alloc = _; plain = refl; list = cpu_AllFree.0.others }
      pools cpu = record { alloc = _; plain = refl; list = cpu_AllFree.0.own }

      consistent : IsConsistent made
      consistent = record {
        tidy = record {
          counted = λ q k. cpu_AllFree.0.zero_refs q k;
          unheld = λ q k. refl;
          pool = pools;
        };
        distinct = tt;
        nodup = tt;
        uncached = refl;
        no_window = refl;
      }
