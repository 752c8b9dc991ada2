-- ===== src/ManagerV1/Counts.antt =====
-- Reference counts and free lists of the manager without prefix caching (vllm_blend/vllm/core/block_manager_v1.py):
-- what one allocation, one more reference and one release do to them.
pub mod FreeList
pub mod Pools
use mathlib.Core.Path.{subst}
use cache_blend.Prelude.{
  ℕ, zero, suc, ◌+◌, ◌-◌, ◌<◌, ◌≡◌, refl, sym, ◌∙◌, ◌⊎◌, inl, inr, Bool, true, false, ◌&&◌, Option,
  List, [], ◌∷◌, ltb, mem, Nodup, lt→ltb, ltb→lt, ◌==◌, Result, ok, raise, value_error, arith,
  if◌then◌else◌,
}
use cache_blend.Prelude.Int.{ℤ}
use cache_blend.Prelude.Heap.{read, write}
use cache_blend.Prelude.Dict.{Dict}
use cache_blend.Block.{Device, gpu, cpu}
use cache_blend.Evictor.{Blocks}
use cache_blend.Allocator.{
  BlockAllocator, UncachedBlockAllocator, uncached, uncached_allocate, uncached_free, retain,
  get_num_free_blocks,
}
use cache_blend.Allocator
use cache_blend.ManagerV1.{
  BlockSpaceManagerV1, BlockTable, allocator, with_allocator, allocate_on, free_on, set_ref_count,
}
pub use FreeList.*
pub use Pools.*

-- A block that was handed out: nobody referred to it, and it has one reference now.
pub record Allocates (m : BlockSpaceManagerV1) (held : ℕ → ℕ) (dev : Device)
    (r : Result (ℕ × BlockSpaceManagerV1)) : Type 0 where
  pub block : ℕ
  pub after : BlockSpaceManagerV1
  pub returns : r ≡ ok (block, after)
  pub tidy : Tidy after (plus held block)
  pub keeps : Keeps m after
  pub fresh : held block ≡ 0
  pub known : ltb block after.heap.next ≡ true
  pub on : (read m.heap block).device ≡ dev
  pub taken :
      suc (get_num_free_blocks (allocator after dev)) ≡ get_num_free_blocks (allocator m dev)

allocate_from :
    (m : BlockSpaceManagerV1) (held : ℕ → ℕ) (dev : Device) (k : Option ℤ) (n : ℕ) (fs : List ℕ)
    (o : Pool m.heap (allocator m dev) dev)
    → o.alloc.free_blocks ≡ fs
    → Tidy m held
    → ((get_num_free_blocks (allocator m dev) ≡ 0) × (allocate_on m dev k n ≡ raise value_error))
      ⊎ Allocates m held dev (allocate_on m dev k n)
unfolding allocate_on get_num_free_blocks Allocator.allocate
allocate_from m held dev k n [] o e t = inl (rw (o.plain, e), rw (o.plain, e))
allocate_from m held dev k n (p ∷ fs) o e t = inr (record {
  block = p;
  after = with_allocator m dev (uncached a) (with_refs m.heap p 1);
  returns = rw (o.plain, e);
  tidy =
      Tidy-ext _ _ _ (λ q. ground (arith, fresh_p))
        (Tidy-step m held dev (uncached a) p 1 t known_p on_p pool_p);
  keeps = Keeps-step m dev (uncached a) p 1;
  fresh = fresh_p;
  known = rw (heap_after m dev (uncached a) (with_refs m.heap p 1)) (lt→ltb _ _ known_p);
  on = on_p;
  taken = rw (o.plain, e) (rw (allocator_after m dev (uncached a) (with_refs m.heap p 1)));
})
  where
    a : UncachedBlockAllocator
    a = record (o.alloc) { free_blocks = fs }

    list : IsFreeList m.heap dev (p ∷ fs)
    list = subst (IsFreeList m.heap dev) e o.list

    free_p :
        (ltb p m.heap.next && (dev_beq (read m.heap p).device dev && (refs m.heap p == 0))) ≡ true
    free_p = ground (arith, list.free_iff p)

    known_p : p < m.heap.next
    known_p = ground (arith, free_p)

    on_p : (read m.heap p).device ≡ dev
    on_p = same_dev _ dev (ground (arith, free_p))

    fresh_p : held p ≡ 0
    fresh_p = ground (arith, free_p, t.counted p)

    pool_p : Pool (with_refs m.heap p 1) (uncached a) dev
    pool_p = record { alloc = a; plain = refl; list = IsFreeList-take m.heap dev p fs list }

-- The uncached allocator of a device hands out a block that nobody refers to, or has none left and
-- raises.
pub allocate_on-Allocates :
    (m : BlockSpaceManagerV1) (held : ℕ → ℕ) (dev : Device) (k : Option ℤ) (n : ℕ)
    → Tidy m held
    → ((get_num_free_blocks (allocator m dev) ≡ 0) × (allocate_on m dev k n ≡ raise value_error))
      ⊎ Allocates m held dev (allocate_on m dev k n)
allocate_on-Allocates m held dev k n t =
    allocate_from m held dev k n (t.pool dev).alloc.free_blocks (t.pool dev) refl t

-- A block that lost one reference.
pub record Frees (m : BlockSpaceManagerV1) (held : ℕ → ℕ) (p : ℕ) (r : Result BlockSpaceManagerV1)
    : Type 0 where
  pub after : BlockSpaceManagerV1
  pub returns : r ≡ ok after
  pub tidy : Tidy after (minus held p)
  pub keeps : Keeps m after

free_last :
    (a : UncachedBlockAllocator) (h : Blocks) (p : ℕ)
    → refs h p ≡ 1
    → uncached_free a h p ≡ ok (record a { free_blocks = p ∷ a.free_blocks }, with_refs h p 0)
unfolding uncached_free
free_last a h p e = ground arith

free_shared :
    (a : UncachedBlockAllocator) (h : Blocks) (p n : ℕ)
    → refs h p ≡ suc (suc n)
    → uncached_free a h p ≡ ok (a, with_refs h p (suc n))
unfolding uncached_free
free_shared a h p n e = ground arith

free_from :
    (m : BlockSpaceManagerV1) (held : ℕ → ℕ) (dev : Device) (p n : ℕ)
    (o : Pool m.heap (allocator m dev) dev)
    → Tidy m held
    → held p ≡ suc n
    → (read m.heap p).device ≡ dev
    → Frees m held p (free_on m dev p)
unfolding free_on Allocator.free
free_from m held dev p n o t e d = go n e
  where
    known : ltb p m.heap.next ≡ true
    known = ground (arith, t.unheld p)

    known_lt : p < m.heap.next
    known_lt = ltb→lt _ _ known

    count : refs m.heap p ≡ held p
    count = t.counted p known

    go : (k : ℕ) → held p ≡ suc k → Frees m held p (free_on m dev p)
    go zero h = record {
      after = with_allocator m dev (uncached last) (with_refs m.heap p 0);
      returns = rw (o.plain, free_last o.alloc m.heap p (count ∙ h));
      tidy =
          Tidy-ext _ _ _ (λ q. ground (arith, h))
            (Tidy-step m held dev (uncached last) p 0 t known_lt d (record {
              alloc = last;
              plain = refl;
              list =
                  IsFreeList-give m.heap dev p o.alloc.free_blocks (omega (arith, count, h))
                    known_lt d o.list;
            }));
      keeps = Keeps-step m dev (uncached last) p 0;
    }
      where
        last : UncachedBlockAllocator
        last = record (o.alloc) { free_blocks = p ∷ o.alloc.free_blocks }
    go (suc k) h = record {
      after = with_allocator m dev (uncached o.alloc) (with_refs m.heap p (suc k));
      returns = rw (o.plain, free_shared o.alloc m.heap p k (count ∙ h));
      tidy =
          Tidy-ext _ _ _ (λ q. ground (arith, h))
            (Tidy-step m held dev (uncached o.alloc) p (suc k) t known_lt d (record {
              alloc = o.alloc;
              plain = refl;
              list =
                  IsFreeList-used m.heap dev p (suc k) o.alloc.free_blocks (omega (arith, count, h))
                    (omega arith) o.list;
            }));
      keeps = Keeps-step m dev (uncached o.alloc) p (suc k);
    }

-- A release of a block that is referred to succeeds and takes one reference away.
pub free_on-Frees :
    (m : BlockSpaceManagerV1) (held : ℕ → ℕ) (p : ℕ) {n : ℕ}
    → Tidy m held
    → held p ≡ suc n
    → Frees m held p (free_on m (read m.heap p).device p)
free_on-Frees m held p {n} t h =
    let dev = (read m.heap p).device in free_from m held dev p n (t.pool dev) t h refl

-- A write of a block's count, and one more reference.
Pool-used :
    (h : Blocks) (b : BlockAllocator) (dev : Device) (p n : ℕ)
    → 0 < refs h p
    → 0 < n
    → Pool h b dev
    → Pool (with_refs h p n) b dev
Pool-used h b dev p n old new o = record {
  alloc = o.alloc;
  plain = o.plain;
  list = IsFreeList-used h dev p n o.alloc.free_blocks old new o.list;
}

pub set_ref_count-Tidy :
    (m : BlockSpaceManagerV1) (held : ℕ → ℕ) (p n : ℕ)
    → Tidy m held
    → 0 < held p
    → 0 < n
    → Tidy (set_ref_count m p n) (λ q. if q == p then n else held q)
set_ref_count-Tidy m held p n t old new = record {
  counted = λ q h. ground (arith, t.counted q);
  unheld = λ q h. ground (arith, t.unheld q);
  pool = go;
}
  where
    used : 0 < refs m.heap p
    used = ground (arith, t.unheld p, t.counted p)

    go : (d : Device) → Pool (with_refs m.heap p n) (allocator (set_ref_count m p n) d) d
    go gpu = Pool-used m.heap m.gpu_allocator gpu p n used new (t.pool gpu)
    go cpu = Pool-used m.heap m.cpu_allocator cpu p n used new (t.pool cpu)
