-- ===== src/ManagerV1/Counts/Pools.antt =====
-- The pools of the two devices of the manager, and what one write to a count does to them.
use cache_blend.Prelude.{
  ℕ, ◌+◌, ◌-◌, ◌<◌, ◌≡◌, refl, sym, ◌∙◌, true, false, ltb, ◌==◌, arith, if◌then◌else◌,
}
use cache_blend.Prelude.Heap.{read}
use cache_blend.Prelude.Dict.{Dict}
use cache_blend.Block.{Device, gpu, cpu}
use cache_blend.Evictor.{Blocks}
use cache_blend.Allocator.{BlockAllocator, UncachedBlockAllocator, uncached}
use cache_blend.ManagerV1.{BlockSpaceManagerV1, BlockTable, allocator, with_allocator}
use cache_blend.ManagerV1.Counts.FreeList.{
  dev_beq, other, refs, with_refs, IsFreeList, IsFreeList-other,
}

pub record Pool (h : Blocks) (b : BlockAllocator) (dev : Device) : Type 0 where
  pub alloc : UncachedBlockAllocator
  pub plain : b ≡ uncached alloc
  pub list : IsFreeList h dev alloc.free_blocks

-- `held q` references to the block `q` are expected.
pub record Tidy (m : BlockSpaceManagerV1) (held : ℕ → ℕ) : Type 0 where
  pub counted : (q : ℕ) → ltb q m.heap.next ≡ true → refs m.heap q ≡ held q
  pub unheld : (q : ℕ) → ltb q m.heap.next ≡ false → held q ≡ 0
  pub pool : (dev : Device) → Pool m.heap (allocator m dev) dev

-- What the steps of an allocator leave alone.
pub record Keeps (m m' : BlockSpaceManagerV1) : Type 0 where
  pub tables : m'.block_tables ≡ m.block_tables
  pub caching : m'.enable_caching ≡ m.enable_caching
  pub window : m'.block_sliding_window ≡ m.block_sliding_window
  pub device : (q : ℕ) → (read m'.heap q).device ≡ (read m.heap q).device

pub Keeps-refl : (m : BlockSpaceManagerV1) → Keeps m m
Keeps-refl m = record { tables = refl; caching = refl; window = refl; device = λ q. refl }

pub Keeps-trans : (m n o : BlockSpaceManagerV1) → Keeps m n → Keeps n o → Keeps m o
Keeps-trans m n o a b = record {
  tables = b.tables ∙ a.tables;
  caching = b.caching ∙ a.caching;
  window = b.window ∙ a.window;
  device = λ q. b.device q ∙ a.device q;
}

pub Tidy-ext : (m : BlockSpaceManagerV1) (f g : ℕ → ℕ) → ((q : ℕ) → f q ≡ g q) → Tidy m f → Tidy m g
Tidy-ext m f g e t = record {
  counted = λ q h. t.counted q h ∙ e q;
  unheld = λ q h. sym (e q) ∙ t.unheld q h;
  pool = t.pool;
}

-- The block tables are no part of it.
pub Tidy-tables :
    (m : BlockSpaceManagerV1) (tables : Dict ℕ BlockTable) (held : ℕ → ℕ)
    → Tidy m held
    → Tidy (record m { block_tables = tables }) held
Tidy-tables m tables held t = record { counted = t.counted; unheld = t.unheld; pool = go }
  where
    go : (d : Device) → Pool m.heap (allocator (record m { block_tables = tables }) d) d
    go gpu = t.pool gpu
    go cpu = t.pool cpu

abbrev pub plus : (ℕ → ℕ) → ℕ → ℕ → ℕ
plus f p q = if q == p then f q + 1 else f q

abbrev pub minus : (ℕ → ℕ) → ℕ → ℕ → ℕ
minus f p q = if q == p then f q - 1 else f q

-- The pools of a manager after a step on `dev`: the stepped one, and the other one.
pub pools_after :
    (m : BlockSpaceManagerV1) (dev : Device) (a : BlockAllocator) (h : Blocks)
    → Pool h a dev
    → Pool h (allocator m (other dev)) (other dev)
    → (d : Device) → Pool (with_allocator m dev a h).heap (allocator (with_allocator m dev a h) d) d
pools_after m gpu a h s o gpu = s
pools_after m gpu a h s o cpu = o
pools_after m cpu a h s o gpu = o
pools_after m cpu a h s o cpu = s

pub Pool-other :
    (h : Blocks) (b : BlockAllocator) (dev : Device) (p n : ℕ)
    → (read h p).device ≡ dev
    → Pool h b (other dev)
    → Pool (with_refs h p n) b (other dev)
Pool-other h b dev p n d o = record {
  alloc = o.alloc;
  plain = o.plain;
  list = IsFreeList-other h (other dev) p n o.alloc.free_blocks (apart _ dev d) o.list;
}
  where
    apart : (c d : Device) → c ≡ d → dev_beq c (other d) ≡ false
    apart gpu gpu e = refl
    apart cpu cpu e = refl
    apart gpu cpu e = cc
    apart cpu gpu e = cc

pub heap_after :
    (m : BlockSpaceManagerV1) (dev : Device) (a : BlockAllocator) (h : Blocks)
    → (with_allocator m dev a h).heap ≡ h
heap_after m gpu a h = refl
heap_after m cpu a h = refl

pub allocator_after :
    (m : BlockSpaceManagerV1) (dev : Device) (a : BlockAllocator) (h : Blocks)
    → allocator (with_allocator m dev a h) dev ≡ a
allocator_after m gpu a h = refl
allocator_after m cpu a h = refl

-- A step that sets one count leaves the manager tidy, with the new count expected.
pub Tidy-step :
    (m : BlockSpaceManagerV1) (held : ℕ → ℕ) (dev : Device) (a : BlockAllocator) (p n : ℕ)
    → Tidy m held
    → p < m.heap.next
    → (read m.heap p).device ≡ dev
    → Pool (with_refs m.heap p n) a dev
    → Tidy (with_allocator m dev a (with_refs m.heap p n)) (λ q. if q == p then n else held q)
Tidy-step m held dev a p n t known d new = record {
  counted = λ q. rw (heap_after m dev a (with_refs m.heap p n)) (λ h. ground (arith, t.counted q));
  unheld = λ q. rw (heap_after m dev a (with_refs m.heap p n)) (λ h. ground (arith, t.unheld q));
  pool = pools_after m dev a _ new (Pool-other m.heap _ dev p n d (t.pool (other dev)));
}

pub Keeps-step :
    (m : BlockSpaceManagerV1) (dev : Device) (a : BlockAllocator) (p n : ℕ)
    → Keeps m (with_allocator m dev a (with_refs m.heap p n))
Keeps-step m gpu a p n = record {
  tables = refl;
  caching = refl;
  window = refl;
  device = λ q. ground arith;
}
Keeps-step m cpu a p n = record {
  tables = refl;
  caching = refl;
  window = refl;
  device = λ q. ground arith;
}
