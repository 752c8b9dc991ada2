-- ===== src/ManagerV1/Counts/FreeList.antt =====
-- The free list of a device against the reference counts of its blocks.
use cache_blend.Prelude.{
  ℕ, ◌<◌, ◌≡◌, refl, Bool, true, false, ◌&&◌, List, ◌∷◌, ltb, mem, Nodup, ◌==◌, arith,
}
use cache_blend.Prelude.Heap.{read, write}
use cache_blend.Block.{Device, gpu, cpu}
use cache_blend.Evictor.{Blocks}

abbrev pub dev_beq : Device → Device → Bool
dev_beq gpu gpu = true
dev_beq cpu cpu = true
dev_beq _ _ = false

pub dev_same : (a b : Device) → a ≡ b → dev_beq a b ≡ true
dev_same gpu gpu e = refl
dev_same cpu cpu e = refl
dev_same gpu cpu e = cc
dev_same cpu gpu e = cc

pub same_dev : (a b : Device) → dev_beq a b ≡ true → a ≡ b
same_dev gpu gpu e = refl
same_dev cpu cpu e = refl
same_dev gpu cpu e = cc
same_dev cpu gpu e = cc

abbrev pub other : Device → Device
other gpu = cpu
other cpu = gpu

abbrev pub refs : Blocks → ℕ → ℕ
refs h q = (read h q).ref_count

abbrev pub with_refs : Blocks → ℕ → ℕ → Blocks
with_refs h p n = write h p (record (read h p) { ref_count = n })

-- The free list of a device holds, once each, the blocks of the device that nobody refers to.
pub record IsFreeList (h : Blocks) (dev : Device) (fs : List ℕ) : Type 0 where
  pub nodup : Nodup fs
  pub free_iff :
      (q : ℕ) → mem q fs ≡ (ltb q h.next && (dev_beq (read h q).device dev && (refs h q == 0)))

pub IsFreeList-take :
    (h : Blocks) (dev : Device) (p : ℕ) (ps : List ℕ)
    → IsFreeList h dev (p ∷ ps)
    → IsFreeList (with_refs h p 1) dev ps
IsFreeList-take h dev p ps o = record {
  nodup = o.nodup.1;
  free_iff = λ q. ground (arith, o.free_iff q, o.nodup.0);
}

pub IsFreeList-other :
    (h : Blocks) (dev : Device) (p n : ℕ) (fs : List ℕ)
    → dev_beq (read h p).device dev ≡ false
    → IsFreeList h dev fs
    → IsFreeList (with_refs h p n) dev fs
IsFreeList-other h dev p n fs d o = record {
  nodup = o.nodup;
  free_iff = λ q. ground (arith, o.free_iff q);
}

pub IsFreeList-used :
    (h : Blocks) (dev : Device) (p n : ℕ) (fs : List ℕ)
    → 0 < refs h p
    → 0 < n
    → IsFreeList h dev fs
    → IsFreeList (with_refs h p n) dev fs
IsFreeList-used h dev p n fs old new o = record {
  nodup = o.nodup;
  free_iff = λ q. ground (arith, o.free_iff q);
}

pub IsFreeList-give :
    (h : Blocks) (dev : Device) (p : ℕ) (fs : List ℕ)
    → 0 < refs h p
    → p < h.next
    → (read h p).device ≡ dev
    → IsFreeList h dev fs
    → IsFreeList (with_refs h p 0) dev (p ∷ fs)
IsFreeList-give h dev p fs old known d o = record {
  nodup = (ground (arith, o.free_iff p), o.nodup);
  free_iff = λ q. ground (arith, o.free_iff q, dev_same (read h p).device dev d);
}
