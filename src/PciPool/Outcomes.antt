-- ===== src/PciPool/Outcomes.antt =====
-- Every way a call of `pci_pool_alloc` of pcipool.c can end.
use jornada.Common.{
  ℕ, ◌+◌, ◌*◌, ◌/◌, ◌≡◌, ◌≢◌, ◌⊎◌, inl, inr, refl, Bool, true, false, Option, none, some, List, [],
  ◌∷◌, arith, if◌then◌else◌, get_or, set, u32, Option-cases, replicate,
}
use jornada.Common.Bits.{clear_bit}
use jornada.PciPool.Defs.{
  Pool, Memory, Outcome, ready, refused, asleep, at_block, scan_pages, pool_alloc_page, alloc_pass,
  Round, pci_pool_alloc, all_ones,
}
use jornada.PciPool.Bitmap.{FindsZero, take_block}
use jornada.PciPool.Pages.{AllTaken, scan_pages-none}
use jornada.PciPool.Alloc.{IsValid, Granted, scan-Granted}

-- A page was added, with every block free but the first, which the caller gets.
pub record Fresh (pool : Pool) (m : Memory) (v d : ℕ) (pool' : Pool) : Type 0 where
  pub vaddr : ℕ
  pub dma : ℕ
  pub granted : (m.header ≡ true) × (m.block ≡ some (vaddr, dma))
  pub full : AllTaken pool.blocks_per_page pool.page_list
  pub pointer : v ≡ u32 vaddr
  pub handle : d ≡ u32 dma
  pub after : pool' ≡ record pool {
    page_list =
        record {
          vaddr = vaddr;
          dma = dma;
          bitmap = take_block (replicate ((pool.blocks_per_page + 31) / 32) all_ones) 0;
        }
        ∷ pool.page_list;
  }

-- The system's allocators gave no page.
abbrev pub Denied : Memory → Type 0
Denied m = (m.header ≡ false) ⊎ (m.block ≡ none)

-- What one pass comes to, for each outcome.
abbrev pub Explained : Pool → Bool → Memory → Outcome → Type 0
Explained pool may_sleep m (ready v d pool') = Granted pool v d pool' ⊎ Fresh pool m v d pool'
Explained pool may_sleep m refused =
    AllTaken pool.blocks_per_page pool.page_list × Denied m × (may_sleep ≡ false)
Explained pool may_sleep m asleep =
    AllTaken pool.blocks_per_page pool.page_list × Denied m × (may_sleep ≡ true)

-- The pass once no page has a free block.
abbrev grow : Pool → Bool → Memory → Outcome
grow pool may_sleep m = elim (pool_alloc_page pool m) [
  | some p ↦
      at_block pool (p.vaddr, p.dma) 0
        (record p { bitmap = set p.bitmap 0 (clear_bit (get_or p.bitmap 0 0) 0) } ∷ pool.page_list)
  | none ↦ if may_sleep then asleep else refused
]

fresh :
    (pool : Pool) (va da : ℕ)
    → AllTaken pool.blocks_per_page pool.page_list
    → Fresh pool
        (record { header = true; block = some (va, da) })
        (u32 (u32 (0 * pool.size) + va))
        (u32 (u32 (0 * pool.size) + da))
        (record pool {
          page_list =
              record {
                vaddr = va;
                dma = da;
                bitmap = take_block (replicate ((pool.blocks_per_page + 31) / 32) all_ones) 0;
              }
              ∷ pool.page_list;
        })
fresh pool va da full = record {
  vaddr = va;
  dma = da;
  granted = (refl, refl);
  full = full;
  pointer = omega arith;
  handle = omega arith;
  after = refl;
}

grow-Explained :
    (pool : Pool) (may_sleep header : Bool) (block : Option (ℕ × ℕ))
    → AllTaken pool.blocks_per_page pool.page_list
    → Explained pool may_sleep
        (record { header = header; block = block })
        (grow pool may_sleep (record { header = header; block = block }))
unfolding pool_alloc_page
grow-Explained pool true false block full = (full, inl refl, refl)
grow-Explained pool false false block full = (full, inl refl, refl)
grow-Explained pool true true none full = (full, inr refl, refl)
grow-Explained pool false true none full = (full, inr refl, refl)
grow-Explained pool true true (some (va, da)) full = inr (fresh pool va da full)
grow-Explained pool false true (some (va, da)) full = inr (fresh pool va da full)

module _ {ffz : ℕ → ℕ} (spec : FindsZero ffz) where
  -- With an `ffz` that gives the lowest clear bit, a pass over a well-formed pool ends in one of
  -- four ways: it takes one free block of a page that exists, inside that page, and changes nothing
  -- else; or every block is taken and it adds a page with only its first block taken; or every block
  -- is taken, the system gives no memory, and the caller is refused if it may not sleep, or sleeps
  -- if it may.
  pub alloc_pass-Explained :
      (pool : Pool) (may_sleep : Bool) (m : Memory)
      → IsValid pool
      → Explained pool may_sleep m (alloc_pass ffz pool may_sleep m)
  unfolding alloc_pass
  alloc_pass-Explained pool may_sleep m valid =
      elim (Option-cases (scan_pages ffz pool.blocks_per_page pool.page_list)) [
        | inl e ↦
            rw (e, alloc_pass)
              (grow-Explained pool may_sleep m.header m.block (
                scan_pages-none spec pool.allocation pool.blocks_per_page pool.page_list
                  valid.layout e))
        | inr (r, e) ↦ rw (e, alloc_pass) (inl (scan-Granted spec pool r valid e))
      ]

alloc_pass-ne-refused :
    (ffz : ℕ → ℕ) (pool : Pool) (m : Memory) → alloc_pass ffz pool true m ≢ refused
unfolding alloc_pass
alloc_pass-ne-refused ffz pool m = ground arith

alloc-step :
    (ffz : ℕ → ℕ) (s : Bool) (r : Round) (rs : List Round) (pool : Pool)
    → pci_pool_alloc ffz s (r ∷ rs) pool ≡ refused
    → (alloc_pass ffz pool s r.memory ≡ refused)
      ⊎ (pci_pool_alloc ffz s rs (r.others pool) ≡ refused)
unfolding pci_pool_alloc
alloc-step ffz s r rs pool e = ground arith

-- A caller that may sleep is never given a null pointer, whatever the rounds bring.
pci_pool_alloc-ne-refused :
    (ffz : ℕ → ℕ) (rounds : List Round) (pool : Pool)
    → pci_pool_alloc ffz true rounds pool ≢ refused
unfolding pci_pool_alloc
pci_pool_alloc-ne-refused ffz [] pool e = cc
pci_pool_alloc-ne-refused ffz (r ∷ rs) pool e = elim (alloc-step ffz true r rs pool e) [
  | inl here ↦ alloc_pass-ne-refused ffz pool r.memory here
  | inr later ↦ pci_pool_alloc-ne-refused ffz rs (r.others pool) later
]
