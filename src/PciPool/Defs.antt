-- ===== src/PciPool/Defs.antt =====
-- The functions of pcipool.c. One that updates the pool returns the new pool. The pool's lock is held
-- across each function, so a call is one step; `pci_pool_alloc` gives the lock up where it sleeps.
-- kmalloc and pci_alloc_consistent are not in the repository: their answers are arguments, and so is
-- the kernel's `ffz`. CONFIG_DEBUG_SLAB and CONFIG_PCIPOOL_DEBUG are off.
use jornada.Common.{
  ℕ, suc, ◌+◌, ◌-◌, ◌*◌, ◌/◌, ◌%◌, ◌^◌, Bool, true, false, Option, none, some, List, [], ◌∷◌, ◌&&◌,
  ltb, ◌==◌, if◌then◌else◌, get_or, set, replicate, u32, not,
}
use jornada.Common.Bits.{set_bit, clear_bit, land}
use mathlib.Core.Option

-- `struct pci_page`; a set bit of the bitmap is a free block, 32 to a word.
pub record Page : Type 0 where
  pub vaddr : ℕ
  pub dma : ℕ
  pub bitmap : List ℕ

-- `struct pci_pool`, with `page_list` from its head. Name, device, lock and wait queue carry no data
-- that the functions compute with.
pub record Pool : Type 0 where
  pub page_list : List Page
  pub blocks_per_page : ℕ
  pub size : ℕ
  pub allocation : ℕ

abbrev pub all_ones : ℕ
all_ones = 2 ^ 32 - 1

-- The block size for a request: `~(align - 1)` is `2 ^ 32 - align`.
unfoldable pub round_size : ℕ → ℕ → ℕ
round_size size align =
    if ltb size align
    then align
    else if size % align == 0
    then size
    else land 32 (u32 (size + align + 1)) (2 ^ 32 - align)

-- The pool for a request of `size` bytes in blocks of `size'`. `none` is a null pool; `got` says
-- whether kmalloc returned memory.
unfoldable pub pool_of : ℕ → ℕ → ℕ → ℕ → Bool → Option Pool
pool_of page_size size size' allocation got =
    let whole = if ltb page_size size' then size' else page_size in
    let allocation' = if allocation == 0 then whole else allocation in
    if size == 0
    then none
    else if not (allocation == 0) && ltb allocation size'
    then none
    else if got
    then some (record {
      page_list = [];
      blocks_per_page = allocation' / size';
      size = size';
      allocation = allocation';
    })
    else none

-- An alignment of 0 stands for 1.
unfoldable pub pci_pool_create : ℕ → ℕ → ℕ → ℕ → Bool → Option Pool
pci_pool_create page_size size align allocation got =
    pool_of page_size size (round_size size (if align == 0 then 1 else align)) allocation got

-- What the system's allocators answer to `pool_alloc_page`.
pub record Memory : Type 0 where
  pub header : Bool
  pub block : Option (ℕ × ℕ)

-- A fresh page goes to the head of the list, with every bit set.
unfoldable pub pool_alloc_page : Pool → Memory → Option Page
pool_alloc_page pool m =
    if m.header
    then Option.map
        (λ b. record {
          vaddr = b.0;
          dma = b.1;
          bitmap = replicate ((pool.blocks_per_page + 31) / 32) all_ones;
        })
        m.block
    else none

unfoldable pub is_page_busy : ℕ → List ℕ → Bool
is_page_busy blocks [] = false
is_page_busy blocks (w ∷ ws) =
    let rest = is_page_busy (blocks - 32) ws in
    if ltb 0 blocks then (if w == all_ones then rest else true) else false

-- The pages that `pci_pool_destroy` gives back, and those that it leaks.
unfoldable pub destroy_pages : ℕ → List Page → List Page × List Page
unfolding is_page_busy
destroy_pages blocks [] = ([], [])
destroy_pages blocks (p ∷ ps) =
    let (freed, leaked) = destroy_pages blocks ps in
    if is_page_busy blocks p.bitmap then (freed, p ∷ leaked) else (p ∷ freed, leaked)

unfoldable pub pci_pool_destroy : Pool → List Page × List Page
unfolding destroy_pages
pci_pool_destroy pool = destroy_pages pool.blocks_per_page pool.page_list

-- What one pass of `pci_pool_alloc` comes to: a block with its two addresses, a null pointer, or
-- the wait before `goto restart`.
pub data Outcome : Type 0 where
  ready : ℕ → ℕ → Pool → Outcome
  refused : Outcome
  asleep : Outcome

-- `goto ready`: `size_t` and pointer sums wrap.
abbrev pub at_block : Pool → (ℕ × ℕ) → ℕ → List Page → Outcome
at_block pool a n pages =
    let offset = u32 (n * pool.size) in
    ready (u32 (offset + a.0)) (u32 (offset + a.1)) (record pool { page_list = pages })

module _ (ffz : ℕ → ℕ) where
  -- The loop over the words of one bitmap, `i` blocks in: the block taken, and the new words.
  unfoldable pub scan_words : ℕ → ℕ → List ℕ → Option (ℕ × List ℕ)
  scan_words blocks i [] = none
  scan_words blocks i (w ∷ ws) =
      let rest = Option.map (λ r. (r.0, w ∷ r.1)) (scan_words blocks (i + 32) ws) in
      let block = ffz (all_ones - w) in
      if ltb i blocks
      then (if w == 0
          then rest
          else if ltb (i + block) blocks
          then some (i + block, clear_bit w block ∷ ws)
          else rest)
      else none

  -- The loop over the pages: the page's address pair, the block taken, and the new list.
  unfoldable pub scan_pages : ℕ → List Page → Option ((ℕ × ℕ) × ℕ × List Page)
  scan_pages blocks [] = none
  scan_pages blocks (p ∷ ps) =
      let rest = Option.map (λ r. (r.0, r.1, p ∷ r.2)) (scan_pages blocks ps) in
      elim (scan_words blocks 0 p.bitmap) [
        | some r ↦ some ((p.vaddr, p.dma), r.0, record p { bitmap = r.1 } ∷ ps)
        | none ↦ rest
      ]

  unfoldable pub alloc_pass : Pool → Bool → Memory → Outcome
  alloc_pass pool may_sleep m = elim (scan_pages pool.blocks_per_page pool.page_list) [
    | some r ↦ at_block pool r.0 r.1 r.2
    | none ↦ elim (pool_alloc_page pool m) [
      | some p ↦
          at_block pool (p.vaddr, p.dma) 0
            (record p { bitmap = set p.bitmap 0 (clear_bit (get_or p.bitmap 0 0) 0) }
              ∷ pool.page_list)
      | none ↦ if may_sleep then asleep else refused
    ]
  ]

-- The page whose range holds `dma`, by its place in the list.
unfoldable pub find_page : ℕ → List Page → ℕ → Option ℕ
find_page allocation [] dma = none
find_page allocation (p ∷ ps) dma =
    let rest = Option.map suc (find_page allocation ps dma) in
    if ltb dma p.dma then rest else if ltb dma (u32 (p.dma + allocation)) then some 0 else rest

abbrev pub no_page : Page
no_page = record { vaddr = 0; dma = 0; bitmap = [] }

-- The block at `dma`, in the page at place `k`, is marked free.
unfoldable pub put_block : Pool → ℕ → ℕ → Pool
put_block pool k dma =
    let p = get_or pool.page_list k no_page in
    let block = (dma - p.dma) / pool.size in
    let words = set p.bitmap (block / 32) (set_bit (get_or p.bitmap (block / 32) 0) (block % 32)) in
    record pool { page_list = set pool.page_list k (record p { bitmap = words }) }

-- The second component says whether the address was one of the pool's. The waiting callers that
-- `pci_pool_free` wakes are the rounds of `pci_pool_alloc` below.
unfoldable pub pci_pool_free : Pool → ℕ → Pool × Bool
pci_pool_free pool dma = elim (find_page pool.allocation pool.page_list dma) [
  | none ↦ (pool, false)
  | some k ↦ (put_block pool k dma, true)
]

-- One round of `pci_pool_alloc`: what the allocators answer, and, where it sleeps, what the pool's
-- other users make of the pool in the meantime.
pub record Round : Type 0 where
  pub memory : Memory
  pub others : Pool → Pool

-- `asleep` of the empty list: the caller is still waiting.
unfoldable pub pci_pool_alloc : (ℕ → ℕ) → Bool → List Round → Pool → Outcome
unfolding alloc_pass
pci_pool_alloc ffz may_sleep [] pool = asleep
pci_pool_alloc ffz may_sleep (r ∷ rs) pool = elim (alloc_pass ffz pool may_sleep r.memory) [
  | asleep ↦ pci_pool_alloc ffz may_sleep rs (r.others pool)
  | refused ↦ refused
  | ready v d pool' ↦ ready v d pool'
]
