-- ===== src/PciPool/Valid.antt =====
-- The operations of pcipool.c keep a pool well formed.
use jornada.Common.{
  ℕ, zero, suc, ◌+◌, ◌-◌, ◌/◌, ◌%◌, ◌^◌, ◌<◌, inl, inr, List, [], ◌∷◌, arith, get_or, set,
  Option-cases, replicate,
}
use jornada.Common.Bits.{set_bit, set_bit-lt, clear_bit, clear_bit-le}
use jornada.PciPool.Defs.{
  Page, Pool, no_page, Memory, find_page, put_block, pci_pool_free, all_ones,
}
use jornada.PciPool.Bitmap.{Words, take_block}
use jornada.PciPool.Pages.{PageOk, Apart, Layout, Layout-get_or, with_bitmap, set_bitmap}
use jornada.PciPool.Alloc.{IsValid, Granted}
use jornada.PciPool.Outcomes.{Fresh}

Words-get_or : (ws : List ℕ) (i : ℕ) → Words ws → get_or ws i 0 < 2 ^ 32
Words-get_or [] i h = omega arith
Words-get_or (w ∷ ws) zero h = h.0
Words-get_or (w ∷ ws) (suc i) h = Words-get_or ws i h.1

Words-set : (ws : List ℕ) (i w : ℕ) → Words ws → w < 2 ^ 32 → Words (set ws i w)
Words-set [] i w h lt = tt
Words-set (x ∷ ws) zero w h lt = (lt, h.1)
Words-set (x ∷ ws) (suc i) w h lt = (h.0, Words-set ws i w h.1 lt)

Apart-set_bitmap :
    (size : ℕ) (p : Page) (ps : List Page) (k : ℕ) (ws : List ℕ)
    → Apart size p ps
    → Apart size p (set_bitmap ps k ws)
Apart-set_bitmap size p [] k ws h = tt
Apart-set_bitmap size p (q ∷ qs) zero ws h = h
Apart-set_bitmap size p (q ∷ qs) (suc k) ws h = (h.0, Apart-set_bitmap size p qs k ws h.1)

Apart-with_bitmap :
    (size : ℕ) (p : Page) (ps : List Page) (ws : List ℕ)
    → Apart size p ps
    → Apart size (with_bitmap p ws) ps
Apart-with_bitmap size p [] ws h = tt
Apart-with_bitmap size p (q ∷ qs) ws h = (h.0, Apart-with_bitmap size p qs ws h.1)

Layout-set_bitmap :
    (size : ℕ) (ps : List Page) (k : ℕ) (ws : List ℕ)
    → Layout size ps
    → Words ws
    → Layout size (set_bitmap ps k ws)
Layout-set_bitmap size [] k ws h ok = tt
Layout-set_bitmap size (p ∷ ps) zero ws h ok =
    ((h.0.0, ok), Apart-with_bitmap size p ps ws h.1, h.2)
Layout-set_bitmap size (p ∷ ps) (suc k) ws h ok =
    (h.0, Apart-set_bitmap size p ps k ws h.1, Layout-set_bitmap size ps k ws h.2 ok)

with-Layout :
    (pool : Pool) (ps : List Page)
    → IsValid pool
    → Layout pool.allocation ps
    → IsValid (record pool { page_list = ps })
with-Layout pool ps valid h = record {
  size_pos = valid.size_pos;
  fits = valid.fits;
  blocks = valid.blocks;
  layout = h;
}

taken-Words : (ws : List ℕ) (n : ℕ) → Words ws → Words (take_block ws n)
taken-Words ws n h =
    let w : ℕ = get_or ws (n / 32) 0 in
    Words-set ws (n / 32) (clear_bit w (n % 32)) h
      (omega (arith, clear_bit-le w (n % 32), Words-get_or ws (n / 32) h))

freed-Words :
    (ws : List ℕ) (n : ℕ)
    → Words ws
    → Words (set ws (n / 32) (set_bit (get_or ws (n / 32) 0) (n % 32)))
freed-Words ws n h =
    let w : ℕ = get_or ws (n / 32) 0 in
    Words-set ws (n / 32) (set_bit w (n % 32)) h
      (set_bit-lt 32 w (n % 32) (Words-get_or ws (n / 32) h) (omega arith))

Layout-Words :
    (size : ℕ) (ps : List Page) (k : ℕ) → Layout size ps → Words (get_or ps k no_page).bitmap
Layout-Words size [] k h = tt
Layout-Words size (p ∷ ps) zero h = h.0.1
Layout-Words size (p ∷ ps) (suc k) h = Layout-Words size ps k h.2

-- A pool that served a caller from an existing page is well formed.
Granted-IsValid :
    (pool : Pool) (v d : ℕ) (pool' : Pool) → IsValid pool → Granted pool v d pool' → IsValid pool'
Granted-IsValid pool v d pool' valid g =
    let p : Page = get_or pool.page_list g.index no_page in
    let ok : PageOk pool.allocation p =
      Layout-get_or pool.allocation pool.page_list g.index valid.layout g.exists in
    rw g.after (
      with-Layout pool (set_bitmap pool.page_list g.index (take_block p.bitmap g.place)) valid (
        Layout-set_bitmap pool.allocation pool.page_list g.index (take_block p.bitmap g.place)
          valid.layout (taken-Words p.bitmap g.place ok.1)))

put_block-IsValid : (pool : Pool) (k d : ℕ) → IsValid pool → IsValid (put_block pool k d)
unfolding put_block
put_block-IsValid pool k d valid =
    let p : Page = get_or pool.page_list k no_page in
    let n : ℕ = (d - p.dma) / pool.size in
    let words : List ℕ = set p.bitmap (n / 32) (set_bit (get_or p.bitmap (n / 32) 0) (n % 32)) in
    with-Layout pool (set_bitmap pool.page_list k words) valid (
      Layout-set_bitmap pool.allocation pool.page_list k words valid.layout
        (freed-Words p.bitmap n (Layout-Words pool.allocation pool.page_list k valid.layout)))

-- Giving back any address at all leaves a well-formed pool well formed.
pci_pool_free-IsValid : (pool : Pool) (d : ℕ) → IsValid pool → IsValid (pci_pool_free pool d).0
unfolding pci_pool_free
pci_pool_free-IsValid pool d valid =
    elim (Option-cases (find_page pool.allocation pool.page_list d)) [
      | inl e ↦ rw (e, pci_pool_free) valid
      | inr (k, e) ↦ rw (e, pci_pool_free) (put_block-IsValid pool k d valid)
    ]

Words-replicate : (n : ℕ) → Words (replicate n all_ones)
Words-replicate zero = tt
Words-replicate (suc n) = (omega arith, Words-replicate n)

-- A well-formed pool that grew by a page is well formed, if the memory of the page overlaps no page
-- that the pool has and ends below `2 ^ 32`.
Fresh-IsValid :
    (pool : Pool) (m : Memory) (v d : ℕ) (pool' : Pool)
    → IsValid pool
    → (f : Fresh pool m v d pool') → f.dma + pool.allocation < 2 ^ 32
    → Apart pool.allocation (record { vaddr = f.vaddr; dma = f.dma; bitmap = [] }) pool.page_list
    → IsValid pool'
Fresh-IsValid pool m v d pool' valid f top apart =
    let n : ℕ = (pool.blocks_per_page + 31) / 32 in
    let words : List ℕ = take_block (replicate n all_ones) 0 in
    let p : Page = record { vaddr = f.vaddr; dma = f.dma; bitmap = [] } in
    rw f.after (
      with-Layout pool (with_bitmap p words ∷ pool.page_list) valid (
        (top, taken-Words (replicate n all_ones) 0 (Words-replicate n)),
        Apart-with_bitmap pool.allocation p pool.page_list words apart,
        valid.layout,
      ))
