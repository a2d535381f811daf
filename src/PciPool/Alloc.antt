-- ===== src/PciPool/Alloc.antt =====
-- `pci_pool_alloc` and `pci_pool_free` of pcipool.c against the set of blocks that are free.
use jornada.Common.{
  ℕ, zero, suc, ◌+◌, ◌-◌, ◌*◌, ◌/◌, ◌%◌, ◌≤◌, ◌<◌, ◌≡◌, ap, ◌∙◌, Bool, true, some, List, [], ◌∷◌,
  arith, get_or, set, u32, length, set-set, set-get_or, get_or-set_self,
}
use jornada.Common.Bits.{bit, bit-zero, set_bit, clear_bit, set_bit-clear_bit}
use jornada.PciPool.Defs.{
  Page, Pool, no_page, Memory, at_block, scan_pages, alloc_pass, find_page, put_block,
  pci_pool_free,
}
use jornada.PciPool.Bitmap.{FindsZero, free_at, take_block}
use jornada.PciPool.Pages.{
  PageOk, Layout, Layout-get_or, with_bitmap, set_bitmap, find_page-set_bitmap, find_page_lem,
  Chosen, scan_pages-Chosen,
}
use mathlib.Core.Path.{ap₂}
use native.Mathlib.Nat.{mul-le-mul_right, div-mul-le_self, mul-div_cancel}

-- What holds of a pool between two calls.
pub record IsValid (pool : Pool) : Type 0 where
  pub size_pos : 0 < pool.size
  pub fits : pool.size ≤ pool.allocation
  pub blocks : pool.blocks_per_page ≡ pool.allocation / pool.size
  pub layout : Layout pool.allocation pool.page_list

pub block_inside :
    (size allocation n : ℕ) → 0 < size → n < allocation / size → n * size + size ≤ allocation
block_inside size allocation n pos lt =
    let top : suc n * size ≤ allocation / size * size = mul-le-mul_right size lt in
    omega (arith, top, div-mul-le_self allocation size)

-- The block that a call took, and the pool it left: the page at place `index` had block `place` free,
-- and loses just that one.
pub record Granted (pool : Pool) (v d : ℕ) (pool' : Pool) : Type 0 where
  pub index : ℕ
  pub place : ℕ
  pub exists : index < length pool.page_list
  pub in_page : place < pool.blocks_per_page
  pub was_free : free_at (get_or pool.page_list index no_page).bitmap place ≡ true
  pub handle : d ≡ (get_or pool.page_list index no_page).dma + place * pool.size
  pub pointer : v ≡ u32 (place * pool.size + (get_or pool.page_list index no_page).vaddr)
  pub inside : d + pool.size ≤ (get_or pool.page_list index no_page).dma + pool.allocation
  pub after : pool' ≡ record pool {
    page_list =
        set_bitmap pool.page_list index
          (take_block (get_or pool.page_list index no_page).bitmap place);
  }

module _ {ffz : ℕ → ℕ} (spec : FindsZero ffz) where
  alloc_pass-some :
      (pool : Pool) (s : Bool) (m : Memory) (r : (ℕ × ℕ) × ℕ × List Page)
      → scan_pages ffz pool.blocks_per_page pool.page_list ≡ some r
      → alloc_pass ffz pool s m ≡ at_block pool r.0 r.1 r.2
  unfolding alloc_pass
  alloc_pass-some pool s m r e = rw (e, alloc_pass)

  pub scan-Granted :
      (pool : Pool) (r : (ℕ × ℕ) × ℕ × List Page)
      → IsValid pool
      → scan_pages ffz pool.blocks_per_page pool.page_list ≡ some r
      → Granted pool
          (u32 (u32 (r.1 * pool.size) + r.0.0))
          (u32 (u32 (r.1 * pool.size) + r.0.1))
          (record pool { page_list = r.2 })
  scan-Granted pool r valid e =
      let c : Chosen ffz spec pool.blocks_per_page pool.page_list r =
        scan_pages-Chosen spec pool.allocation pool.blocks_per_page pool.page_list r valid.layout
          e in
      let ok : PageOk pool.allocation (get_or pool.page_list c.index no_page) =
        Layout-get_or pool.allocation pool.page_list c.index valid.layout c.exists in
      let n : r.1 ≡ c.found.place = omega (arith, c.found.at) in
      let scaled : r.1 * pool.size ≡ c.found.place * pool.size = ap (λ (t : ℕ). t * pool.size) n in
      let va : r.0.0 ≡ (get_or pool.page_list c.index no_page).vaddr = ap (λ t. t.0) c.address in
      let da : r.0.1 ≡ (get_or pool.page_list c.index no_page).dma = ap (λ t. t.1) c.address in
      let fits : r.1 * pool.size + pool.size ≤ pool.allocation =
        block_inside pool.size pool.allocation r.1 valid.size_pos
          (omega (arith, c.found.in_range, valid.blocks)) in
      record {
        index = c.index;
        place = c.found.place;
        exists = c.exists;
        in_page = omega (arith, c.found.in_range);
        was_free = c.found.was_free;
        handle = omega (arith, scaled, da, ok.0, fits);
        pointer = omega (arith, scaled, va, ok.0, fits);
        inside = omega (arith, scaled, da, ok.0, fits);
        after =
            ap (λ ps. record pool { page_list = ps }) c.pages
            ∙ (ap (λ ws. record pool { page_list = set_bitmap pool.page_list c.index ws })
                c.found.taken);
      }

-- The block that a freed address names is looked up in the page that it lies in.
find_place :
    (pool : Pool) (k n : ℕ) (ws : List ℕ)
    → IsValid pool
    → k < length pool.page_list
    → n < pool.blocks_per_page
    → find_page pool.allocation
        (set_bitmap pool.page_list k ws)
        ((get_or pool.page_list k no_page).dma + n * pool.size)
      ≡ some k
find_place pool k n ws valid lt within =
    let fits : n * pool.size + pool.size ≤ pool.allocation =
      block_inside pool.size pool.allocation n valid.size_pos (omega (arith, valid.blocks)) in
    rw find_page-set_bitmap (
      find_page_lem pool.allocation pool.page_list k
        ((get_or pool.page_list k no_page).dma + n * pool.size) valid.layout lt (omega arith)
        (omega (arith, valid.size_pos)))

free_at-in_range : (ws : List ℕ) (i j : ℕ) → bit (get_or ws i 0) j ≡ true → i < length ws
free_at-in_range [] i j h = absurd (cc (bit-zero j))
free_at-in_range (w ∷ ws) zero j h = omega arith
free_at-in_range (w ∷ ws) (suc i) j h = omega (arith, free_at-in_range ws i j h)

-- Giving back a block that was just taken restores the bitmap.
put-take :
    (ws : List ℕ) (n : ℕ)
    → free_at ws n ≡ true
    → set (take_block ws n) (n / 32) (set_bit (get_or (take_block ws n) (n / 32) 0) (n % 32)) ≡ ws
put-take ws n h = rw (
  get_or-set_self ws (n / 32) (clear_bit (get_or ws (n / 32) 0) (n % 32)) 0
      (free_at-in_range ws (n / 32) (n % 32) h),
  set-set,
  set_bit-clear_bit (get_or ws (n / 32) 0) (n % 32) h,
  set-get_or,
)

put_block-take :
    (pool : Pool) (k n : ℕ)
    → 0 < pool.size
    → k < length pool.page_list
    → free_at (get_or pool.page_list k no_page).bitmap n ≡ true
    → put_block
        (record pool {
          page_list =
              set_bitmap pool.page_list k (take_block (get_or pool.page_list k no_page).bitmap n);
        })
        k
        ((get_or pool.page_list k no_page).dma + n * pool.size)
      ≡ pool
unfolding put_block
put_block-take pool k n pos lt free =
    let p : Page = get_or pool.page_list k no_page in
    let back : p.dma + n * pool.size - p.dma ≡ n * pool.size = omega arith in
    rw
      (
        get_or-set_self pool.page_list k (with_bitmap p (take_block p.bitmap n)) no_page lt,
        back,
        mul-div_cancel n pos,
        put-take p.bitmap n free,
        set-set,
      )
      (ap (λ ps. record pool { page_list = ps }) (set-get_or pool.page_list k no_page))

free_found :
    (pool : Pool) (k d : ℕ)
    → find_page pool.allocation pool.page_list d ≡ some k
    → pci_pool_free pool d ≡ (put_block pool k d, true)
unfolding pci_pool_free
free_found pool k d e = rw (e, pci_pool_free)

-- In a well-formed pool, giving back the block of a call that was served from an existing page finds
-- the page that the block lies in and restores the pool exactly.
pub Granted-pci_pool_free :
    (pool : Pool) (v d : ℕ) (pool' : Pool)
    → IsValid pool
    → Granted pool v d pool'
    → pci_pool_free pool' d ≡ (pool, true)
Granted-pci_pool_free pool v d pool' valid g =
    let p : Page = get_or pool.page_list g.index no_page in
    let taken : Pool = record pool {
      page_list = set_bitmap pool.page_list g.index (take_block p.bitmap g.place);
    } in
    let e : pci_pool_free taken (p.dma + g.place * pool.size) ≡ (pool, true) =
      free_found taken g.index (p.dma + g.place * pool.size)
        (find_place pool g.index g.place (take_block p.bitmap g.place) valid g.exists g.in_page)
      ∙ ap (λ q. (q, true))
          (put_block-take pool g.index g.place valid.size_pos g.exists g.was_free) in
    ap₂ pci_pool_free g.after g.handle ∙ e
