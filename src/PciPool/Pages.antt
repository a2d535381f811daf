-- ===== src/PciPool/Pages.antt =====
-- The page list of pcipool.c: which page the allocator takes a block from, and which page a freed
-- address belongs to.
use jornada.Common.{
  ℕ, zero, suc, ◌+◌, ◌^◌, ◌≤◌, ◌<◌, ◌≡◌, ◌⊎◌, inl, inr, refl, ap, ◌∙◌, false, none, some, List, [],
  ◌∷◌, arith, get_or, set, length,
}
use jornada.PciPool.Defs.{Page, no_page, scan_words, scan_pages, find_page}
use jornada.PciPool.Bitmap.{FindsZero, Words, free_at, Found, scan_words-Found, scan_words-none}

-- A page of `size` bytes of DMA memory below the end of the address space.
abbrev pub PageOk : ℕ → Page → Type 0
PageOk size p = (p.dma + size < 2 ^ 32) × Words p.bitmap

abbrev pub Apart : ℕ → Page → List Page → Type 0
Apart size p [] = Unit
Apart size p (q ∷ qs) = ((p.dma + size ≤ q.dma) ⊎ (q.dma + size ≤ p.dma)) × Apart size p qs

-- The pages are well formed and no two of them overlap.
abbrev pub Layout : ℕ → List Page → Type 0
Layout size [] = Unit
Layout size (p ∷ ps) = PageOk size p × Apart size p ps × Layout size ps

abbrev pub with_bitmap : Page → List ℕ → Page
with_bitmap p ws = record p { bitmap = ws }

-- The page at place `k` with another bitmap.
abbrev pub set_bitmap : List Page → ℕ → List ℕ → List Page
set_bitmap ps k ws = set ps k (with_bitmap (get_or ps k no_page) ws)

pub find_page-set_bitmap :
    (size dma : ℕ) (ps : List Page) (k : ℕ) (ws : List ℕ)
    → find_page size (set_bitmap ps k ws) dma ≡ find_page size ps dma
unfolding find_page
find_page-set_bitmap size dma [] k ws = refl
find_page-set_bitmap size dma (p ∷ ps) zero ws = refl
find_page-set_bitmap size dma (p ∷ ps) (suc k) ws = rw (find_page-set_bitmap size dma ps k ws)

Apart-get_or :
    (size : ℕ) (p : Page) (ps : List Page) (k : ℕ)
    → Apart size p ps
    → k < length ps
    → (p.dma + size ≤ (get_or ps k no_page).dma) ⊎ ((get_or ps k no_page).dma + size ≤ p.dma)
Apart-get_or size p [] k h lt = absurd (omega arith)
Apart-get_or size p (q ∷ qs) zero h lt = h.0
Apart-get_or size p (q ∷ qs) (suc k) h lt = Apart-get_or size p qs k h.1 (omega arith)

pub Layout-get_or :
    (size : ℕ) (ps : List Page) (k : ℕ)
    → Layout size ps
    → k < length ps
    → PageOk size (get_or ps k no_page)
Layout-get_or size [] k h lt = absurd (omega arith)
Layout-get_or size (p ∷ ps) zero h lt = h.0
Layout-get_or size (p ∷ ps) (suc k) h lt = Layout-get_or size ps k h.2 (omega arith)

-- An address inside the page at place `k` is looked up at place `k`.
pub find_page_lem :
    (size : ℕ) (ps : List Page) (k dma : ℕ)
    → Layout size ps
    → k < length ps
    → (get_or ps k no_page).dma ≤ dma
    → dma < (get_or ps k no_page).dma + size
    → find_page size ps dma ≡ some k
unfolding find_page
find_page_lem size [] k dma h lt lo hi = absurd (omega arith)
find_page_lem size (p ∷ ps) zero dma h lt lo hi = ground arith
find_page_lem size (p ∷ ps) (suc k) dma h lt lo hi =
    let ok : PageOk size (get_or ps k no_page) = Layout-get_or size ps k h.2 (omega arith) in
    ground (
      arith,
      Apart-get_or size p ps k h.1 (omega arith),
      find_page_lem size ps k dma h.2 (omega arith) lo hi,
    )

-- Where a scan of the page list took its block.
pub record Chosen (ffz : ℕ → ℕ) (spec : FindsZero ffz) (blocks : ℕ) (ps : List Page)
    (r : (ℕ × ℕ) × ℕ × List Page) : Type 0 where
  pub index : ℕ
  pub words : List ℕ
  pub exists : index < length ps
  pub address : r.0 ≡ ((get_or ps index no_page).vaddr, (get_or ps index no_page).dma)
  pub found : Found spec blocks 0 (get_or ps index no_page).bitmap (r.1, words)
  pub pages : r.2 ≡ set_bitmap ps index words

-- Every block of every page is taken.
abbrev pub AllTaken : ℕ → List Page → Type 0
AllTaken blocks [] = Unit
AllTaken blocks (p ∷ ps) = ((j : ℕ) → j < blocks → free_at p.bitmap j ≡ false) × AllTaken blocks ps

module _ {ffz : ℕ → ℕ} (spec : FindsZero ffz) where
  scan_pages-cons :
      (blocks : ℕ) (p : Page) (ps : List Page) (r : (ℕ × ℕ) × ℕ × List Page)
      → scan_pages ffz blocks (p ∷ ps) ≡ some r
      → ((q : ℕ × List ℕ) × (scan_words ffz blocks 0 p.bitmap ≡ some q)
          × (r ≡ ((p.vaddr, p.dma), q.0, record p { bitmap = q.1 } ∷ ps)))
        ⊎ ((q : (ℕ × ℕ) × ℕ × List Page) × (scan_pages ffz blocks ps ≡ some q)
            × (r ≡ (q.0, q.1, p ∷ q.2)))
  unfolding scan_pages
  scan_pages-cons blocks p ps r e = ground arith

  pub scan_pages-Chosen :
      (size blocks : ℕ) (ps : List Page) (r : (ℕ × ℕ) × ℕ × List Page)
      → Layout size ps
      → scan_pages ffz blocks ps ≡ some r
      → Chosen ffz spec blocks ps r
  unfolding scan_pages
  scan_pages-Chosen size blocks [] r h e = cc
  scan_pages-Chosen size blocks (p ∷ ps) r h e = elim (scan_pages-cons blocks p ps r e) [
    | inl (q, w, eq) ↦ record {
      index = 0;
      words = q.1;
      exists = omega arith;
      address = ap (λ t. t.0) eq;
      found = rw eq (scan_words-Found spec blocks 0 p.bitmap q h.0.1 w);
      pages = ap (λ t. t.2) eq;
    }
    | inr (q, tail, eq) ↦
        let c : Chosen ffz spec blocks ps q = scan_pages-Chosen size blocks ps q h.2 tail in
        record {
          index = suc c.index;
          words = c.words;
          exists = omega (arith, c.exists);
          address = ap (λ t. t.0) eq ∙ c.address;
          found = rw eq c.found;
          pages = ap (λ t. t.2) eq ∙ ap (λ t. p ∷ t) c.pages;
        }
  ]

  scan_pages-cons_none :
      (blocks : ℕ) (p : Page) (ps : List Page)
      → scan_pages ffz blocks (p ∷ ps) ≡ none
      → (scan_words ffz blocks 0 p.bitmap ≡ none) × (scan_pages ffz blocks ps ≡ none)
  unfolding scan_pages
  scan_pages-cons_none blocks p ps e = ground arith

  pub scan_pages-none :
      (size blocks : ℕ) (ps : List Page)
      → Layout size ps
      → scan_pages ffz blocks ps ≡ none
      → AllTaken blocks ps
  unfolding scan_pages
  scan_pages-none size blocks [] h e = tt
  scan_pages-none size blocks (p ∷ ps) h e =
      let (here, tail) = scan_pages-cons_none blocks p ps e in
      (
        λ j lt. scan_words-none spec blocks 0 p.bitmap h.0.1 here j (omega arith),
        scan_pages-none size blocks ps h.2 tail,
      )
