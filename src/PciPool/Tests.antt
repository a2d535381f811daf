-- ===== src/PciPool/Tests.antt =====
-- Runs of pcipool.c's functions at a small pool: one page of 128 bytes, in four blocks of 32.
use jornada.Common.{
  ℕ, zero, suc, ◌-◌, ◌/◌, ◌%◌, ◌^◌, ◌≤◌, ◌<◌, ◌≡◌, ◌⊎◌, inl, inr, refl, true, false, none, some, [],
  ◌∷◌, arith, ◌==◌, if◌then◌else◌, Bool-cases,
}
use jornada.Common.Bits.{bit, pow_two-suc}
use jornada.PciPool.Defs.{
  Pool, Memory, alloc_pass, pci_pool_free, pci_pool_create, round_size, pool_of,
}
use jornada.PciPool.Bitmap.{FindsZero}
use jornada.PciPool.Alloc.{IsValid, Granted, Granted-pci_pool_free}
use jornada.PciPool.Outcomes.{Explained, alloc_pass-Explained}
use jornada.PciPool.Size.{pci_pool_create-IsValid}

-- An `ffz` that can be run: the lowest clear bit among `n`.
abbrev first_clear : ℕ → ℕ → ℕ
first_clear zero w = 0
first_clear (suc n) w = if w % 2 == 0 then 0 else suc (first_clear n (w / 2))

first_clear_lem :
    (n w : ℕ) → w < 2 ^ n - 1 → (first_clear n w < n) × (bit w (first_clear n w) ≡ false)
first_clear_lem zero w h = absurd (omega arith)
first_clear_lem (suc n) w h = elim (Bool-cases (w % 2 == 0)) [
  | inl e ↦ rw e (omega arith, ground (arith, e))
  | inr e ↦
      let (small, clear) = first_clear_lem n (w / 2) (ground (arith, pow_two-suc n, e)) in
      rw e (omega (arith, small), clear)
]

first_clear-lowest : (n w j : ℕ) → j < first_clear n w → bit w j ≡ true
first_clear-lowest zero w j h = absurd (omega arith)
first_clear-lowest (suc n) w zero h = elim (Bool-cases (w % 2 == 0)) [
  | inl e ↦ absurd (omega (arith, rw e at h))
  | inr e ↦ ground (arith, e)
]
first_clear-lowest (suc n) w (suc j) h = elim (Bool-cases (w % 2 == 0)) [
  | inl e ↦ absurd (omega (arith, rw e at h))
  | inr e ↦ first_clear-lowest n (w / 2) j (omega (arith, rw e at h))
]

abbrev ffz : ℕ → ℕ
ffz w = first_clear 32 w

ffz-FindsZero : FindsZero ffz
ffz-FindsZero = record {
  within = λ w h. (first_clear_lem 32 w h).0;
  clear = λ w h. (first_clear_lem 32 w h).1;
  lowest = λ w j h lt. first_clear-lowest 32 w j lt;
}

-- Blocks 1 and 3 are free.
abbrev one_page : Pool
one_page = record {
  page_list = record { vaddr = 3000; dma = 1000; bitmap = 10 ∷ [] } ∷ [];
  blocks_per_page = 4;
  size = 32;
  allocation = 128;
}

one_page-IsValid : IsValid one_page
one_page-IsValid = record {
  size_pos = omega arith;
  fits = omega arith;
  blocks = refl;
  layout = ((omega arith, (omega arith, tt)), tt, tt);
}

-- Block 1 of `one_page` was taken.
abbrev one_taken : Pool
one_taken = record one_page {
  page_list = record { vaddr = 3000; dma = 1000; bitmap = 8 ∷ [] } ∷ [];
}

one-Granted : Granted one_page 3032 1032 one_taken
one-Granted = record {
  index = 0;
  place = 1;
  exists = omega arith;
  in_page = omega arith;
  was_free = refl;
  handle = refl;
  pointer = refl;
  inside = omega arith;
  after = refl;
}

abbrev no_memory : Memory
no_memory = record { header = false; block = none }

Granted-pci_pool_free_example : pci_pool_free one_taken 1032 ≡ (one_page, true)
Granted-pci_pool_free_example =
    Granted-pci_pool_free one_page 3032 1032 one_taken one_page-IsValid one-Granted

alloc_pass-Explained_example :
    Explained one_page false no_memory (alloc_pass ffz one_page false no_memory)
alloc_pass-Explained_example =
    alloc_pass-Explained ffz-FindsZero one_page false no_memory one_page-IsValid

abbrev created : Pool
created = record { page_list = []; blocks_per_page = 85; size = 48; allocation = 4096 }

abbrev no_boundary : ℕ
no_boundary = 0

pci_pool_create_run : pci_pool_create 4096 33 16 no_boundary true ≡ some created
unfolding pci_pool_create pool_of round_size
pci_pool_create_run = refl

pci_pool_create-IsValid_example :
    IsValid created
    × (created.page_list ≡ [])
    × (33 ≤ created.size)
    × (created.size % 2 ^ 4 ≡ 0)
    × ((no_boundary ≡ 0) ⊎ (created.allocation ≡ no_boundary))
pci_pool_create-IsValid_example =
    pci_pool_create-IsValid 4096 33 4 no_boundary true created (omega arith) (omega arith)
      pci_pool_create_run
