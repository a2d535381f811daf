-- ===== src/PciPool/Size.antt =====
-- The block size that `pci_pool_create` of pcipool.c computes.
use jornada.Common.{
  ℕ, zero, suc, ◌+◌, ◌-◌, ◌*◌, ◌/◌, ◌%◌, ◌^◌, ◌≤◌, ◌<◌, ◌≡◌, ◌≢◌, ◌⊎◌, inl, inr, refl, sym, ap, ◌∙◌,
  Bool, some, [], arith, ◌==◌, if◌then◌else◌, u32, le→ltb, lt→ltb, ne→==, eq→==,
}
use jornada.Common.Bits.{land, land-high_mask, pow_two-pos, pow_two-suc}
use jornada.PciPool.Defs.{Pool, pool_of, pci_pool_create, round_size}
use jornada.PciPool.Alloc.{IsValid}
use native.Mathlib.Decide.{dec_lt, ℕ_discrete}
use native.Mathlib.Nat.{
  mul-mod_left, mod_self, mod-add-div', lt-div-mul-add, add-mul-div_right, mod-lt, div-eq_of_lt,
}

-- The multiple of `m` that the mask leaves of `size + m + 1`.
rounded :
    (size k : ℕ)
    → k < 32
    → size + 2 ^ k + 1 < 2 ^ 32
    → land 32 (u32 (size + 2 ^ k + 1)) (2 ^ 32 - 2 ^ k) ≡ (size + 2 ^ k + 1) / 2 ^ k * 2 ^ k
rounded size k lt fits =
    let e : u32 (size + 2 ^ k + 1) ≡ size + 2 ^ k + 1 = omega arith in
    rw e (land-high_mask 32 k (size + 2 ^ k + 1) (omega arith) fits)

div_unique : (m q r : ℕ) → r < m → (r + q * m) / m ≡ q
div_unique m q r lt = omega (arith, add-mul-div_right r q {z = m} (omega arith), div-eq_of_lt lt)

round_size-masked :
    (size k : ℕ)
    → k < 32
    → size + 2 ^ k + 1 < 2 ^ 32
    → 2 ^ k ≤ size
    → size % 2 ^ k ≢ 0
    → round_size size (2 ^ k) ≡ (size + 2 ^ k + 1) / 2 ^ k * 2 ^ k
unfolding round_size
round_size-masked size k lt fits le ne =
    rw (le→ltb size (2 ^ k) le, ne→== (size % 2 ^ k) 0 ne) (rounded size k lt fits)

-- The request, taken apart along the alignment.
split_at : (size m : ℕ) → size ≡ size % m + size / m * m
split_at size m = sym (mod-add-div' size m)

-- Short of one remainder, the block size is the least multiple of the alignment that holds the
-- request.
round_size_lem :
    (size k : ℕ)
    → k < 32
    → size + 2 ^ k + 1 < 2 ^ 32
    → 2 ^ k ≤ size
    → size % 2 ^ k ≢ 0
    → size % 2 ^ k + 1 ≢ 2 ^ k
    → round_size size (2 ^ k) ≡ (size / 2 ^ k + 1) * 2 ^ k
round_size_lem size k lt fits le ne short =
    let m : ℕ = 2 ^ k in
    let r : size % m < m = mod-lt size (pow_two-pos k) in
    let e : size + m + 1 ≡ size % m + 1 + (size / m + 1) * m = omega (arith, split_at size m) in
    round_size-masked size k lt fits le ne
    ∙ ap (λ (t : ℕ). t / m * m) e
    ∙ ap (λ (t : ℕ). t * m) (div_unique m (size / m + 1) (size % m + 1) (omega arith))

two-le-pow : (k : ℕ) → 1 ≤ k → 2 ≤ 2 ^ k
two-le-pow zero h = absurd (omega arith)
two-le-pow (suc k) h = omega (arith, pow_two-suc k, pow_two-pos k)

-- For a request of at least the alignment `2 ^ k`, an even one, that is one short of a multiple of
-- it, and size and alignment within a word, the block is one whole alignment larger than that
-- multiple.
round_size-overshoot :
    (size k : ℕ)
    → k < 32
    → size + 2 ^ k + 1 < 2 ^ 32
    → 2 ^ k ≤ size
    → 1 ≤ k
    → size % 2 ^ k + 1 ≡ 2 ^ k
    → round_size size (2 ^ k) ≡ size + 1 + 2 ^ k
round_size-overshoot size k lt fits le pos last =
    let m : ℕ = 2 ^ k in
    let two : 2 ≤ m = two-le-pow k pos in
    let e : size + m + 1 ≡ 0 + (size / m + 2) * m = omega (arith, split_at size m) in
    round_size-masked size k lt fits le (omega arith)
    ∙ ap (λ (t : ℕ). t / m * m) e
    ∙ ap (λ (t : ℕ). t * m) (div_unique m (size / m + 2) 0 (omega arith))
    ∙ omega (arith, split_at size m)

-- Whatever the request, the block size is at least the request and the alignment, and a multiple of
-- the alignment.
round_size-holds :
    (size k : ℕ)
    → k < 32
    → size + 2 ^ k + 1 < 2 ^ 32
    → (size ≤ round_size size (2 ^ k))
      × (2 ^ k ≤ round_size size (2 ^ k))
      × (round_size size (2 ^ k) % 2 ^ k ≡ 0)
unfolding round_size
round_size-holds size k lt fits = elim (dec_lt size (2 ^ k)) [
  | yes small ↦ rw (lt→ltb size (2 ^ k) small) (omega arith, omega arith, mod_self (2 ^ k))
  | no large ↦ elim (ℕ_discrete (size % 2 ^ k) 0) [
    | yes exact ↦
        rw (le→ltb size (2 ^ k) (omega arith), eq→== (size % 2 ^ k) 0 exact)
          (omega arith, omega arith, exact)
    | no ragged ↦
        rw
          (le→ltb size (2 ^ k) (omega arith), ne→== (size % 2 ^ k) 0 ragged, rounded size k lt fits)
          (
            omega (arith, lt-div-mul-add {a = size + 2 ^ k + 1} (pow_two-pos k)),
            omega (arith, lt-div-mul-add {a = size + 2 ^ k + 1} (pow_two-pos k)),
            mul-mod_left ((size + 2 ^ k + 1) / 2 ^ k) (2 ^ k),
          )
  ]
]

-- The alignment that the code computes with: 0 stands for 1.
align_pos : (k : ℕ) → (if 2 ^ k == 0 then 1 else 2 ^ k) ≡ 2 ^ k
align_pos k = rw (ne→== (2 ^ k) 0 (omega (arith, pow_two-pos k)))

pool_of-some :
    (page_size size size' allocation : ℕ) (got : Bool) (pool : Pool)
    → pool_of page_size size size' allocation got ≡ some pool
    → (pool.size ≡ size')
      × (pool.page_list ≡ [])
      × (size' ≤ pool.allocation)
      × (pool.blocks_per_page ≡ pool.allocation / pool.size)
      × (allocation ≢ 0 → pool.allocation ≡ allocation)
unfolding pool_of
pool_of-some page_size size size' allocation got pool e = ground arith

bounded : (a b : ℕ) → (a ≢ 0 → b ≡ a) → (a ≡ 0) ⊎ (b ≡ a)
bounded zero b h = inl refl
bounded (suc a) b h = inr (h (λ e. omega (arith, e)))

-- When a pool is created with an alignment `2 ^ k` of one word, and size and alignment together stay
-- below the range of a word, the pool is well formed and has no page, its blocks hold the request
-- and are a multiple of the alignment, and its pages have the size that was asked for, where one
-- was.
pub pci_pool_create-IsValid :
    (page_size size k allocation : ℕ) (got : Bool) (pool : Pool)
    → k < 32
    → size + 2 ^ k + 1 < 2 ^ 32
    → pci_pool_create page_size size (2 ^ k) allocation got ≡ some pool
    → IsValid pool
      × (pool.page_list ≡ [])
      × (size ≤ pool.size)
      × (pool.size % 2 ^ k ≡ 0)
      × ((allocation ≡ 0) ⊎ (pool.allocation ≡ allocation))
unfolding pci_pool_create
pci_pool_create-IsValid page_size size k allocation got pool lt fits e =
    let round : ℕ = round_size size (2 ^ k) in
    let (holds, aligned, multiple) = round_size-holds size k lt fits in
    let e' : pool_of page_size size round allocation got ≡ some pool = rw align_pos at e in
    let (same, empty, room, blocks, bound) =
      pool_of-some page_size size round allocation got pool e' in
    (
      record {
        size_pos = omega (arith, pow_two-pos k);
        fits = omega arith;
        blocks = blocks;
        layout = rw empty tt;
      },
      empty,
      omega arith,
      rw same multiple,
      bounded allocation pool.allocation bound,
    )
