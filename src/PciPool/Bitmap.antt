-- ===== src/PciPool/Bitmap.antt =====
-- The bitmap of a page of pcipool.c: what its scan finds, and that it misses no free block.
use jornada.Common.{
  ℕ, zero, suc, ◌+◌, ◌-◌, ◌/◌, ◌%◌, ◌^◌, ◌≤◌, ◌<◌, ◌≡◌, ◌≢◌, ◌⊎◌, inl, inr, ap, Bool, true, false,
  not, none, some, List, [], ◌∷◌, arith, ltb, ◌==◌, ==_iff, Bool-cases, get_or, set,
}
use jornada.Common.Bits.{bit, bit-zero, clear_bit, pow_two-suc}
use jornada.PciPool.Defs.{all_ones, scan_words}

-- What the documentation of the kernel's `ffz` says: the lowest clear bit of a word that has one.
pub record FindsZero (ffz : ℕ → ℕ) : Type 0 where
  pub within : (w : ℕ) → w < all_ones → ffz w < 32
  pub clear : (w : ℕ) → w < all_ones → bit w (ffz w) ≡ false
  pub lowest : (w j : ℕ) → w < all_ones → j < ffz w → bit w j ≡ true

bit-complement : (n w j : ℕ) → w < 2 ^ n → j < n → bit (2 ^ n - 1 - w) j ≡ not (bit w j)
bit-complement zero w j hw hj = absurd (omega arith)
bit-complement (suc n) w zero hw hj = ground (arith, pow_two-suc n)
bit-complement (suc n) w (suc j) hw hj =
    let e : (2 ^ suc n - 1 - w) / 2 ≡ 2 ^ n - 1 - w / 2 = omega (arith, pow_two-suc n) in
    rw e (bit-complement n (w / 2) j (omega (arith, pow_two-suc n)) (omega arith))

abbrev pub Words : List ℕ → Type 0
Words [] = Unit
Words (w ∷ ws) = (w < 2 ^ 32) × Words ws

-- Block `j` of the page is free.
abbrev pub free_at : List ℕ → ℕ → Bool
free_at ws j = bit (get_or ws (j / 32) 0) (j % 32)

-- The bitmap with block `j` taken.
abbrev pub take_block : List ℕ → ℕ → List ℕ
take_block ws j = set ws (j / 32) (clear_bit (get_or ws (j / 32) 0) (j % 32))

div-add_32 : (j : ℕ) → (j + 32) / 32 ≡ suc (j / 32)
div-add_32 j = omega arith

mod-add_32 : (j : ℕ) → (j + 32) % 32 ≡ j % 32
mod-add_32 j = omega arith

free_at-cons : (w : ℕ) (ws : List ℕ) (j : ℕ) → free_at (w ∷ ws) (j + 32) ≡ free_at ws j
free_at-cons w ws j = rw (div-add_32, mod-add_32)

take_block-cons : (w : ℕ) (ws : List ℕ) (j : ℕ) → take_block (w ∷ ws) (j + 32) ≡ w ∷ take_block ws j
take_block-cons w ws j = rw (div-add_32, mod-add_32)

module _ {ffz : ℕ → ℕ} (spec : FindsZero ffz) where
  ffz_lem :
      (w : ℕ) → w < 2 ^ 32 → w ≢ 0 → (ffz (all_ones - w) < 32) × (bit w (ffz (all_ones - w)) ≡ true)
  ffz_lem w h ne =
      let small : all_ones - w < all_ones = omega arith in
      let low : ffz (all_ones - w) < 32 = spec.within (all_ones - w) small in
      (
        low,
        ground (
          arith,
          spec.clear (all_ones - w) small,
          bit-complement 32 w (ffz (all_ones - w)) h low,
        ),
      )

  below_ffz : (w j : ℕ) → w < 2 ^ 32 → w ≢ 0 → j < ffz (all_ones - w) → bit w j ≡ false
  below_ffz w j h ne lt =
      let small : all_ones - w < all_ones = omega arith in
      let low : ffz (all_ones - w) < 32 = spec.within (all_ones - w) small in
      ground (arith, spec.lowest (all_ones - w) j small lt, bit-complement 32 w j h (omega arith))

  -- A block that the scan returns is in range and free, and the new bitmap has just it taken.
  pub record Found (blocks i : ℕ) (ws : List ℕ) (r : ℕ × List ℕ) : Type 0 where
    pub place : ℕ
    pub at : r.0 ≡ i + place
    pub in_range : r.0 < blocks
    pub was_free : free_at ws place ≡ true
    pub taken : r.1 ≡ take_block ws place

  scan_words-cons :
      (blocks i w : ℕ) (ws : List ℕ) (r : ℕ × List ℕ)
      → scan_words ffz blocks i (w ∷ ws) ≡ some r
      → ((w ≢ 0)
          × (i + ffz (all_ones - w) < blocks)
          × (r ≡ (i + ffz (all_ones - w), clear_bit w (ffz (all_ones - w)) ∷ ws)))
        ⊎ ((q : ℕ × List ℕ) × (scan_words ffz blocks (i + 32) ws ≡ some q) × (r ≡ (q.0, w ∷ q.1)))
  unfolding scan_words
  scan_words-cons blocks i w ws r e = ground arith

  pub scan_words-Found :
      (blocks i : ℕ) (ws : List ℕ) (r : ℕ × List ℕ)
      → Words ws
      → scan_words ffz blocks i ws ≡ some r
      → Found blocks i ws r
  unfolding scan_words
  scan_words-Found blocks i [] r h e = cc
  scan_words-Found blocks i (w ∷ ws) r h e = elim (scan_words-cons blocks i w ws r e) [
    | inl (ne, lt, q) ↦
        let (low, free) = ffz_lem w h.0 ne in
        let b : ℕ = ffz (all_ones - w) in
        let first : b / 32 ≡ 0 = omega arith in
        let whole : b % 32 ≡ b = omega arith in
        record {
          place = b;
          at = ap (λ t. t.0) q;
          in_range = rw q lt;
          was_free = rw (first, whole) free;
          taken = rw (q, first, whole);
        }
    | inr (q, tail, eq) ↦
        let f : Found blocks (i + 32) ws q = scan_words-Found blocks (i + 32) ws q h.1 tail in
        record {
          place = f.place + 32;
          at = rw eq (omega (arith, f.at));
          in_range = rw eq f.in_range;
          was_free = rw free_at-cons f.was_free;
          taken = rw (eq, take_block-cons) (ap (λ t. w ∷ t) f.taken);
        }
  ]

  scan_words-cons_none :
      (blocks i w : ℕ) (ws : List ℕ)
      → i < blocks
      → scan_words ffz blocks i (w ∷ ws) ≡ none
      → (scan_words ffz blocks (i + 32) ws ≡ none) × ((w ≡ 0) ⊎ (blocks ≤ i + ffz (all_ones - w)))
  unfolding scan_words
  scan_words-cons_none blocks i w ws lt e = ground arith

  first_word_none :
      (blocks i w j : ℕ)
      → w < 2 ^ 32
      → i + j < blocks
      → (w ≡ 0) ⊎ (blocks ≤ i + ffz (all_ones - w))
      → bit w j ≡ false
  first_word_none blocks i w j h lt (inl z) = rw z (bit-zero j)
  first_word_none blocks i w j h lt (inr far) = elim (Bool-cases (w == 0)) [
    | inl z ↦ rw ((==_iff w 0).0 z) (bit-zero j)
    | inr nz ↦ below_ffz w j h (ground arith) (omega arith)
  ]

  -- A scan that returns nothing has passed no free block.
  pub scan_words-none :
      (blocks i : ℕ) (ws : List ℕ)
      → Words ws
      → scan_words ffz blocks i ws ≡ none
      → (j : ℕ) → i + j < blocks
      → free_at ws j ≡ false
  scan_words-none blocks i [] h e j lt = bit-zero (j % 32)
  scan_words-none blocks i (w ∷ ws) h e j lt =
      let (tail, here) = scan_words-cons_none blocks i w ws (omega arith) e in
      elim (Bool-cases (ltb j 32)) [
        | inl low ↦
            let first : j / 32 ≡ 0 = ground arith in
            let whole : j % 32 ≡ j = ground arith in
            rw (first, whole) (first_word_none blocks i w j h.0 lt here)
        | inr high ↦
            let k : ℕ = j - 32 in
            let back : j ≡ k + 32 = ground arith in
            rw (back, free_at-cons) (scan_words-none blocks (i + 32) ws h.1 tail k (omega arith))
      ]
