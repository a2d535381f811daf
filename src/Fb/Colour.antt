-- ===== src/Fb/Colour.antt =====
-- The colours of sa1100fb.c: how one is packed into a palette register, and how the palette is cleared.
use jornada.Common.{
  ℕ, zero, suc, ◌+◌, ◌-◌, ◌*◌, ◌/◌, ◌%◌, ◌^◌, ◌≡◌, ◌≢◌, ◌≤◌, ◌<◌, Bool, true, false, ◌&&◌, ◌||◌,
  List, if◌then◌else◌, arith, Bool-cases, inl, inr, refl, ap, ◌∙◌, ◌==◌, ltb, u32, length, get_or,
  set, length-set, get_or-set_self, get_or-set_ne, lt→ltb, le→ltb,
}
use native.Mathlib.Nat.{mod-eq_of_lt, mul-div_cancel, mul-mod_left}
use jornada.Common.Bits.{
  bit, bit-lor, bit-land, lor, land, shift_left-lt, shift_right-lt, pow_two-pos,
}
use jornada.Fb.Defs.{Info, palette_pbs}
use jornada.Fb.Mode.{colour, sa1100fb_setpalettereg, clear_palette, chan_to_field, Bitfield}

colour-bit :
    (r g b j : ℕ)
    → j < 32
    → bit (colour r g b) j ≡ (
        ((bit (r / 16) j && bit 3840 j) || (bit (g / 256) j && bit 240 j))
        || (bit (b / 4096) j && bit 15 j))
colour-bit r g b j h =
    rw
      (
        bit-lor 32 (lor 32 (land 32 (r / 16) 3840) (land 32 (g / 256) 240)) (land 32 (b / 4096) 15)
            j h,
        bit-lor 32 (land 32 (r / 16) 3840) (land 32 (g / 256) 240) j h,
        bit-land 32 (r / 16) 3840 j h,
        bit-land 32 (g / 256) 240 j h,
        bit-land 32 (b / 4096) 15 j h,
      )
      refl

bit-div16 : (a j : ℕ) → bit (a / 16) j ≡ bit a (suc (suc (suc (suc (j)))))
bit-div16 a j = let e : a / 16 ≡ a / 2 / 2 / 2 / 2 = omega arith in rw e refl

bit-div256 : (a j : ℕ) → bit (a / 256) j ≡ bit a (suc (suc (suc (suc (suc (suc (suc (suc (j)))))))))
bit-div256 a j =
    let e : a / 256 ≡ a / 16 / 16 = omega arith in
    rw e (bit-div16 (a / 16) j ∙ bit-div16 a (suc (suc (suc (suc (j))))))

bit-div4096 :
    (a j : ℕ)
    → bit (a / 4096) j
      ≡ bit a (suc (suc (suc (suc (suc (suc (suc (suc (suc (suc (suc (suc (j)))))))))))))
bit-div4096 a j =
    let e : a / 4096 ≡ a / 256 / 16 = omega arith in
    rw e (bit-div16 (a / 256) j ∙ bit-div256 a (suc (suc (suc (suc (j))))))

pick_blue : (r g b : Bool) → (((r && false) || (g && false)) || (b && true)) ≡ b
pick_blue r g b = ground arith

pick_green : (r g b : Bool) → (((r && false) || (g && true)) || (b && false)) ≡ g
pick_green r g b = ground arith

pick_red : (r g b : Bool) → (((r && true) || (g && false)) || (b && false)) ≡ r
pick_red r g b = ground arith

-- The four bits of each colour of a palette register are the top four of the 16 bits of the
-- channel.
colour_lem :
    (r g b j : ℕ)
    → j < 4
    → (bit (colour r g b) j ≡ bit b (j + 12))
      × (bit (colour r g b) (j + 4) ≡ bit g (j + 12))
      × (bit (colour r g b) (j + 8) ≡ bit r (j + 12))
colour_lem r g b zero h = (
  colour-bit r g b 0 (omega arith)
      ∙ pick_blue (bit (r / 16) 0) (bit (g / 256) 0) (bit (b / 4096) 0)
      ∙ bit-div4096 b 0,
  colour-bit r g b 4 (omega arith)
      ∙ pick_green (bit (r / 16) 4) (bit (g / 256) 4) (bit (b / 4096) 4)
      ∙ bit-div256 g 4,
  colour-bit r g b 8 (omega arith)
      ∙ pick_red (bit (r / 16) 8) (bit (g / 256) 8) (bit (b / 4096) 8)
      ∙ bit-div16 r 8,
)
colour_lem r g b (suc zero) h = (
  colour-bit r g b 1 (omega arith)
      ∙ pick_blue (bit (r / 16) 1) (bit (g / 256) 1) (bit (b / 4096) 1)
      ∙ bit-div4096 b 1,
  colour-bit r g b 5 (omega arith)
      ∙ pick_green (bit (r / 16) 5) (bit (g / 256) 5) (bit (b / 4096) 5)
      ∙ bit-div256 g 5,
  colour-bit r g b 9 (omega arith)
      ∙ pick_red (bit (r / 16) 9) (bit (g / 256) 9) (bit (b / 4096) 9)
      ∙ bit-div16 r 9,
)
colour_lem r g b (suc (suc zero)) h = (
  colour-bit r g b 2 (omega arith)
      ∙ pick_blue (bit (r / 16) 2) (bit (g / 256) 2) (bit (b / 4096) 2)
      ∙ bit-div4096 b 2,
  colour-bit r g b 6 (omega arith)
      ∙ pick_green (bit (r / 16) 6) (bit (g / 256) 6) (bit (b / 4096) 6)
      ∙ bit-div256 g 6,
  colour-bit r g b 10 (omega arith)
      ∙ pick_red (bit (r / 16) 10) (bit (g / 256) 10) (bit (b / 4096) 10)
      ∙ bit-div16 r 10,
)
colour_lem r g b (suc (suc (suc zero))) h = (
  colour-bit r g b 3 (omega arith)
      ∙ pick_blue (bit (r / 16) 3) (bit (g / 256) 3) (bit (b / 4096) 3)
      ∙ bit-div4096 b 3,
  colour-bit r g b 7 (omega arith)
      ∙ pick_green (bit (r / 16) 7) (bit (g / 256) 7) (bit (b / 4096) 7)
      ∙ bit-div256 g 7,
  colour-bit r g b 11 (omega arith)
      ∙ pick_red (bit (r / 16) 11) (bit (g / 256) 11) (bit (b / 4096) 11)
      ∙ bit-div16 r 11,
)
colour_lem r g b (suc (suc (suc (suc j)))) h = absurd (omega arith)

-- What a cleared palette has in register `j`: the mode bits, in the first one.
abbrev pub cleared : ℕ → ℕ → ℕ
cleared bpp j = if j == 0 then palette_pbs bpp else 0

setpalettereg_lem :
    (i : ℕ) (f : Info)
    → i < length f.palette_cpu
    → let f' = (sa1100fb_setpalettereg i 0 0 0 f).1 in
      (f'.bits_per_pixel ≡ f.bits_per_pixel)
      × (f'.palette_cpu ≡ set f.palette_cpu i (cleared f.bits_per_pixel i))
unfolding sa1100fb_setpalettereg
setpalettereg_lem i f h =
    let inside = lt→ltb i (length f.palette_cpu) h in
    elim (Bool-cases (i == 0)) [
      | inr z ↦ rw (inside, z) (refl, refl)
      | inl z ↦ elim (Bool-cases (f.bits_per_pixel == 8)) [
        | inl b ↦ rw (inside, z, b) (refl, refl)
        | inr b ↦ elim (Bool-cases (f.bits_per_pixel == 16)) [
          | inl c ↦ rw (inside, z, b, c) (refl, refl)
          | inr c ↦ rw (inside, z, b, c) (refl, refl)
        ]
      ]
    ]

-- A read after register `i` was cleared.
read_cleared :
    (i j bpp : ℕ) (p : List ℕ)
    → i < length p
    → (if ltb j (i + 1) then get_or (set p i (cleared bpp i)) j 0 else cleared bpp j)
      ≡ (if ltb j i then get_or p j 0 else cleared bpp j)
read_cleared i j bpp p h = elim (Bool-cases (i == j)) [
  | inl e ↦
      let same : i ≡ j = ground (arith, e) in
      rw (← same, lt→ltb i (i + 1) (omega arith), le→ltb i i (omega arith))
        (get_or-set_self p i (cleared bpp i) 0 h)
  | inr e ↦
      let ne : i ≢ j = ground (arith, e) in
      let as_before = get_or-set_ne p (cleared bpp i) 0 ne in
      elim (Bool-cases (ltb j i)) [
        | inl l ↦ rw (l, lt→ltb j (i + 1) (ground (arith, l))) as_before
        | inr l ↦ rw (l, le→ltb j (i + 1) (ground (arith, l, e))) refl
      ]
]

-- The loop over the palette clears the registers from `i` on, and leaves those below.
pub clear_palette_lem :
    (n i j : ℕ) (f : Info)
    → i + n ≡ length f.palette_cpu
    → j < length f.palette_cpu
    → let f' = clear_palette i n f in
      (length f'.palette_cpu ≡ length f.palette_cpu)
      × (get_or f'.palette_cpu j 0
          ≡ (if ltb j i then get_or f.palette_cpu j 0 else cleared f.bits_per_pixel j))
unfolding clear_palette
clear_palette_lem zero i j f h lt = rw (lt→ltb j i (omega (arith, h, lt))) (refl, refl)
clear_palette_lem (suc n) i j f h lt =
    let f₁ = (sa1100fb_setpalettereg i 0 0 0 f).1 in
    let (mode, one) = setpalettereg_lem i f (omega (arith, h)) in
    let size = ap length one ∙ length-set f.palette_cpu i (cleared f.bits_per_pixel i) in
    let (long, rest) =
      clear_palette_lem n (i + 1) j f₁ (omega (arith, h, size)) (omega (arith, lt, size)) in
    (
      long ∙ size,
      rest ∙ (rw (one, mode) (read_cleared i j f.bits_per_pixel f.palette_cpu (omega (arith, h)))),
    )

-- The top bits of a channel, as many as the field has, stand at the offset of the field and
-- nowhere else.
chan_to_field_lem :
    (chan : ℕ) (bf : Bitfield)
    → bf.length ≤ 16
    → bf.offset + bf.length ≤ 32
    → (chan_to_field chan bf / 2 ^ bf.offset ≡ chan % 2 ^ 16 / 2 ^ (16 - bf.length))
      × (chan_to_field chan bf % 2 ^ bf.offset ≡ 0)
      × (chan_to_field chan bf / 2 ^ bf.offset < 2 ^ bf.length)
unfolding chan_to_field
chan_to_field_lem chan bf narrow fits =
    let top = chan % 2 ^ 16 / 2 ^ (16 - bf.length) in
    let small : top < 2 ^ bf.length =
      shift_right-lt (16 - bf.length) bf.length 16 (chan % 2 ^ 16) (omega (arith, narrow))
        (omega arith) in
    let whole : u32 (top * 2 ^ bf.offset) ≡ top * 2 ^ bf.offset =
      mod-eq_of_lt (shift_left-lt 32 bf.offset bf.length top fits small) in
    let back : top * 2 ^ bf.offset / 2 ^ bf.offset ≡ top =
      mul-div_cancel top (pow_two-pos bf.offset) in
    rw whole (back, mul-mod_left top (2 ^ bf.offset), (rw back small))
