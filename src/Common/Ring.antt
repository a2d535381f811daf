-- ===== src/Common/Ring.antt =====
-- A ring of items in a buffer of `2 ^ k` places, as the drivers keep their bytes: the step that a mask
-- makes, and the items that wait between two indices.
use jornada.Common.{
  ℕ, zero, suc, ◌+◌, ◌-◌, ◌^◌, ◌%◌, ◌≤◌, ◌<◌, ◌≡◌, ◌⊎◌, List, [], ◌∷◌, ◌++◌, if◌then◌else◌, ◌==◌,
  leb, get_or, set, length, get_or-set_ne, get_or-set_self, arith, Bool-cases, inl, inr, refl, ap,
  ==_iff, true, false,
}
use jornada.Common.Bits.{land, land-low_mask}
use native.Mathlib.Nat.{mod-eq_of_lt, mod_self}

-- `(i + 1) & (2 ^ k - 1)`, on words of 32 bits.
unfoldable pub next : ℕ → ℕ → ℕ
next k i = land 32 (i + 1) (2 ^ k - 1)

next_mod : (k i : ℕ) → k ≤ 32 → next k i ≡ (i + 1) % 2 ^ k
unfolding next
next_mod k i h = land-low_mask 32 k (i + 1) h

-- The index moves on by one, and from the end of the buffer to its start.
pub next_lem :
    (k i : ℕ)
    → k ≤ 32
    → i < 2 ^ k
    → ((i + 1 ≡ 2 ^ k) × (next k i ≡ 0)) ⊎ ((i + 1 < 2 ^ k) × (next k i ≡ i + 1))
next_lem k i h lt = elim (Bool-cases (i + 1 == 2 ^ k)) [
  | inl e ↦
      let at_end = (==_iff (i + 1) (2 ^ k)).0 e in
      inl (at_end, rw (next_mod k i h, at_end) (mod_self (2 ^ k)))
  | inr e ↦
      let inside : i + 1 < 2 ^ k = ground arith in
      inr (inside, rw (next_mod k i h) (mod-eq_of_lt inside))
]

-- The `n` items of the buffer from index `t` on, round the end of the buffer.
unfoldable pub contents : ℕ → List ℕ → ℕ → ℕ → List ℕ
contents k buf t zero = []
contents k buf t (suc n) = get_or buf t 0 ∷ contents k buf (next k t) n

pub length-contents : (k : ℕ) (buf : List ℕ) (t n : ℕ) → length (contents k buf t n) ≡ n
unfolding contents
length-contents k buf t zero = refl
length-contents k buf t (suc n) = ap suc (length-contents k buf (next k t) n)

-- How many steps lead from index `t` to index `h`.
abbrev pub between : ℕ → ℕ → ℕ → ℕ
between k t h = if leb t h then h - t else h + 2 ^ k - t

-- `n` steps on from index `t` is index `h`.
abbrev pub Reaches : ℕ → ℕ → ℕ → ℕ → Type 0
Reaches m t n h = (h ≡ t + n) ⊎ (h + m ≡ t + n)

-- Bytes that wait before index `h` do not change when the buffer is written at `h`, and the byte
-- that is written is the one after them.
pub contents-set :
    (k : ℕ) (buf : List ℕ) (t n h c : ℕ)
    → k ≤ 32
    → length buf ≡ 2 ^ k
    → t < 2 ^ k
    → h < 2 ^ k
    → n < 2 ^ k
    → Reaches (2 ^ k) t n h
    → (contents k (set buf h c) t n ≡ contents k buf t n)
      × (contents k (set buf h c) t (suc n) ≡ contents k buf t n ++ (c ∷ []))
unfolding contents
contents-set k buf t zero h c le len tl hl nl r =
    let same : t ≡ h = omega (arith, r) in
    (refl, ap (λ (b : ℕ). b ∷ []) (rw same (get_or-set_self buf h c 0 (omega (arith, len)))))
contents-set k buf t (suc n) h c le len tl hl nl r =
    let apart : get_or (set buf h c) t 0 ≡ get_or buf t 0 =
      get_or-set_ne buf c 0 (λ e. omega (arith, r, e)) in
    let step = next_lem k t le tl in
    let (old, new) =
      contents-set k buf (next k t) n h c le len (omega (arith, step)) hl (omega arith)
        (ground (arith, step, r)) in
    (rw (apart, old) refl, rw apart (ap (λ bs. get_or buf t 0 ∷ bs) new))

pub between-lt : (k t h : ℕ) → t < 2 ^ k → h < 2 ^ k → between k t h < 2 ^ k
between-lt k t h tl hl = ground (arith, tl, hl)

pub between-Reaches : (k t h : ℕ) → t < 2 ^ k → Reaches (2 ^ k) t (between k t h) h
between-Reaches k t h tl = ground (arith, tl)

-- Where the step from `h` leads to `t`, the ring has no room.
pub between-full :
    (k t h : ℕ)
    → k ≤ 32
    → t < 2 ^ k
    → h < 2 ^ k
    → (next k h == t) ≡ true
    → between k t h + 1 ≡ 2 ^ k
between-full k t h le tl hl e = let step = next_lem k h le hl in ground (arith, step, hl, tl, e)

pub between-room :
    (k t h : ℕ)
    → k ≤ 32
    → t < 2 ^ k
    → h < 2 ^ k
    → (next k h == t) ≡ false
    → (between k t h + 1 < 2 ^ k)
      × (next k h < 2 ^ k)
      × (between k t (next k h) ≡ suc (between k t h))
between-room k t h le tl hl e = let step = next_lem k h le hl in ground (arith, step, hl, tl, e)

-- A step from the back makes the ring one shorter.
pub between-step :
    (k t h : ℕ)
    → k ≤ 32
    → t < 2 ^ k
    → h < 2 ^ k
    → (h == t) ≡ false
    → (next k t < 2 ^ k) × (between k t h ≡ suc (between k (next k t) h))
between-step k t h le tl hl e = let step = next_lem k t le tl in ground (arith, step, hl, tl, e)

pub between-empty : (k t h : ℕ) → (h == t) ≡ true → between k t h ≡ 0
between-empty k t h e = ground (arith, e)
