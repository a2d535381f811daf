-- ===== src/Ohci/Entering.antt =====
-- An endpoint that enters a branch of the tree in linux/kernel/drivers/usb/host/usb-ohci.c.
use jornada.Common.{
  ℕ, zero, suc, ◌≡◌, ◌≤◌, ◌<◌, true, false, List, [], ◌∷◌, Option, none, some, if◌then◌else◌, ◌==◌,
  leb, arith, Bool-cases, inl, inr, refl, length, ◌∙◌,
}
use jornada.Ohci.Lists.{update}
use jornada.Ohci.Order.{NotIn, AreApart}
use jornada.Ohci.Deletion.{Runs, Runs-update}
use jornada.Ohci.Branches.{Branch, pointed, put_at, enter_loop}

-- The sequence with the endpoint entered, and without it.
abbrev pub entered : (int_interval : ℕ → ℕ) (ed interval : ℕ) → List ℕ → List ℕ
entered int_interval ed interval [] = ed ∷ []
entered int_interval ed interval (x ∷ xs) =
    let rest = entered int_interval ed interval xs in
    if leb interval (int_interval x) then x ∷ rest else ed ∷ x ∷ xs

abbrev pub Outside : Option ℕ → List ℕ → Type 0
Outside none xs = Unit {0}
Outside (some a) xs = NotIn a xs

-- The place is not the endpoint.
abbrev pub IsOther : ℕ → Option ℕ → Type 0
IsOther ed none = Unit {0}
IsOther ed (some a) = (a == ed) ≡ false

pub Outside-rest : (at : Option ℕ) (x : ℕ) (xs : List ℕ) → Outside at (x ∷ xs) → Outside at xs
Outside-rest none x xs out = tt
Outside-rest (some a) x xs (_, out) = out

-- The links but those of the place, of the endpoint and of the sequence are the same, and the entry unless it is the
-- place.
abbrev pub Alike : ℕ → Option ℕ → List ℕ → Branch → Branch → Type 0
Alike ed none xs b b' = (y : ℕ) → (y == ed) ≡ false → NotIn y xs → b'.next y ≡ b.next y
Alike ed (some a) xs b b' =
    (b'.entry ≡ b.entry)
    × ((y : ℕ) → (y == a) ≡ false → (y == ed) ≡ false → NotIn y xs → b'.next y ≡ b.next y)

pub flipped : (x y : ℕ) → (x == y) ≡ false → (y == x) ≡ false
flipped x y h = ground (arith, h)

put_at-Alike :
    (ed : ℕ) (at : Option ℕ) (xs : List ℕ) (b : Branch) → Alike ed at xs b (put_at ed at b)
unfolding put_at
put_at-Alike ed none xs b = λ y ne out. rw ne refl
put_at-Alike ed (some a) xs b = (refl, λ y na ne out. rw (na, ne) refl)

-- The endpoint stands before the sequence.
put_at-Runs :
    (ed : ℕ) (at : Option ℕ) (xs : List ℕ) (b : Branch)
    → (ed == 0) ≡ false
    → IsOther ed at
    → Outside at xs
    → NotIn ed xs
    → Runs b.next (pointed at b) xs 0
    → Runs (put_at ed at b).next (pointed at (put_at ed at b)) (ed ∷ xs) 0
unfolding put_at
put_at-Runs ed none xs b nz other out ned r =
    let self : (ed == ed) ≡ true = ground arith in
    (refl, nz, rw self (Runs-update b.next b.entry ed b.entry 0 xs ned r))
put_at-Runs ed (some a) xs b nz other out ned r =
    let self : (ed == ed) ≡ true = ground arith in
    let self_a : (a == a) ≡ true = ground arith in
    let next = update b.next ed (b.next a) in
    let inner = Runs-update b.next (b.next a) ed (b.next a) 0 xs ned r in
    let outer = Runs-update next (b.next a) a ed 0 xs out inner in
    rw self_a (refl, nz, rw (flipped a ed other, self) outer)

module _ (int_interval : ℕ → ℕ) (ed interval : ℕ) where
  -- An endpoint that the loop passes.
  pub passed-pointed :
      (at : Option ℕ) (x : ℕ) (xs : List ℕ) (b b' : Branch)
      → IsOther ed at
      → Outside at (x ∷ xs)
      → Alike ed (some x) xs b b'
      → pointed at b' ≡ pointed at b
  passed-pointed none x xs b b' other out (entry, _) = entry
  passed-pointed (some a) x xs b b' other (na, out) (_, links) = links a (flipped x a na) other out

  pub passed-Alike :
      (at : Option ℕ) (x : ℕ) (xs : List ℕ) (b b' : Branch)
      → Alike ed (some x) xs b b'
      → Alike ed at (x ∷ xs) b b'
  passed-Alike none x xs b b' (_, links) = λ y ne (nx, out). links y (flipped x y nx) ne out
  passed-Alike (some a) x xs b b' (entry, links) =
      (entry, λ y _ ne (nx, out). links y (flipped x y nx) ne out)

  enter_loop-passes :
      (f : ℕ) (at : Option ℕ) (b : Branch) (x : ℕ)
      → pointed at b ≡ x
      → (x == 0) ≡ false
      → leb interval (int_interval x) ≡ true
      → enter_loop int_interval ed interval (suc f) at b
        ≡ enter_loop int_interval ed interval f (some x) b
  unfolding enter_loop
  enter_loop-passes f at b x e nz passes = rw (e, nz, passes) refl

  enter_loop-stops :
      (f : ℕ) (at : Option ℕ) (b : Branch) (x : ℕ)
      → pointed at b ≡ x
      → (x == 0) ≡ false
      → leb interval (int_interval x) ≡ false
      → enter_loop int_interval ed interval (suc f) at b ≡ put_at ed at b
  unfolding enter_loop
  enter_loop-stops f at b x e nz stops = rw (e, nz, stops) refl

  enter_loop-end :
      (f : ℕ) (at : Option ℕ) (b : Branch)
      → pointed at b ≡ 0
      → enter_loop int_interval ed interval (suc f) at b ≡ put_at ed at b
  unfolding enter_loop
  enter_loop-end f at b e = rw e refl

  pub enter_loop-Runs :
      (f : ℕ) (at : Option ℕ) (b : Branch) (xs : List ℕ)
      → length xs < f
      → Runs b.next (pointed at b) xs 0
      → AreApart xs
      → (ed == 0) ≡ false
      → IsOther ed at
      → Outside at xs
      → NotIn ed xs
      → let b' = enter_loop int_interval ed interval f at b in
        Runs b'.next (pointed at b') (entered int_interval ed interval xs) 0 × Alike ed at xs b b'
  enter_loop-Runs zero at b xs enough r apart nz other out ned = absurd (omega arith)
  enter_loop-Runs (suc f) at b [] enough r apart nz other out ned =
      rw (enter_loop-end f at b r)
        (put_at-Runs ed at [] b nz other out ned r, put_at-Alike ed at [] b)
  enter_loop-Runs (suc f) at b (x ∷ xs) enough (e, nzx, r) (nz', nx, apart) nz other out
        (nex, ned) =
      elim (Bool-cases (leb interval (int_interval x))) [
        | inl passes ↦
            let b' = enter_loop int_interval ed interval f (some x) b in
            let (runs, alike) =
              enter_loop-Runs f (some x) b xs (omega (arith, enough)) r apart nz nex nx ned in
            let same = passed-pointed at x xs b b' other out alike in
            let next : enter_loop int_interval ed interval (suc f) at b ≡ b' =
              enter_loop-passes f at b x e nzx passes in
            rw (next, passes) ((same ∙ e, nzx, runs), passed-Alike at x xs b b' alike)
        | inr stops ↦
            rw (enter_loop-stops f at b x e nzx stops, stops)
              (
                put_at-Runs ed at (x ∷ xs) b nz other out (nex, ned) (e, nzx, r),
                put_at-Alike ed at (x ∷ xs) b,
              )
      ]

-- The intervals of the endpoints do not grow along the sequence.
abbrev pub AreOrdered : (ℕ → ℕ) → List ℕ → Type 0
AreOrdered int_interval [] = Unit {0}
AreOrdered int_interval (x ∷ []) = Unit {0}
AreOrdered int_interval (x ∷ y ∷ xs) =
    (int_interval y ≤ int_interval x) × AreOrdered int_interval (y ∷ xs)

pub entered-AreOrdered :
    (int_interval : ℕ → ℕ) (ed : ℕ) (xs : List ℕ)
    → AreOrdered int_interval xs
    → AreOrdered int_interval (entered int_interval ed (int_interval ed) xs)
entered-AreOrdered int_interval ed [] h = tt
entered-AreOrdered int_interval ed (x ∷ []) h =
    elim (Bool-cases (leb (int_interval ed) (int_interval x))) [
      | inl e ↦ rw e (ground (arith, e), tt)
      | inr e ↦ rw e (ground (arith, e), tt)
    ]
entered-AreOrdered int_interval ed (x ∷ y ∷ xs) (le, h) =
    elim (Bool-cases (leb (int_interval ed) (int_interval x))) [
      | inr e ↦ rw e (ground (arith, e), (le, h))
      | inl e ↦
          let ih = entered-AreOrdered int_interval ed (y ∷ xs) h in
          elim (Bool-cases (leb (int_interval ed) (int_interval y))) [
            | inl e' ↦
                let tail = entered int_interval ed (int_interval ed) xs in
                let same : entered int_interval ed (int_interval ed) (y ∷ xs) ≡ y ∷ tail =
                  rw e' refl in
                let rest : AreOrdered int_interval (y ∷ tail) = rw (← same) ih in
                rw (e, e') (le, rest)
            | inr e' ↦
                let here : AreOrdered int_interval (x ∷ ed ∷ y ∷ xs) =
                  (ground (arith, e), (ground (arith, e'), h)) in
                rw (e, e') here
          ]
    ]
