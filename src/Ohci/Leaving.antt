-- ===== src/Ohci/Leaving.antt =====
-- An endpoint that leaves a branch of the tree in linux/kernel/drivers/usb/host/usb-ohci.c.
use jornada.Common.{
  ℕ, zero, suc, ◌≡◌, ◌<◌, true, false, List, [], ◌∷◌, Option, none, some, if◌then◌else◌, ◌==◌, leb,
  arith, Bool-cases, inl, inr, refl, length, ◌∙◌, ap,
}
use jornada.Ohci.Order.{NotIn, AreApart}
use jornada.Ohci.Deletion.{Runs, Runs-update}
use jornada.Ohci.Branches.{Branch, pointed, point_to, enter_loop, leave_loop}
use jornada.Ohci.Entering.{
  entered, Outside, IsOther, Alike, Outside-rest, flipped, passed-pointed, passed-Alike,
  enter_loop-Runs, AreOrdered, entered-AreOrdered,
}
use mathlib.Core.Path.{subst}

-- The sequence without the endpoint.
abbrev pub left : (ed : ℕ) → List ℕ → List ℕ
left ed [] = []
left ed (x ∷ xs) = let rest = left ed xs in if x == ed then xs else x ∷ rest

module _ (ed : ℕ) where
  point_to-Runs :
      (at : Option ℕ) (v : ℕ) (b : Branch) (xs : List ℕ)
      → Outside at xs
      → Runs b.next v xs 0
      → Runs (point_to at v b).next (pointed at (point_to at v b)) xs 0
  point_to-Runs none v b xs out r = r
  point_to-Runs (some a) v b xs out r =
      let self : (a == a) ≡ true = ground arith in rw self (Runs-update b.next v a v 0 xs out r)

  point_to-Alike :
      (at : Option ℕ) (v : ℕ) (b : Branch) (xs : List ℕ) → Alike ed at xs b (point_to at v b)
  point_to-Alike none v b xs = λ y ne out. refl
  point_to-Alike (some a) v b xs = (refl, λ y na ne out. rw na refl)

  Alike-same : (at : Option ℕ) (xs : List ℕ) (b : Branch) → Alike ed at xs b b
  Alike-same none xs b = λ y ne out. refl
  Alike-same (some a) xs b = (refl, λ y na ne out. refl)

  leave_loop-end :
      (f : ℕ) (at : Option ℕ) (b : Branch) → pointed at b ≡ 0 → leave_loop ed (suc f) at b ≡ b
  unfolding leave_loop
  leave_loop-end f at b e = rw e refl

  leave_loop-found :
      (f : ℕ) (at : Option ℕ) (b : Branch) (x : ℕ)
      → pointed at b ≡ x
      → (x == 0) ≡ false
      → (x == ed) ≡ true
      → leave_loop ed (suc f) at b ≡ point_to at (b.next ed) b
  unfolding leave_loop
  leave_loop-found f at b x e nz found = rw (e, nz, found) refl

  leave_loop-passes :
      (f : ℕ) (at : Option ℕ) (b : Branch) (x : ℕ)
      → pointed at b ≡ x
      → (x == 0) ≡ false
      → (x == ed) ≡ false
      → leave_loop ed (suc f) at b ≡ leave_loop ed f (some x) b
  unfolding leave_loop
  leave_loop-passes f at b x e nz other = rw (e, nz, other) refl

  leave_loop-Runs :
      (f : ℕ) (at : Option ℕ) (b : Branch) (xs : List ℕ)
      → length xs < f
      → Runs b.next (pointed at b) xs 0
      → AreApart xs
      → IsOther ed at
      → Outside at xs
      → let b' = leave_loop ed f at b in
        Runs b'.next (pointed at b') (left ed xs) 0 × Alike ed at xs b b'
  leave_loop-Runs zero at b xs enough r apart other out = absurd (omega arith)
  leave_loop-Runs (suc f) at b [] enough r apart other out =
      rw (leave_loop-end f at b r) (r, Alike-same at [] b)
  leave_loop-Runs (suc f) at b (x ∷ xs) enough (e, nzx, r) (nz', nx, apart) other out =
      elim (Bool-cases (x == ed)) [
        | inl found ↦
            let same : ed ≡ x = ground (arith, found) in
            let after : Runs b.next (b.next ed) xs 0 = rw same r in
            rw (leave_loop-found f at b x e nzx found, found)
              (
                point_to-Runs at (b.next ed) b xs (Outside-rest at x xs out) after,
                point_to-Alike at (b.next ed) b (x ∷ xs),
              )
        | inr passes ↦
            let b' = leave_loop ed f (some x) b in
            let (runs, alike) =
              leave_loop-Runs f (some x) b xs (omega (arith, enough)) r apart passes nx in
            let same = passed-pointed (λ t. 0) ed 0 at x xs b b' other out alike in
            rw (leave_loop-passes f at b x e nzx passes, passes)
              ((same ∙ e, nzx, runs), passed-Alike (λ t. 0) ed 0 at x xs b b' alike)
      ]

-- The loop of `periodic_unlink` after that of `ep_link`, on one branch, restores the sequence.
left-entered :
    (int_interval : ℕ → ℕ) (ed interval : ℕ) (xs : List ℕ)
    → NotIn ed xs
    → left ed (entered int_interval ed interval xs) ≡ xs
left-entered int_interval ed interval [] out =
    let self : (ed == ed) ≡ true = ground arith in rw self refl
left-entered int_interval ed interval (x ∷ xs) (ne, out) =
    let self : (ed == ed) ≡ true = ground arith in
    elim (Bool-cases (leb interval (int_interval x))) [
      | inl e ↦
          rw (e, ne) (ap (λ (ys : List ℕ). x ∷ ys) (left-entered int_interval ed interval xs out))
      | inr e ↦ rw (e, self) refl
    ]

length-entered :
    (int_interval : ℕ → ℕ) (ed interval : ℕ) (xs : List ℕ)
    → length (entered int_interval ed interval xs) ≡ suc (length xs)
length-entered int_interval ed interval [] = refl
length-entered int_interval ed interval (x ∷ xs) =
    elim (Bool-cases (leb interval (int_interval x))) [
      | inl e ↦ rw e (ap suc (length-entered int_interval ed interval xs))
      | inr e ↦ rw e refl
    ]

NotIn-entered :
    (int_interval : ℕ → ℕ) (ed interval z : ℕ) (xs : List ℕ)
    → NotIn z xs
    → (ed == z) ≡ false
    → NotIn z (entered int_interval ed interval xs)
NotIn-entered int_interval ed interval z [] out ne = (ne, tt)
NotIn-entered int_interval ed interval z (x ∷ xs) (nx, out) ne =
    elim (Bool-cases (leb interval (int_interval x))) [
      | inl e ↦ rw e (nx, NotIn-entered int_interval ed interval z xs out ne)
      | inr e ↦ rw e (ne, (nx, out))
    ]

AreApart-entered :
    (int_interval : ℕ → ℕ) (ed interval : ℕ) (xs : List ℕ)
    → AreApart xs
    → (ed == 0) ≡ false
    → NotIn ed xs
    → AreApart (entered int_interval ed interval xs)
AreApart-entered int_interval ed interval [] apart nz out = (nz, tt, tt)
AreApart-entered int_interval ed interval (x ∷ xs) (nzx, nx, apart) nz (ne, out) =
    elim (Bool-cases (leb interval (int_interval x))) [
      | inl e ↦ rw e (
        nzx,
        NotIn-entered int_interval ed interval x xs nx (flipped x ed ne),
        AreApart-entered int_interval ed interval xs apart nz out,
      )
      | inr e ↦ rw e (nz, (ne, out), (nzx, nx, apart))
    ]

-- On a branch whose endpoints are not null, not there twice, and ordered by an interval that does
-- not grow, with fuel for more turns than it has endpoints, an endpoint that is not on it is entered
-- by the loop of `ep_link` behind those whose interval is not smaller, which keeps the order; the
-- loop of `periodic_unlink` then leads through the endpoints of before again.
pub leave_loop-enter_loop :
    (int_interval : ℕ → ℕ) (ed f f' : ℕ) (b : Branch) (xs : List ℕ)
    → length xs < f
    → suc (length xs) < f'
    → Runs b.next b.entry xs 0
    → AreApart xs
    → (ed == 0) ≡ false
    → NotIn ed xs
    → AreOrdered int_interval xs
    → let b' = enter_loop int_interval ed (int_interval ed) f none b in
      let b'' = leave_loop ed f' none b' in
      let xs' = entered int_interval ed (int_interval ed) xs in
      Runs b'.next b'.entry xs' 0 × AreOrdered int_interval xs' × Runs b''.next b''.entry xs 0
leave_loop-enter_loop int_interval ed f f' b xs enough enough' r apart nz ned ordered =
    let interval = int_interval ed in
    let xs' = entered int_interval ed interval xs in
    let b' = enter_loop int_interval ed interval f none b in
    let runs =
      (enter_loop-Runs int_interval ed interval f none b xs enough r apart nz tt tt ned).0 in
    let long : length xs' < f' = rw (length-entered int_interval ed interval xs) enough' in
    let apart' = AreApart-entered int_interval ed interval xs apart nz ned in
    let back = (leave_loop-Runs ed f' none b' xs' long runs apart' tt tt).0 in
    let b'' = leave_loop ed f' none b' in
    let same = left-entered int_interval ed interval xs ned in
    let restored : Runs b''.next b''.entry xs 0 =
      subst (λ (ys : List ℕ). Runs b''.next b''.entry ys 0) same back in
    (runs, entered-AreOrdered int_interval ed xs ordered, restored)
