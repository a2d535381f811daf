-- ===== src/Ohci/Loads.antt =====
-- The loads of the interrupt branches in linux/kernel/drivers/usb/host/usb-ohci.c.
use jornada.Common.{
  ℕ, zero, suc, ◌+◌, ◌-◌, ◌*◌, ◌%◌, ◌≡◌, ◌≢◌, ◌≤◌, ◌<◌, ◌⊎◌, Bool, true, false, ◌&&◌, List,
  if◌then◌else◌, ◌==◌, ltb, leb, set, length, arith, Bool-cases, inl, inr, refl, ap, ◌∙◌,
  length-set, get_or-set_self, get_or-set_ne, sym,
}
use jornada.Common.Int.{ℤ, pos, negsuc}
use jornada.Ohci.Schedule.{
  ep_2_n_interval, plus, minus, above, load_at, least_loop, least_branch, each_from,
  ep_int_ballance, give_back, ep_rev,
}
use native.Mathlib.Nat.{mod-eq_of_lt, mod-eq-sub-mod, mod-lt}

-- Whether branch `j` is one that a stride from `i` meets.
abbrev pub meets : (interval i j : ℕ) → Bool
meets interval i j = leb i j && ((j - i) % interval == 0)

length-each_from :
    (change : ℤ → ℤ) (f interval i : ℕ) (loads : List ℤ)
    → length (each_from change f interval i loads) ≡ length loads
unfolding each_from
length-each_from change zero interval i loads = refl
length-each_from change (suc f) interval i loads = elim (Bool-cases (ltb i 32)) [
  | inr e ↦ rw e refl
  | inl e ↦ rw e (
      length-each_from change f interval (i + interval) (set loads i (change (load_at loads i)))
      ∙ length-set loads i (change (load_at loads i)))
]

-- One step of a stride: a branch that it meets is the first, or one that the rest meets.
meets_step :
    (interval i j : ℕ) → 1 ≤ interval → i ≢ j → meets interval (i + interval) j ≡ meets interval i j
meets_step interval i j h ne = elim (Bool-cases (leb (i + interval) j)) [
  | inl far ↦
      let e : (j - (i + interval)) % interval ≡ (j - i) % interval =
        let cut = mod-eq-sub-mod {n = j - i} {m = interval} (ground (arith, far)) in
        let same : j - i - interval ≡ j - (i + interval) = omega arith in rw (← same) (sym cut) in
      rw e (ground (arith, far))
  | inr near ↦ elim (Bool-cases (ltb i j)) [
    | inl after ↦
        let small : (j - i) % interval ≡ j - i = mod-eq_of_lt (ground (arith, near, after)) in
        rw (near, small) (ground (arith, after))
    | inr before ↦ rw near (ground (arith, before))
  ]
]

meets_self : (interval i : ℕ) → 1 ≤ interval → meets interval i i ≡ true
meets_self interval i h =
    let none_left : i - i ≡ 0 = omega arith in
    let e : 0 % interval ≡ 0 = mod-eq_of_lt (omega arith) in rw (none_left, e) (ground arith)

-- A stride changes the branches that it meets, and no other.
each_from-load_at :
    (change : ℤ → ℤ) (f interval i j : ℕ) (loads : List ℤ)
    → 1 ≤ interval
    → length loads ≡ 32
    → j < 32
    → 32 ≤ i + f
    → load_at (each_from change f interval i loads) j
      ≡ (if meets interval i j then change (load_at loads j) else load_at loads j)
unfolding each_from
each_from-load_at change zero interval i j loads h len small enough = ground (arith, small, enough)
each_from-load_at change (suc f) interval i j loads h len small enough =
    let v = change (load_at loads i) in
    let loads' = set loads i v in
    elim (Bool-cases (ltb i 32)) [
      | inr e ↦ rw e (ground (arith, e, small))
      | inl e ↦
          let ih =
            each_from-load_at change f interval (i + interval) j loads' h
              (length-set loads i v ∙ len) small (omega arith) in
          elim (Bool-cases (i == j)) [
            | inl same ↦
                let at_j : i ≡ j = ground (arith, same) in
                let written : load_at loads' j ≡ v =
                  rw (← at_j) (get_or-set_self loads i v (pos 0) (omega (arith, len))) in
                let past : meets interval (i + interval) j ≡ false = ground (arith, at_j, h) in
                let met : meets interval i j ≡ true = rw (← at_j) (meets_self interval i h) in
                rw (e, ih, past, met, written) (ap (λ (n : ℕ). change (load_at loads n)) at_j)
            | inr other ↦
                let ne : i ≢ j = ground (arith, other) in
                let kept : load_at loads' j ≡ load_at loads j = get_or-set_ne loads v (pos 0) ne in
                rw (e, ih, meets_step interval i j h ne, kept) refl
          ]
    ]

minus-plus : (n : ℕ) (a : ℤ) → minus n (plus n a) ≡ a
minus-plus n (pos m) = ground arith
minus-plus n (negsuc m) = ground arith

above_trans : (a b c : ℤ) → above a b ≡ false → above b c ≡ false → above a c ≡ false
above_trans a b c h k = ground (arith, h, k)

above_irrefl : (a : ℤ) → above a a ≡ false
above_irrefl a = ground arith

-- The branch is no more loaded than those that were looked at.
least_loop-least :
    (loads : List ℤ) (i n branch : ℕ)
    → ((j : ℕ) → j < i → above (load_at loads branch) (load_at loads j) ≡ false)
    → (j : ℕ) → j < i + n
    → above (load_at loads (least_loop loads i n branch)) (load_at loads j) ≡ false
unfolding least_loop
least_loop-least loads i zero branch seen j h = seen j (omega arith)
least_loop-least loads i (suc n) branch seen j h =
    let better = above (load_at loads branch) (load_at loads i) in
    least_loop-least loads (i + 1) n (if better then i else branch)
      (λ k lt. elim (Bool-cases better) [
        | inl e ↦ rw e (elim (Bool-cases (k == i)) [
          | inl same ↦
              let at_i : k ≡ i = ground (arith, same) in rw at_i (above_irrefl (load_at loads i))
          | inr other ↦
              let old = seen k (ground (arith, other, lt)) in
              above_trans (load_at loads i) (load_at loads branch) (load_at loads k)
                (ground (arith, e)) old
        ])
        | inr e ↦ rw e (elim (Bool-cases (k == i)) [
          | inl same ↦ let at_i : k ≡ i = ground (arith, same) in rw at_i e
          | inr other ↦ seen k (ground (arith, other, lt))
        ])
      ])
      j (omega arith)

least_branch-least :
    (loads : List ℤ) (j : ℕ)
    → j < 32
    → above (load_at loads (least_branch loads)) (load_at loads j) ≡ false
unfolding least_branch
least_branch-least loads j h =
    least_loop-least loads 0 32 0 (λ k lt. absurd (omega arith)) j (omega arith)

-- For 32 loads and an interval of at least 1, the branch for an interrupt endpoint is below the
-- interval, its load is added to the branches that a stride of the interval meets from there and to
-- no other, and what `ep_unlink` gives back restores the load of each branch.
pub give_back-ep_int_ballance :
    (loads : List ℤ) (interval load j : ℕ)
    → 1 ≤ interval
    → length loads ≡ 32
    → j < 32
    → let (branch, loads') = ep_int_ballance loads interval load in
      (branch < interval)
      × (load_at loads' j
          ≡ (if meets interval branch j then plus load (load_at loads j) else load_at loads j))
      × (load_at (give_back loads' interval load branch) j ≡ load_at loads j)
unfolding ep_int_ballance give_back
give_back-ep_int_ballance loads interval load j h len small =
    let branch = least_branch loads % interval in
    let loads' = each_from (plus load) 32 interval branch loads in
    let there =
      each_from-load_at (plus load) 32 interval branch j loads h len small (omega arith) in
    let back =
      each_from-load_at (minus load) 32 interval branch j loads' h
        (length-each_from (plus load) 32 interval branch loads ∙ len) small (omega arith) in
    (
      mod-lt (least_branch loads) (omega arith),
      there,
      elim (Bool-cases (meets interval branch j)) [
        | inl e ↦ rw (back, there, e) (minus-plus load (load_at loads j))
        | inr e ↦ rw (back, there, e) refl
      ],
    )

-- The interval.
ep_2_n_interval_lem :
    (period : ℕ)
    → 1 ≤ period
    → let r = ep_2_n_interval period in
      (r ≤ period) × ((period < 2 * r) ⊎ (r ≡ 32)) × (32 % r ≡ 0) × (1 ≤ r)
unfolding ep_2_n_interval
ep_2_n_interval_lem period h = ground arith

-- A test holds from 0 up to a number.
abbrev holds_to : (ℕ → Bool) → ℕ → Bool
holds_to p zero = p 0
holds_to p (suc k) = if p (suc k) then holds_to p k else false

holds_to-at : (p : ℕ → Bool) (k x : ℕ) → holds_to p k ≡ true → x ≤ k → p x ≡ true
holds_to-at p zero x h le = let e : x ≡ 0 = omega arith in rw e h
holds_to-at p (suc k) x h le = elim (Bool-cases (p (suc k))) [
  | inr not_here ↦ absurd (ground (arith, h, not_here))
  | inl here ↦ elim (Bool-cases (x == suc k)) [
    | inl same ↦ let e : x ≡ suc k = ground (arith, same) in rw e here
    | inr other ↦ holds_to-at p k x (ground (arith, h, here)) (ground (arith, other, le))
  ]
]

-- A place that is turned round twice is itself again.
abbrev turns_back : ℕ → Bool
turns_back x = let place = ep_rev 5 x in leb place 31 && ep_rev 5 place == x

each_turns_back : holds_to turns_back 31 ≡ true
unfolding ep_rev
each_turns_back = refl

-- The places of the tree are a rearrangement that is its own inverse.
ep_rev-ep_rev : (x : ℕ) → x < 32 → (ep_rev 5 (ep_rev 5 x) ≡ x) × (ep_rev 5 x < 32)
ep_rev-ep_rev x h =
    let e = holds_to-at turns_back 31 x each_turns_back (omega arith) in
    (ground (arith, e), ground (arith, e))
