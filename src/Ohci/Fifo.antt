-- ===== src/Ohci/Fifo.antt =====
-- The order of the replies of linux/kernel/drivers/usb/host/usb-ohci.c.
use jornada.Common.{
  ℕ, zero, suc, ◌+◌, ◌≡◌, ◌≤◌, ◌<◌, Bool, true, false, not, ◌&&◌, List, [], ◌∷◌, if◌then◌else◌,
  ◌==◌, arith, Bool-cases, inl, inr, refl, ap, ◌∙◌, length,
}
use jornada.Ohci.Lists.{update}
use jornada.Ohci.Order.{NotIn, AreApart}
use jornada.Ohci.Done.{Td, Priv, Marks, lift_halt, reverse_loop, dl_reverse_done_list, done_urbs}

-- From `h` the links give the sequence, and then the null pointer.
abbrev pub Leads : (ℕ → ℕ) → ℕ → List ℕ → Type 0
Leads next h [] = h ≡ 0
Leads next h (x ∷ xs) = (h ≡ x) × ((x == 0) ≡ false) × Leads next (next x) xs

abbrev pub reverse_onto : List ℕ → List ℕ → List ℕ
reverse_onto [] acc = acc
reverse_onto (x ∷ xs) acc = reverse_onto xs (x ∷ acc)

Leads-update :
    (next : ℕ → ℕ) (h a v : ℕ) (xs : List ℕ)
    → NotIn a xs
    → Leads next h xs
    → Leads (update next a v) h xs
Leads-update next h a v [] out l = l
Leads-update next h a v (x ∷ xs) (ne, out) (e, nz, l) =
    (e, nz, rw ne (Leads-update next (next x) a v xs out l))

-- Two sequences have nothing in common.
abbrev Apart : List ℕ → List ℕ → Type 0
Apart [] ys = Unit {0}
Apart (x ∷ xs) ys = NotIn x ys × Apart xs ys

Apart-cons : (xs ys : List ℕ) (y : ℕ) → NotIn y xs → Apart xs ys → Apart xs (y ∷ ys)
Apart-cons [] ys y out h = tt
Apart-cons (x ∷ xs) ys y (ne, out) (n, h) = ((ground (arith, ne), n), Apart-cons xs ys y out h)

Apart-nil : (xs : List ℕ) → Apart xs []
Apart-nil [] = tt
Apart-nil (x ∷ xs) = (tt, Apart-nil xs)

module _ (td : ℕ → Td) (priv : ℕ → Priv) where
  lift_halt-next_dl : (t : Td) (m : Marks) → (lift_halt td priv t m).next_dl ≡ m.next_dl
  unfolding lift_halt
  lift_halt-next_dl t m = elim (Bool-cases (not (t.cc == 0) && (m.heads t.ed).halted)) [
    | inl e ↦ rw e refl
    | inr e ↦ rw e refl
  ]

  reverse_loop-Leads :
      (f td_list td_rev : ℕ) (m : Marks) (xs acc : List ℕ)
      → length xs < f
      → Leads (λ t. (td t).next_td) td_list xs
      → Leads m.next_dl td_rev acc
      → AreApart xs
      → Apart xs acc
      → let (head, m') = reverse_loop td priv f td_list td_rev m in
        Leads m'.next_dl head (reverse_onto xs acc)
  unfolding reverse_loop
  reverse_loop-Leads zero td_list td_rev m xs acc enough l r apart out = absurd (omega arith)
  reverse_loop-Leads (suc f) td_list td_rev m [] acc enough l r apart out =
      let done : (td_list == 0) ≡ true = ground (arith, l) in rw done r
  reverse_loop-Leads (suc f) td_list td_rev m (x ∷ xs) acc enough (e, nz, l) r (_, nx, apart)
        (out, rest) =
      let m' = lift_halt td priv (td x) m in
      let next = update m'.next_dl x td_rev in
      let self : (x == x) ≡ true = ground arith in
      let kept : Leads next td_rev acc =
        Leads-update m'.next_dl td_rev x td_rev acc out (rw (lift_halt-next_dl (td x) m) r) in
      let linked : Leads next x (x ∷ acc) = (refl, nz, rw self kept) in
      rw (e, nz)
        (reverse_loop-Leads f (td x).next_td x (record m' { next_dl = next }) xs (x ∷ acc)
          (omega arith) l linked apart (Apart-cons xs acc x nx rest))

-- From a done list of the controller without a TD that is there twice, with fuel for more turns than
-- it has TDs, the TD that `dl_reverse_done_list` answers leads through the links `next_dl_td` to the
-- same TDs in the opposite order, and then to the null pointer, whatever errors and halts there are
-- among them.
pub dl_reverse_done_list-Leads :
    (td : ℕ → Td) (priv : ℕ → Priv) (f done_head : ℕ) (m : Marks) (xs : List ℕ)
    → length xs < f
    → Leads (λ t. (td t).next_td) done_head xs
    → AreApart xs
    → let (head, m') = dl_reverse_done_list td priv f done_head m in
      Leads m'.next_dl head (reverse_onto xs [])
unfolding dl_reverse_done_list
dl_reverse_done_list-Leads td priv f done_head m xs enough l apart =
    reverse_loop-Leads td priv f done_head 0 m xs [] enough l refl apart (Apart-nil xs)

-- How many TDs of a list belong to a request, and how often a request is in a list.
abbrev pub tds_of : (ℕ → Td) → ℕ → List ℕ → ℕ
tds_of td u [] = 0
tds_of td u (t ∷ ts) = let rest = tds_of td u ts in if (td t).urb == u then rest + 1 else rest

abbrev pub count : ℕ → List ℕ → ℕ
count u [] = 0
count u (v ∷ vs) = let rest = count u vs in if v == u then rest + 1 else rest

-- Counting an answer that comes first, or does not.
count-first :
    (u v : ℕ) (finished : Bool) (vs : List ℕ)
    → count u (if finished then v ∷ vs else vs)
      ≡ (if finished && v == u then count u vs + 1 else count u vs)
count-first u v true vs = refl
count-first u v false vs = refl

done_urbs-none :
    (td : ℕ → Td) (priv : ℕ → Priv) (ts : List ℕ) (cnt : ℕ → ℕ) (u : ℕ)
    → tds_of td u ts ≡ 0
    → count u (done_urbs td priv ts cnt) ≡ 0
unfolding done_urbs
done_urbs-none td priv [] cnt u none' = refl
done_urbs-none td priv (t ∷ ts) cnt u none' =
    let v = (td t).urb in
    let cnt' = update cnt v (cnt v + 1) in
    let other : (v == u) ≡ false = ground (arith, none') in
    let rest : tds_of td u ts ≡ 0 = ground (arith, none') in
    let ih = done_urbs-none td priv ts cnt' u rest in
    count-first u v (cnt v + 1 == (priv v).td_length) (done_urbs td priv ts cnt')
    ∙ ground (arith, other, ih)

-- For an unfinished request with no more TDs in the done list than it waits for, the loop over the
-- list finds it finished once if they are all there, and not at all otherwise.
pub done_urbs-count :
    (td : ℕ → Td) (priv : ℕ → Priv) (ts : List ℕ) (cnt : ℕ → ℕ) (u : ℕ)
    → cnt u < (priv u).td_length
    → cnt u + tds_of td u ts ≤ (priv u).td_length
    → count u (done_urbs td priv ts cnt)
      ≡ (if cnt u + tds_of td u ts == (priv u).td_length then 1 else 0)
unfolding done_urbs
done_urbs-count td priv [] cnt u open' most = ground (arith, open')
done_urbs-count td priv (t ∷ ts) cnt u open' most =
    let v = (td t).urb in
    let cnt' = update cnt v (cnt v + 1) in
    let finished = cnt v + 1 == (priv v).td_length in
    let split = count-first u v finished (done_urbs td priv ts cnt') in
    elim (Bool-cases (v == u)) [
      | inr other ↦
          let apart : (u == v) ≡ false = ground (arith, other) in
          let same : cnt' u ≡ cnt u = rw apart refl in
          let few : cnt u + tds_of td u ts ≤ (priv u).td_length = ground (arith, most, other) in
          let ih =
            done_urbs-count td priv ts cnt' u (omega (arith, same, open'))
              (omega (arith, same, few)) in
          split ∙ ground (arith, other, ih, same)
      | inl own ↦
          let at_u : v ≡ u = ground (arith, own) in
          let from' : cnt v ≡ cnt u = ap cnt at_u in
          let bound : (priv v).td_length ≡ (priv u).td_length =
            ap (λ (x : ℕ). (priv x).td_length) at_u in
          let self : (u == v) ≡ true = ground (arith, own) in
          let one_more : cnt' u ≡ cnt u + 1 = rw self (ap (λ (n : ℕ). n + 1) from') in
          elim (Bool-cases finished) [
            | inl e ↦
                let rest : tds_of td u ts ≡ 0 = ground (arith, e, own, most, from', bound) in
                let none' = done_urbs-none td priv ts cnt' u rest in
                split ∙ ground (arith, e, own, none', rest, from', bound)
            | inr e ↦
                let ih =
                  done_urbs-count td priv ts cnt' u
                    (ground (arith, e, open', from', bound, one_more))
                    (ground (arith, own, most, one_more)) in
                split ∙ ground (arith, e, own, ih, one_more)
          ]
    ]
