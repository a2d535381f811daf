-- ===== src/Ohci/Done.antt =====
-- The done list of linux/kernel/drivers/usb/host/usb-ohci.c: `dl_reverse_done_list`, and the count of
-- `dl_done_list`. A TD is its address, 0 is the null pointer, and the low four bits of a link are masked
-- off by the caller's view of it.
use jornada.Common.{
  ℕ, zero, suc, ◌+◌, ◌-◌, Bool, false, not, ◌&&◌, List, [], ◌∷◌, if◌then◌else◌, ◌==◌, ltb,
}
use jornada.Ohci.Lists.{update}

-- What the controller and `td_fill` wrote into a TD.
pub record Td : Type 0 where
  pub next_td : ℕ
  pub cc : ℕ
  pub ed : ℕ
  pub urb : ℕ
  pub index : ℕ

-- The fields of `urb_priv_t`, for a request that is still there: the number of its TDs, the link of the last of them,
-- and whether it is being deleted.
pub record Priv : Type 0 where
  pub td_length : ℕ
  pub last_next : ℕ
  pub deleted : Bool

-- `hwHeadP` of an endpoint: the TD at its head, with the bits that say that it is halted and what it carries.
pub record Head : Type 0 where
  pub td : ℕ
  pub halted : Bool
  pub carry : Bool

-- What the reversal changes: the links `next_dl_td`, the heads of the endpoints, and the counts of finished TDs.
pub record Marks : Type 0 where
  pub next_dl : ℕ → ℕ
  pub heads : ℕ → Head
  pub td_cnt : ℕ → ℕ

module _ (td : ℕ → Td) (priv : ℕ → Priv) where
  -- A TD with an error: the halt of its endpoint is lifted, past the rest of the request's TDs.
  unfoldable pub lift_halt : Td → Marks → Marks
  lift_halt t m =
      let p = priv t.urb in
      let head = m.heads t.ed in
      let skips = ltb (t.index + 1) p.td_length in
      let lifted : Head =
        if skips
        then record { td = p.last_next; halted = false; carry = head.carry }
        else record head { halted = false } in
      let cnt =
        if skips
        then update m.td_cnt t.urb (m.td_cnt t.urb + p.td_length - t.index - 1)
        else m.td_cnt in
      if not (t.cc == 0) && head.halted
      then record m { heads = update m.heads t.ed lifted; td_cnt = cnt }
      else m

  -- The loop, from the TD `td_list` on; `td_rev` is the head of the list that is built, and `f` bounds the turns.
  unfoldable pub reverse_loop : ℕ → (td_list td_rev : ℕ) → Marks → ℕ × Marks
  unfolding lift_halt
  reverse_loop zero td_list td_rev m = (td_rev, m)
  reverse_loop (suc f) td_list td_rev m =
      let m' = lift_halt (td td_list) m in
      let rest =
        reverse_loop f ((td td_list).next_td) td_list
          (record m' { next_dl = update m'.next_dl td_list td_rev }) in
      if td_list == 0 then (td_rev, m) else rest

  -- The answer is the last TD of the loop, which is the head of the list that it built.
  unfoldable pub dl_reverse_done_list : (fuel done_head : ℕ) → Marks → ℕ × Marks
  unfolding reverse_loop
  dl_reverse_done_list fuel done_head m = reverse_loop fuel done_head 0 m

  -- One TD of `dl_done_list`: the count of its request, and whether the request is finished by it.
  unfoldable pub count_td : ℕ → (ℕ → ℕ) → (ℕ → ℕ) × Bool
  count_td t cnt =
      let urb = (td t).urb in let n = cnt urb + 1 in (update cnt urb n, n == (priv urb).td_length)

  -- The requests that are finished, in order, for the TDs of the list. A finished request is not counted on: it is
  -- given back by `sohci_return_urb` or `dl_del_urb`.
  unfoldable pub done_urbs : List ℕ → (ℕ → ℕ) → List ℕ
  unfolding count_td
  done_urbs [] cnt = []
  done_urbs (t ∷ ts) cnt =
      let (cnt', finished) = count_td t cnt in
      let rest = done_urbs ts cnt' in if finished then (td t).urb ∷ rest else rest
