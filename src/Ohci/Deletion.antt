-- ===== src/Ohci/Deletion.antt =====
-- The TDs that `dl_del_list` of linux/kernel/drivers/usb/host/usb-ohci.c takes out of the queue of one endpoint,
-- and what it does with the endpoint then.
use jornada.Common.{
  ℕ, zero, suc, ◌≡◌, Bool, false, ◌&&◌, ◌||◌, List, [], ◌∷◌, Option, none, some, if◌then◌else◌,
  ◌==◌,
}
use jornada.Common.Bits.{bit, clear_bit}
use jornada.Ohci.Lists.{update}
use jornada.Ohci.Order.{NotIn}
use jornada.Ohci.Done.{Td, Priv, count_td}

-- The head of the endpoint's queue, the links `hwNextTD` of the TDs, and the counts of finished TDs.
pub record Work : Type 0 where
  pub head : ℕ
  pub next : ℕ → ℕ
  pub td_cnt : ℕ → ℕ

-- `*td_p`: the head, or the link of a TD.
abbrev pub slot : Option ℕ → Work → ℕ
slot none w = w.head
slot (some a) w = w.next a

abbrev pub write : Option ℕ → ℕ → Work → Work
write none v w = record w { head = v }
write (some a) v w = record w { next = update w.next a v }

module _ (td : ℕ → Td) (priv : ℕ → Priv) (ed_deleted : Bool) where
  -- The request is URB_DEL, or the endpoint ED_DEL.
  abbrev pub is_deleted : ℕ → Bool
  is_deleted t = (priv (td t).urb).deleted || ed_deleted

  -- The loop over the TDs from `t` up to the dummy, where `at` is `td_p`. Answers the requests that it finds finished,
  -- in order.
  unfoldable pub del_loop : ℕ → (t tail : ℕ) → Option ℕ → Work → List ℕ × Work
  unfolding count_td
  del_loop zero t tail at w = ([], w)
  del_loop (suc f) t tail at w =
      let gone = is_deleted t in
      let (cnt, finished) = count_td td priv t w.td_cnt in
      let (done, w') =
        del_loop f (w.next t) tail (if gone then at else some t)
          (if gone then record (write at (w.next t) w) { td_cnt = cnt } else w) in
      if t == tail then ([], w) else (if gone && finished then (td t).urb ∷ done else done, w')

  -- The loop for the whole queue.
  unfoldable pub dl_del_tds : (fuel tail : ℕ) → Work → List ℕ × Work
  unfolding del_loop
  dl_del_tds fuel tail w = del_loop fuel w.head tail none w

-- What becomes of the endpoint: it is removed; it is unlinked; nothing; or its TDs go on.
pub data Fate : Type 0 where
  removed : Fate
  unlinked : Fate
  left_empty : Fate
  going_on : Fate

-- For the state of the endpoint, where bit 2 is ED_DEL, bit 3 ED_URB_DEL, and 2 is ED_OPER.
unfoldable pub fate : (state head tail : ℕ) → Fate
fate state head tail =
    if bit state 2
    then removed
    else if head == tail
    then (if clear_bit state 3 == 2 then unlinked else left_empty)
    else going_on

-- One turn of `dl_del_list`, for an endpoint with its state.
unfoldable pub dl_del_ed :
    (ℕ → Td) → (ℕ → Priv) → (state fuel tail : ℕ) → Work → (List ℕ × Work) × Fate
unfolding dl_del_tds fate
dl_del_ed td priv state fuel tail w =
    let (done, w') = dl_del_tds td priv (bit state 2) fuel tail w in
    ((done, w'), fate state w'.head tail)

-- From `h` the links lead through the sequence to the dummy.
abbrev pub Runs : (ℕ → ℕ) → ℕ → List ℕ → ℕ → Type 0
Runs next h [] tail = h ≡ tail
Runs next h (x ∷ xs) tail = (h ≡ x) × ((x == tail) ≡ false) × Runs next (next x) xs tail

abbrev pub filter : (ℕ → Bool) → List ℕ → List ℕ
filter p [] = []
filter p (x ∷ xs) = let rest = filter p xs in if p x then x ∷ rest else rest

-- The place that is written stands outside the sequence.
abbrev pub Outside : Option ℕ → List ℕ → Type 0
Outside none xs = Unit {0}
Outside (some a) xs = NotIn a xs

pub Runs-update :
    (next : ℕ → ℕ) (h a v tail : ℕ) (xs : List ℕ)
    → NotIn a xs
    → Runs next h xs tail
    → Runs (update next a v) h xs tail
Runs-update next h a v tail [] out r = r
Runs-update next h a v tail (x ∷ xs) (ne, out) (e, nz, r) =
    (e, nz, rw ne (Runs-update next (next x) a v tail xs out r))

-- Two states have the same links but at the place and in the sequence, and the same head unless it is the place.
abbrev pub Alike : Option ℕ → List ℕ → Work → Work → Type 0
Alike none xs w w' = (y : ℕ) → NotIn y xs → w'.next y ≡ w.next y
Alike (some a) xs w w' =
    (w'.head ≡ w.head) × ((y : ℕ) → (y == a) ≡ false → NotIn y xs → w'.next y ≡ w.next y)
