-- ===== src/Ohci/Cleared.antt =====
-- What `dl_del_list` of linux/kernel/drivers/usb/host/usb-ohci.c leaves in the queue of an endpoint.
use jornada.Common.{
  ℕ, zero, suc, ◌≡◌, ◌<◌, Bool, true, false, not, List, [], ◌∷◌, Option, none, some, if◌then◌else◌,
  ◌==◌, arith, Bool-cases, inl, inr, refl, length, ◌∙◌,
}
use jornada.Common.Bits.{bit, clear_bit}
use jornada.Ohci.Order.{AreApart}
use jornada.Ohci.Done.{Td, Priv, count_td, done_urbs}
use jornada.Ohci.Deletion.{
  removed, unlinked, left_empty, going_on, fate, dl_del_ed, Work, slot, write, is_deleted, del_loop,
  dl_del_tds, Runs, filter, Outside, Runs-update, Alike,
}

flip_ne : (x y : ℕ) → (x == y) ≡ false → (y == x) ≡ false
flip_ne x y h = ground (arith, h)

slot-write :
    (at : Option ℕ) (v : ℕ) (cnt : ℕ → ℕ) (w : Work)
    → slot at (record (write at v w) { td_cnt = cnt }) ≡ v
slot-write none v cnt w = refl
slot-write (some a) v cnt w = let self : (a == a) ≡ true = ground arith in rw self refl

Outside-rest : (at : Option ℕ) (x : ℕ) (xs : List ℕ) → Outside at (x ∷ xs) → Outside at xs
Outside-rest none x xs out = tt
Outside-rest (some a) x xs (_, out) = out

write_kept :
    (at : Option ℕ) (v : ℕ) (cnt : ℕ → ℕ) (w : Work) (xs : List ℕ) (tail x : ℕ)
    → Outside at (x ∷ xs)
    → Runs w.next v xs tail
    → Runs (record (write at v w) { td_cnt = cnt }).next v xs tail
write_kept none v cnt w xs tail x out r = r
write_kept (some a) v cnt w xs tail x (_, out) r = Runs-update w.next v a v tail xs out r

module _ (td : ℕ → Td) (priv : ℕ → Priv) (ed_deleted : Bool) (tail : ℕ) where
  abbrev gone : ℕ → Bool
  gone = is_deleted td priv ed_deleted

  -- What the loop leaves from a place on: the TDs that are not deleted, in order, up to the dummy, all other links,
  -- and the requests whose last TD it took out.
  pub record Did (at : Option ℕ) (xs : List ℕ) (w : Work) (done : List ℕ) (w' : Work) : Type 0 where
    pub queue : Runs w'.next (slot at w') (filter (λ t. not (gone t)) xs) tail
    pub alike : Alike at xs w w'
    pub finished : done ≡ done_urbs td priv (filter gone xs) w.td_cnt

  Alike-same : (at : Option ℕ) (xs : List ℕ) (w : Work) → Alike at xs w w
  Alike-same none xs w = λ y out. refl
  Alike-same (some a) xs w = (refl, λ y ne out. refl)

  -- A TD that stays.
  kept-slot :
      (at : Option ℕ) (x : ℕ) (xs : List ℕ) (w w' : Work)
      → Outside at (x ∷ xs)
      → Alike (some x) xs w w'
      → slot at w' ≡ slot at w
  kept-slot none x xs w w' out (head, _) = head
  kept-slot (some a) x xs w w' (ne, out) (_, links) = links a (flip_ne x a ne) out

  kept-Alike :
      (at : Option ℕ) (x : ℕ) (xs : List ℕ) (w w' : Work)
      → Alike (some x) xs w w'
      → Alike at (x ∷ xs) w w'
  kept-Alike none x xs w w' (_, links) = λ y (ne, out). links y (flip_ne x y ne) out
  kept-Alike (some a) x xs w w' (head, links) =
      (head, λ y _ (ne, out). links y (flip_ne x y ne) out)

  -- A TD that goes.
  gone-Alike :
      (at : Option ℕ) (v : ℕ) (cnt : ℕ → ℕ) (x : ℕ) (xs : List ℕ) (w w' : Work)
      → Alike at xs (record (write at v w) { td_cnt = cnt }) w'
      → Alike at (x ∷ xs) w w'
  gone-Alike none v cnt x xs w w' links = λ y (_, out). links y out
  gone-Alike (some a) v cnt x xs w w' (head, links) =
      (head, λ y ne (_, out). links y ne out ∙ (rw ne refl))

  kept-Did :
      (at : Option ℕ) (x : ℕ) (xs : List ℕ) (w : Work) (done : List ℕ) (w' : Work)
      → gone x ≡ false
      → slot at w ≡ x
      → (x == tail) ≡ false
      → Outside at (x ∷ xs)
      → Did (some x) xs w done w'
      → Did at (x ∷ xs) w done w'
  kept-Did at x xs w done w' stays here ne out d = record {
    queue = rw stays (kept-slot at x xs w w' out d.alike ∙ here, ne, d.queue);
    alike = kept-Alike at x xs w w' d.alike;
    finished = rw stays d.finished;
  }

  gone-Did :
      (at : Option ℕ) (x : ℕ) (xs : List ℕ) (w : Work) (done : List ℕ) (w' : Work)
      → gone x ≡ true
      → let (cnt, finished) = count_td td priv x w.td_cnt in
        Did at xs (record (write at (w.next x) w) { td_cnt = cnt }) done w'
        → Did at (x ∷ xs) w (if finished then (td x).urb ∷ done else done) w'
  unfolding done_urbs count_td
  gone-Did at x xs w done w' goes d = record {
    queue = rw goes d.queue;
    alike = gone-Alike at (w.next x) (count_td td priv x w.td_cnt).0 x xs w w' d.alike;
    finished = rw (goes, d.finished) refl;
  }

  -- The loop, with enough fuel.
  del_loop-Did :
      (f : ℕ) (t : ℕ) (at : Option ℕ) (w : Work) (xs : List ℕ)
      → length xs < f
      → slot at w ≡ t
      → Runs w.next t xs tail
      → AreApart xs
      → Outside at xs
      → let (done, w') = del_loop td priv ed_deleted f t tail at w in Did at xs w done w'
  unfolding del_loop done_urbs
  del_loop-Did zero t at w xs enough here r apart out = absurd (omega arith)
  del_loop-Did (suc f) t at w [] enough here r apart out =
      let end : (t == tail) ≡ true = ground (arith, r) in
      rw end (record { queue = here ∙ r; alike = Alike-same at [] w; finished = refl })
  del_loop-Did (suc f) t at w (x ∷ xs) enough here (e, ne, r) (_, nx, apart) out =
      elim (Bool-cases (gone x)) [
        | inr stays ↦
            let ih =
              del_loop-Did f (w.next x) (some x) w xs (omega (arith, enough)) refl r apart nx in
            rw (e, ne, stays) (kept-Did at x xs w _ _ stays (here ∙ e) ne out ih)
        | inl goes ↦
            let cnt = (count_td td priv x w.td_cnt).0 in
            let w1 : Work = record (write at (w.next x) w) { td_cnt = cnt } in
            let ih =
              del_loop-Did f (w.next x) at w1 xs (omega (arith, enough))
                (slot-write at (w.next x) cnt w) (write_kept at (w.next x) cnt w xs tail x out r)
                apart (Outside-rest at x xs out) in
            rw (e, ne, goes) (gone-Did at x xs w _ _ goes ih)
      ]

dl_del_tds-Did :
    (td : ℕ → Td) (priv : ℕ → Priv) (ed_deleted : Bool) (f tail : ℕ) (w : Work) (xs : List ℕ)
    → length xs < f
    → Runs w.next w.head xs tail
    → AreApart xs
    → let (done, w') = dl_del_tds td priv ed_deleted f tail w in
      Did td priv ed_deleted tail none xs w done w'
unfolding dl_del_tds
dl_del_tds-Did td priv ed_deleted f tail w xs enough r apart =
    del_loop-Did td priv ed_deleted tail f w.head none w xs enough refl r apart tt

abbrev pub is_empty : List ℕ → Bool
is_empty [] = true
is_empty (x ∷ xs) = false

head-is_empty :
    (next : ℕ → ℕ) (h tail : ℕ) (xs : List ℕ) → Runs next h xs tail → (h == tail) ≡ is_empty xs
head-is_empty next h tail [] r = ground (arith, r)
head-is_empty next h tail (x ∷ xs) (e, ne, r) = rw e ne

-- For a queue of TDs up to the dummy, none of which is there twice, and fuel for more turns than it
-- has TDs, a turn of `dl_del_list` leaves the TDs whose requests are not deleted, in their order, up
-- to the dummy, and all other links; of the requests it gives back those, in order, whose last TD it
-- took out; and the endpoint is removed if it is to be, has its TDs go on if one is left, and is
-- unlinked otherwise if it is ED_OPER, which it is then without ED_URB_DEL.
pub dl_del_ed-Did :
    (td : ℕ → Td) (priv : ℕ → Priv) (state f tail : ℕ) (w : Work) (xs : List ℕ)
    → length xs < f
    → Runs w.next w.head xs tail
    → AreApart xs
    → let ((done, w'), end) = dl_del_ed td priv state f tail w in
      let staying = filter (λ t. not (is_deleted td priv (bit state 2) t)) xs in
      Did td priv (bit state 2) tail none xs w done w'
      × (end ≡ (
          if bit state 2
          then removed
          else if is_empty staying
          then (if clear_bit state 3 == 2 then unlinked else left_empty)
          else going_on))
unfolding dl_del_ed fate
dl_del_ed-Did td priv state f tail w xs enough r apart =
    let d = dl_del_tds-Did td priv (bit state 2) f tail w xs enough r apart in
    let (_, w') = dl_del_tds td priv (bit state 2) f tail w in
    (d, rw (head-is_empty w'.next w'.head tail _ d.queue) refl)
