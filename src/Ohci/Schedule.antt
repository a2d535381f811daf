-- ===== src/Ohci/Schedule.antt =====
-- The choice of a place for an interrupt endpoint in linux/kernel/drivers/usb/host/usb-ohci.c:
-- `ep_int_ballance`, `ep_2_n_interval` and `ep_rev`, with what `ep_unlink` gives back.
use jornada.Common.{
  ℕ, zero, suc, ◌+◌, ◌-◌, ◌*◌, ◌/◌, ◌%◌, ◌^◌, Bool, List, if◌then◌else◌, ltb, get_or, set,
}
use jornada.Common.Int.{ℤ, pos, pos_part, neg_part, sub_ℕ}
use jornada.Common.Bits.{lor}

-- The loop: `f` is how often it may turn yet, `i` how often it did.
unfoldable pub interval_loop : ℕ → ℕ → ℕ → ℕ
interval_loop zero inter i = 2 ^ i
interval_loop (suc f) inter i =
    let rest = interval_loop f (inter / 2) (i + 1) in if ltb 1 inter then rest else 2 ^ i

unfoldable pub ep_2_n_interval : ℕ → ℕ
unfolding interval_loop
ep_2_n_interval inter = interval_loop 5 inter 0

-- The loop over the bits from `i` on, `n` of them.
unfoldable pub rev_loop : (num_bits word i n wout : ℕ) → ℕ
rev_loop num_bits word i zero wout = wout
rev_loop num_bits word i (suc n) wout =
    rev_loop num_bits word (i + 1) n (lor 32 wout (word / 2 ^ i % 2 * 2 ^ (num_bits - i - 1)))

unfoldable pub ep_rev : ℕ → ℕ → ℕ
unfolding rev_loop
ep_rev num_bits word = rev_loop num_bits word 0 num_bits 0

-- `a += n`, `a -= n` and `a > b` on loads.
abbrev pub plus : ℕ → ℤ → ℤ
plus n a = sub_ℕ (pos_part a + n) (neg_part a)

abbrev pub minus : ℕ → ℤ → ℤ
minus n a = sub_ℕ (pos_part a) (neg_part a + n)

abbrev pub above : ℤ → ℤ → Bool
above a b = ltb (pos_part b + neg_part a) (pos_part a + neg_part b)

abbrev pub load_at : List ℤ → ℕ → ℤ
load_at loads i = get_or loads i (pos 0)

-- The search for the least loaded branch, from branch `i` on, `n` of them.
unfoldable pub least_loop : List ℤ → (i n branch : ℕ) → ℕ
least_loop loads i zero branch = branch
least_loop loads i (suc n) branch =
    least_loop loads (i + 1) n
      (if above (load_at loads branch) (load_at loads i) then i else branch)

-- `for (; i < 32; i += interval)`, with a change of each load. `f` bounds the turns.
unfoldable pub each_from : (ℤ → ℤ) → (f interval i : ℕ) → List ℤ → List ℤ
each_from change zero interval i loads = loads
each_from change (suc f) interval i loads =
    let rest =
      each_from change f interval (i + interval) (set loads i (change (load_at loads i))) in
    if ltb i 32 then rest else loads

unfoldable pub least_branch : List ℤ → ℕ
unfolding least_loop
least_branch loads = least_loop loads 0 32 0

-- The branch, and the loads after it.
unfoldable pub ep_int_ballance : List ℤ → (interval load : ℕ) → ℕ × List ℤ
ep_int_ballance loads interval load =
    let branch = least_branch loads % interval in
    (branch, each_from (plus load) 32 interval branch loads)

-- What `ep_unlink` does to the loads for an interrupt endpoint.
unfoldable pub give_back : List ℤ → (interval load branch : ℕ) → List ℤ
give_back loads interval load branch = each_from (minus load) 32 interval branch loads
