-- ===== src/Ps2/Life.antt =====
-- Opening and closing the port of sa1101ps2.c, and the steps of its probe.
use jornada.Common.{ℕ, zero, suc, ◌≤◌, ◌≡◌, ◌≢◌, ◌⊎◌, true, false, List, [], ◌∷◌, arith}
use jornada.Ps2.Defs.{Port, ps2_open, ps2_close, ps2_clear_input}

-- Nothing is held, and the port is not in use.
abbrev pub IsClosed : Port → Type 0
IsClosed p =
    (p.rx_claimed ≡ false) × (p.tx_claimed ≡ false) × (p.is_open ≡ false) × (p.control ≡ false)

abbrev pub IsOpen : Port → Type 0
IsOpen p = (p.rx_claimed ≡ true) × (p.tx_claimed ≡ true) × (p.is_open ≡ true) × (p.control ≡ true)

-- An open of a closed port takes both interrupts and turns the port on, which a close undoes;
-- where an interrupt is refused, nothing is held.
ps2_open_lem :
    (rx tx : ℕ) (p : Port)
    → IsClosed p
    → let (ret, p') = ps2_open rx tx p in
      ((ret ≡ 0) × (rx ≡ 0) × (tx ≡ 0) × IsOpen p' × IsClosed (ps2_close p'))
      ⊎ ((ret ≢ 0) × ((rx ≢ 0) ⊎ (tx ≢ 0)) × IsClosed p')
unfolding ps2_open ps2_close
ps2_open_lem rx tx p c = ground arith

-- The reads of `ps2_clear_input` end, after as many as are allowed at most.
ps2_clear_input-le : (maxread : ℕ) (reads : List ℕ) → ps2_clear_input maxread reads ≤ maxread
unfolding ps2_clear_input
ps2_clear_input-le zero reads = omega arith
ps2_clear_input-le (suc n) [] = omega arith
ps2_clear_input-le (suc n) (r ∷ reads) = ground (arith, ps2_clear_input-le n reads)
