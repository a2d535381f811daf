-- ===== src/Ps2/Tests.antt =====
-- A port of sa1101ps2.c with two bytes that wait, round the end of its buffer.
use jornada.Common.{◌≡◌, refl, true, false, List, [], ◌∷◌, arith}
use jornada.Ps2.Defs.{Port}
use jornada.Ps2.Queue.{Event, write, sent_one, run, view, promises, IsValid, run-refines}

abbrev two_wait : Port
two_wait = record {
  buf = 8 ∷ 0 ∷ 0 ∷ 7 ∷ [];
  head = 1;
  tail = 3;
  is_open = true;
  tx_enabled = true;
  rx_claimed = true;
  tx_claimed = true;
  control = true;
  sent = [];
}

two_wait-IsValid : IsValid two_wait
two_wait-IsValid = record { sized = refl; head_in = omega arith; tail_in = omega arith }

abbrev events : List Event
events = write false 9 ∷ write false 10 ∷ sent_one true ∷ write true 11 ∷ sent_one true ∷ []

run-refines_example :
    IsValid (run two_wait events) × (view (run two_wait events) ≡ promises (view two_wait) events)
run-refines_example = run-refines two_wait events two_wait-IsValid
