-- ===== src/Sa1101/Tests.antt =====
-- An interrupt of the chain of sa1101.c that finds two sources, and a third one at its second turn.
use jornada.Common.{ℕ, ◌≡◌, ◌++◌, some, List, [], ◌∷◌, arith, inl, inr, false}
use jornada.Sa1101.Defs.{sa1101_irq_handler, passed}
use jornada.Sa1101.Dispatch.{turn, last, all_raised, irq_handler_lem}

abbrev later : List (ℕ × ℕ)
later = (0, 4) ∷ []

irq_handler_lem_example :
    sa1101_irq_handler 49 (((5, 0) ∷ later) ++ ((0, 0) ∷ []))
    ≡ some (passed (all_raised 49 ((5, 0) ∷ later)), false)
irq_handler_lem_example = irq_handler_lem 49 5 0 later [] (
    turn (omega arith) (omega arith) (inl (λ e. omega (arith, e)))
      (turn (omega arith) (omega arith) (inr (λ e. omega (arith, e))) last))
