-- ===== src/Keyb/Tests.antt =====
-- Runs of the mouse queue and the key map of j820_keyb.c, with a queue of four bytes.
use jornada.Common.{◌≡◌, refl, false, [], ◌∷◌, arith}
use jornada.Keyb.Aux.{Queue, bytes, handle_mse_event, read_aux}
use jornada.Keyb.Ring.{IsValid}
use jornada.Keyb.Reader.{Listening, read_aux-handle_mse_event}

-- Bytes 7 and 8 wait, round the end of the buffer.
abbrev two_bytes : Queue
two_bytes = record {
  buf = 8 ∷ 0 ∷ 0 ∷ 7 ∷ [];
  head = 1;
  tail = 3;
  mouse_reply_expected = 0;
  aux_count = 1;
}

abbrev idle : Queue
idle = record two_bytes { head = 3 }

idle-IsValid : IsValid 2 idle
idle-IsValid = record { sized = refl; head_in = omega arith; tail_in = omega arith }

idle-Listening : Listening idle
idle-Listening = (λ e. omega (arith, e), refl)

read_aux-handle_mse_event_example :
    let q' = (handle_mse_event 2 250 (8 ∷ 1 ∷ 0 ∷ []) idle).1 in
    (read_aux 2 250 false [] 3 q').0 ≡ bytes (8 ∷ 1 ∷ 0 ∷ [])
read_aux-handle_mse_event_example =
    read_aux-handle_mse_event 2 250 false [] (8 ∷ 1 ∷ 0 ∷ []) idle (omega arith) idle-IsValid
      idle-Listening refl (omega arith) (omega arith) (omega arith)
