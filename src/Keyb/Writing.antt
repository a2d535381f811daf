-- ===== src/Keyb/Writing.antt =====
-- Writing to /dev/psaux and the detection of the port, from linux/kernel/drivers/char/j820_keyb.c.
use jornada.Common.{
  ℕ, zero, suc, ◌+◌, ◌≡◌, ◌≤◌, ◌<◌, ◌⊎◌, Bool, true, false, Option, none, some, List, [], ◌∷◌, ◌++◌,
  if◌then◌else◌, min, length, arith, refl, ap,
}
use jornada.Keyb.Sharing.{Look, Device, aux_write_dev}

module _ (k : ℕ) (aux_ack : ℕ) where
  -- The loop of `write_aux`: each byte with what its wait sees.
  unfoldable pub write_bytes : ℕ → List (List Look × ℕ) → Device → Device
  write_bytes zero bytes d = d
  write_bytes (suc count) [] d = d
  write_bytes (suc count) ((looks, c) ∷ bytes) d =
      write_bytes count bytes (aux_write_dev k aux_ack looks c d)

  -- `bytes` is the buffer, of the size that was asked for; the answer is the number of bytes that were written.
  unfoldable pub write_aux : List (List Look × ℕ) → Device → ℕ × Device
  write_aux bytes d = let count = min (length bytes) 32 in (count, write_bytes count bytes d)

-- The inner loop of the detection: the dummy reads, where `stats` has KBDSTAT_RXF after each. None where it does not end.
unfoldable pub flush_port : List Bool → Option ℕ
flush_port [] = none
flush_port (rxf ∷ stats) =
    let rest = flush_port stats in
    if rxf then elim rest [ none ↦ none | some n ↦ some (n + 1) ] else some 1

-- The outer loop, of `loops` turns: KBDSTAT_RXF of each.
unfoldable pub look_for_byte : ℕ → List Bool → List Bool → Option Bool
look_for_byte zero turns stats = some false
look_for_byte (suc loops) [] stats = none
look_for_byte (suc loops) (rxf ∷ turns) stats =
    let rest = look_for_byte loops turns stats in
    if rxf then elim (flush_port stats) [ none ↦ none | some n ↦ some true ] else rest

-- `known` is whether the BIOS has detected a device.
unfoldable pub detect_auxiliary_port : Bool → List Bool → List Bool → Option Bool
detect_auxiliary_port known turns stats = if known then some true else look_for_byte 10 turns stats

-- The bytes of the buffer that are written, the latest first.
abbrev pub latest_first : ℕ → List (List Look × ℕ) → List ℕ → List ℕ
latest_first zero bytes out = out
latest_first (suc n) [] out = out
latest_first (suc n) ((looks, c) ∷ bytes) out = latest_first n bytes (c ∷ out)

write_bytes-written :
    (k aux_ack count : ℕ) (bytes : List (List Look × ℕ)) (d : Device)
    → (write_bytes k aux_ack count bytes d).written ≡ latest_first count bytes d.written
unfolding write_bytes aux_write_dev
write_bytes-written k aux_ack zero bytes d = refl
write_bytes-written k aux_ack (suc n) [] d = refl
write_bytes-written k aux_ack (suc n) ((looks, c) ∷ bytes) d =
    write_bytes-written k aux_ack n bytes (aux_write_dev k aux_ack looks c d)

-- A write sends the first 32 bytes of its buffer at most, in order, and answers how many.
write_aux_lem :
    (k aux_ack : ℕ) (bytes : List (List Look × ℕ)) (d : Device)
    → let (n, d') = write_aux k aux_ack bytes d in
      (n ≤ 32) × ((n ≡ length bytes) ⊎ (n ≡ 32)) × (d'.written ≡ latest_first n bytes d.written)
unfolding write_aux
write_aux_lem k aux_ack bytes d =
    (omega arith, ground arith, write_bytes-written k aux_ack (min (length bytes) 32) bytes d)

abbrev pub quiet : ℕ → List Bool
quiet zero = []
quiet (suc n) = false ∷ quiet n

abbrev pub noisy : ℕ → List Bool
noisy zero = false ∷ []
noisy (suc n) = true ∷ noisy n

flush_port-noisy : (n : ℕ) → flush_port (noisy n) ≡ some (n + 1)
unfolding flush_port
flush_port-noisy zero = refl
flush_port-noisy (suc n) = rw (flush_port-noisy n) (ap some (omega arith))

look_for_byte-quiet :
    (loops : ℕ) (stats : List Bool) → look_for_byte loops (quiet loops) stats ≡ some false
unfolding look_for_byte
look_for_byte-quiet zero stats = refl
look_for_byte-quiet (suc n) stats = look_for_byte-quiet n stats

look_for_byte-found :
    (n loops m : ℕ) (turns : List Bool)
    → n < loops
    → look_for_byte loops (quiet n ++ (true ∷ turns)) (noisy m) ≡ some true
unfolding look_for_byte
look_for_byte-found n zero m turns few = absurd (omega arith)
look_for_byte-found zero (suc l) m turns few = rw (flush_port-noisy m) refl
look_for_byte-found (suc n) (suc l) m turns few = look_for_byte-found n l m turns (omega arith)

-- The detection ends within ten turns, and finds the port exactly if a byte is there at one of them, after which the
-- port is read until it is empty.
detect_auxiliary_port_lem :
    (n m : ℕ) (turns stats : List Bool)
    → n < 10
    → (detect_auxiliary_port false (quiet n ++ (true ∷ turns)) (noisy m) ≡ some true)
      × (detect_auxiliary_port false (quiet 10) stats ≡ some false)
unfolding detect_auxiliary_port
detect_auxiliary_port_lem n m turns stats few =
    (look_for_byte-found n 10 m turns few, look_for_byte-quiet 10 stats)
