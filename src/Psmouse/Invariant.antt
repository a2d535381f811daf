-- ===== src/Psmouse/Invariant.antt =====
-- The packet buffer of psmouse-base.c under any bytes, and the stream that a well-behaved mouse sends.
use jornada.Common.{
  ℕ, ◌+◌, ◌≤◌, ◌<◌, ◌≡◌, ◌≢◌, refl, Bool, false, List, [], ◌∷◌, arith, get_or, set, u8, length,
  length-set, ne→==,
}
use jornada.Common.Int.{ℤ, pos, negsuc, ◌≤ℤ◌}
use jornada.Psmouse.Packet.{
  ps2, Report, rel, key, rel_x, rel_y, btn_left, btn_middle, btn_right, psmouse_process_byte,
  reports, second_byte,
}
use jornada.Psmouse.Decode.{first_byte, first_byte_small, byte_of, negate, reports-three}
use jornada.Psmouse.Stream.{
  activated, Mouse, Input, Handler, byte_handler, on_verdict, handle, accept, psmouse_interrupt,
  run,
}

-- There is room in the packet for the next byte.
pub record IsValid (m : Mouse) : Type 0 where
  pub room : m.pktcnt < m.pktsize
  pub fits : m.pktsize ≤ length m.packet
  pub least : 3 ≤ m.pktsize
  pub counted : m.pktsize < 256

-- A handler that asks for another byte only of a packet that has room for it, and writes in the packet only.
abbrev pub IsCareful : Handler → Type 0
IsCareful h =
    (m : Mouse)
    → m.pktcnt ≤ m.pktsize
    → m.pktsize ≤ length m.packet
    → 3 ≤ m.pktsize
    → m.pktsize < 256
    → IsValid (handle h m).0

pub byte_handler-IsCareful : IsCareful byte_handler
unfolding handle on_verdict psmouse_process_byte
byte_handler-IsCareful m h1 h2 h3 h4 =
    ground (
      arith,
      length-set m.packet 1 (second_byte m.type (get_or m.packet 0 0) (get_or m.packet 1 0)),
    )

accept-IsValid :
    (h : Handler) (m : Mouse) (byte : ℕ) → IsCareful h → IsValid m → IsValid (accept h m byte).0
unfolding accept
accept-IsValid h m byte careful v =
    let stored : Mouse = record m {
      packet = set m.packet m.pktcnt byte;
      pktcnt = u8 (m.pktcnt + 1);
    } in
    ground (arith, length-set m.packet m.pktcnt byte, careful stored)

-- With a careful handler, whatever byte arrives with whatever flags, in whatever state, if there was room in the packet for
-- it there is room for the next one: the count stays below the size of a packet, and that within the
-- buffer.
psmouse_interrupt-IsValid :
    (h : Handler) (m : Mouse) (i : Input)
    → IsCareful h
    → IsValid m
    → IsValid (psmouse_interrupt h m i).0
unfolding psmouse_interrupt
psmouse_interrupt-IsValid h m i careful v =
    let kept = accept-IsValid h m i.byte careful v in
    let restarted = accept-IsValid h (record m { pktcnt = 0 }) i.byte careful in
    ground (arith, kept, restarted)

pub run-IsValid :
    (h : Handler) (m : Mouse) (is : List Input) → IsCareful h → IsValid m → IsValid (run h m is).0
unfolding run
run-IsValid h m [] careful v = v
run-IsValid h m (i ∷ is) careful v =
    run-IsValid h (psmouse_interrupt h m i).0 is careful (psmouse_interrupt-IsValid h m i careful v)

-- An active mouse of three bytes with `n` bytes of a packet.
abbrev pub gathered : ℕ → ℕ → ℕ → ℕ → List ℕ → ℕ → ℕ → Mouse
gathered n a b c rest out after = record {
  state = activated;
  type = ps2;
  pktsize = 3;
  pktcnt = n;
  packet = a ∷ b ∷ c ∷ rest;
  out_of_sync = out;
  resetafter = after;
  expecting = false;
}

abbrev pub sent : ℕ → Input
sent b = record { byte = b; damaged = false; taken = false; late = false }

first_of_three :
    (a b c : ℕ) (rest : List ℕ) (out after x : ℕ)
    → x ≢ 0xaa
    → psmouse_interrupt byte_handler (gathered 0 a b c rest out after) (sent x) ≡ (
      gathered 1 x b c rest out after,
      record { reported = []; reconnect = false; aborted = false },
    )
unfolding psmouse_interrupt accept handle on_verdict psmouse_process_byte
first_of_three a b c rest out after x h = rw (ne→== x 0xaa h)

second_of_three :
    (a b c : ℕ) (rest : List ℕ) (out after y : ℕ)
    → a ≢ 0xaa
    → psmouse_interrupt byte_handler (gathered 1 a b c rest out after) (sent y) ≡ (
      gathered 2 a y c rest out after,
      record { reported = []; reconnect = false; aborted = false },
    )
unfolding psmouse_interrupt accept handle on_verdict psmouse_process_byte
second_of_three a b c rest out after y h = rw (ne→== a 0xaa h)

third_of_three :
    (a b c : ℕ) (rest : List ℕ) (out after z : ℕ)
    → a ≢ 0xaa
    → psmouse_interrupt byte_handler (gathered 2 a b c rest out after) (sent z) ≡ (
      gathered 0 a b z rest 0 after,
      record { reported = reports ps2 (a ∷ b ∷ z ∷ rest); reconnect = false; aborted = false },
    )
unfolding psmouse_interrupt accept handle on_verdict psmouse_process_byte
third_of_three a b c rest out after z h = rw (ne→== a 0xaa h)

-- The buttons and the motion that a mouse reports in one packet.
pub record Sample : Type 0 where
  pub left : Bool
  pub right : Bool
  pub middle : Bool
  pub x : ℤ
  pub y : ℤ

abbrev pub InRange : List Sample → Type 0
InRange [] = Unit
InRange (s ∷ ss) =
    ((negsuc 254 ≤ℤ s.x) × (s.x ≤ℤ pos 255) × (negsuc 254 ≤ℤ s.y) × (s.y ≤ℤ pos 255)) × InRange ss

abbrev pub encode : List Sample → List Input
encode [] = []
encode (s ∷ ss) =
    sent (first_byte s.left s.right s.middle s.x s.y)
    ∷ sent (byte_of s.x)
    ∷ sent (byte_of s.y)
    ∷ encode ss

abbrev pub decoded : List Sample → List Report
decoded [] = []
decoded (s ∷ ss) =
    key btn_left s.left
    ∷ key btn_middle s.middle
    ∷ key btn_right s.right
    ∷ rel rel_x s.x
    ∷ rel rel_y (negate s.y)
    ∷ decoded ss

-- The packets of any samples whose motion is within 255 steps along each axis, sent byte by byte
-- without errors to an active three-byte mouse that has no byte of a packet, are reported as those
-- samples, in order.
pub run-encode :
    (ss : List Sample) (a b c : ℕ) (rest : List ℕ) (out after : ℕ)
    → InRange ss
    → (run byte_handler (gathered 0 a b c rest out after) (encode ss)).1 ≡ decoded ss
unfolding run
run-encode [] a b c rest out after h = refl
run-encode (s ∷ ss) a b c rest out after h =
    let f : ℕ = first_byte s.left s.right s.middle s.x s.y in
    let ne : f ≢ 0xaa = omega (arith, first_byte_small s.left s.right s.middle s.x s.y) in
    rw (
      first_of_three a b c rest out after f ne,
      second_of_three f b c rest out after (byte_of s.x) ne,
      third_of_three f (byte_of s.x) c rest out after (byte_of s.y) ne,
      reports-three s.left s.right s.middle s.x s.y rest h.0.0 h.0.1 h.0.2 h.0.3,
      run-encode ss f (byte_of s.x) (byte_of s.y) rest 0 after h.1,
    )
