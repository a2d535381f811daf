-- ===== src/Psmouse/Buffer.antt =====
-- The size of a packet that the detection of psmouse-base.c leaves, and the packet buffer of a mouse that was connected.
use jornada.Common.{◌≤◌}
use jornada.Psmouse.Command.{Props}
use jornada.Psmouse.Invariant.{IsCareful}
use jornada.Psmouse.Life.{Psmouse}

-- A packet has three bytes at least, and fits the buffer of eight; the handler of the bytes is careful.
abbrev pub IsSized : Props → Type 0
IsSized p = (3 ≤ p.pktsize) × (p.pktsize ≤ 8) × IsCareful p.protocol_handler
