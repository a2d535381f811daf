-- ===== src/Pcmcia/Speed.antt =====
-- The timing that soc_common.c derives from the windows.
use jornada.Common.{
  ℕ, ◌+◌, ◌-◌, ◌^◌, ◌≤◌, ◌<◌, ◌≡◌, ◌≢◌, ◌⊎◌, inl, inr, refl, List, [], ◌∷◌, ◌==◌, ltb, arith,
  Bool-cases, ==_iff, ne→==, lt→leb_false, some, u32, length, get_or, set, get_or-set_self,
  get_or-set_ne,
}
use jornada.Pcmcia.Socket.{
  Limits, Socket, fastest, calc_speed, IoMap, map_speed, soc_common_pcmcia_set_io_map,
}
use mathlib.Core.List.{Memᴰ}

abbrev pub AllLe : List ℕ → ℕ → Type 0
AllLe [] m = Unit
AllLe (s ∷ ss) m = (s ≤ m) × AllLe ss m

le-fastest : (ss : List ℕ) (speed : ℕ) → speed ≤ fastest speed ss
unfolding fastest
le-fastest [] speed = omega arith
le-fastest (s ∷ ss) speed = elim (Bool-cases (ltb speed s)) [
  | inl e ↦ rw e (ground (arith, le-fastest ss s))
  | inr e ↦ rw e (le-fastest ss speed)
]

AllLe-fastest : (ss : List ℕ) (speed : ℕ) → AllLe ss (fastest speed ss)
unfolding fastest
AllLe-fastest [] speed = tt
AllLe-fastest (s ∷ ss) speed = elim (Bool-cases (ltb speed s)) [
  | inl e ↦ rw e (le-fastest ss s, AllLe-fastest ss s)
  | inr e ↦ rw e (ground (arith, le-fastest ss speed), AllLe-fastest ss speed)
]

fastest-mem : (ss : List ℕ) (speed : ℕ) → (fastest speed ss ≡ speed) ⊎ Memᴰ (fastest speed ss) ss
unfolding fastest
fastest-mem [] speed = inl refl
fastest-mem (s ∷ ss) speed = elim (Bool-cases (ltb speed s)) [
  | inl e ↦ rw e (elim (fastest-mem ss s) [
    | inl here ↦ inr (Memᴰ.head here)
    | inr later ↦ inr (Memᴰ.tail later)
  ])
  | inr e ↦
      rw e (elim (fastest-mem ss speed) [ inl here ↦ inl here | inr later ↦ inr (Memᴰ.tail later) ])
]

-- The speed of a socket is the slowest access time among its windows, or the default where all of
-- them are 0.
calc_speed_lem :
    (spds : List ℕ) (dflt : ℕ)
    → (AllLe spds 0 × (calc_speed spds dflt ≡ dflt))
      ⊎ ((calc_speed spds dflt ≢ 0)
          × AllLe spds (calc_speed spds dflt)
          × Memᴰ (calc_speed spds dflt) spds)
unfolding calc_speed
calc_speed_lem spds dflt = elim (Bool-cases (fastest 0 spds == 0)) [
  | inl z ↦
      let e : fastest 0 spds ≡ 0 = (==_iff (fastest 0 spds) 0).0 z in
      inl (rw e at (AllLe-fastest spds 0), rw z)
  | inr nz ↦
      let ne : fastest 0 spds ≢ 0 = ground arith in
      rw nz (
        inr (
          ne,
          AllLe-fastest spds 0,
          elim (fastest-mem spds 0) [ inl z ↦ absurd (ne z) | inr m ↦ m ],
        ))
]

-- A window of the table, whose end is not the 1 that stands for a page and not before its start, is
-- moved to the socket's own I/O space with its length kept, where no address passes the top of the
-- 32-bit space; its speed is what was asked for, or the default for an active window that asks for
-- none, or 0 for an inactive one, and every other window keeps its speed.
soc_common_pcmcia_set_io_map-moves :
    (l : Limits) (skt : Socket) (m : IoMap) (j : ℕ)
    → length skt.spd_io ≡ l.max_io_win
    → m.stop ≢ 1
    → m.start ≤ m.stop
    → m.stop < 2 ^ 32
    → skt.io_offset + (m.stop - m.start) < 2 ^ 32
    → m.map < l.max_io_win
    → m.map ≢ j
    → (skt' : Socket) × (m' : IoMap) × (soc_common_pcmcia_set_io_map l skt m ≡ some (skt', m'))
      × (m'.start ≡ skt.io_offset)
      × (m'.stop ≡ m'.start + (m.stop - m.start))
      × (get_or skt'.spd_io m.map 0 ≡ map_speed m.is_active m.speed l.io_access)
      × (get_or skt'.spd_io j 0 ≡ get_or skt.spd_io j 0)
unfolding soc_common_pcmcia_set_io_map
soc_common_pcmcia_set_io_map-moves l skt m j room ne order top fits h d =
    let spd : ℕ = map_speed m.is_active m.speed l.io_access in
    (
      record skt { spd_io = set skt.spd_io m.map spd },
      record m {
        stop = u32 (u32 (m.stop + 2 ^ 32 - m.start) + skt.io_offset);
        start = skt.io_offset;
      },
      rw (lt→leb_false l.max_io_win m.map h, ne→== m.stop 1 ne),
      refl,
      omega arith,
      get_or-set_self skt.spd_io m.map spd 0 (omega arith),
      get_or-set_ne skt.spd_io spd 0 d,
    )
