-- ===== src/Pcmcia/Socket.antt =====
-- The socket of soc_common.c: its status, its configuration, its interrupts and its windows. The
-- SS_ bits of a status are the fields of a record, since their values are not in the repository, and
-- `&`, `|` and `^` work on each of them. The low-level operations `skt->ops` and the constants of
-- soc_common.h and of the PCMCIA core are parameters.
use jornada.Common.{
  ℕ, ◌+◌, ◌-◌, ◌^◌, Bool, true, false, not, ◌&&◌, ◌||◌, List, [], ◌∷◌, if◌then◌else◌, ◌==◌, ltb,
  leb, set, Option, none, some, u32,
}

-- The constants that are not in the repository.
pub record Limits : Type 0 where
  pub max_io_win : ℕ
  pub max_win : ℕ
  pub io_access : ℕ
  pub mem_access : ℕ
  pub page_size : ℕ

-- `struct pcmcia_state`, what the hardware shows.
pub record PcmciaState : Type 0 where
  pub detect : Bool
  pub ready : Bool
  pub bvd1 : Bool
  pub bvd2 : Bool
  pub wrprot : Bool
  pub vs_3v : Bool
  pub vs_xv : Bool

-- A set of SS_ status bits.
pub record Bits : Type 0 where
  pub ss_detect : Bool
  pub ss_ready : Bool
  pub ss_wrprot : Bool
  pub ss_3vcard : Bool
  pub ss_xvcard : Bool
  pub ss_poweron : Bool
  pub ss_stschg : Bool
  pub ss_batdead : Bool
  pub ss_batwarn : Bool

-- `socket_state_t`: the flag SS_IOCARD, the mask of changes that are reported, the voltage and the
-- card's interrupt.
pub record SocketState : Type 0 where
  pub is_iocard : Bool
  pub csc_mask : Bits
  pub vcc : ℕ
  pub io_irq : ℕ

-- `struct soc_pcmcia_socket`
pub record Socket : Type 0 where
  pub cs_state : SocketState
  pub irq_state : ℕ
  pub status : Bits
  pub spd_io : List ℕ
  pub spd_mem : List ℕ
  pub spd_attr : List ℕ
  pub io_offset : ℕ

unfoldable pub soc_common_pcmcia_skt_state : Socket → PcmciaState → Bits
soc_common_pcmcia_skt_state skt state = record {
  ss_detect = state.detect;
  ss_ready = state.ready;
  ss_wrprot = state.wrprot;
  ss_3vcard = state.vs_3v;
  ss_xvcard = state.vs_xv;
  ss_poweron = not (skt.cs_state.vcc == 0);
  ss_stschg = if skt.cs_state.is_iocard then state.bvd1 else false;
  ss_batdead = if skt.cs_state.is_iocard then false else not state.bvd1;
  ss_batwarn = if skt.cs_state.is_iocard then false else (state.bvd1 && not state.bvd2);
}

-- What `set_irq_type` is called with.
pub data Trigger : Type 0 where
  falling no_edge : Trigger

-- `ret` is what `configure_socket` returned, 0 for success; errors are positive here.
unfoldable pub soc_common_pcmcia_config_skt : Socket → SocketState → ℕ → ℕ × Socket × List Trigger
soc_common_pcmcia_config_skt skt state ret =
    let claimed = record skt { irq_state = 1; cs_state = state } in
    let dropped = record skt { irq_state = 0; cs_state = state } in
    if not (ret == 0)
    then (ret, skt, [])
    else if not (skt.irq_state == 1) && not (state.io_irq == 0)
    then (0, claimed, falling ∷ [])
    else if skt.irq_state == 1 && state.io_irq == 0
    then (0, dropped, no_edge ∷ [])
    else (0, record skt { cs_state = state }, [])

-- `dead_socket` is the PCMCIA core's; the second component says whether `socket_suspend` was called.
unfoldable pub soc_common_pcmcia_suspend :
    SocketState → Socket → ℕ → ℕ × Socket × List Trigger × Bool
unfolding soc_common_pcmcia_config_skt
soc_common_pcmcia_suspend dead_socket skt ret =
    let (r, skt', triggers) = soc_common_pcmcia_config_skt skt dead_socket ret in
    (r, skt', triggers, r == 0)

abbrev pub xor : Bool → Bool → Bool
xor true b = not b
xor false b = b

abbrev pub bits_with : (Bool → Bool → Bool) → Bits → Bits → Bits
bits_with f a b = record {
  ss_detect = f a.ss_detect b.ss_detect;
  ss_ready = f a.ss_ready b.ss_ready;
  ss_wrprot = f a.ss_wrprot b.ss_wrprot;
  ss_3vcard = f a.ss_3vcard b.ss_3vcard;
  ss_xvcard = f a.ss_xvcard b.ss_xvcard;
  ss_poweron = f a.ss_poweron b.ss_poweron;
  ss_stschg = f a.ss_stschg b.ss_stschg;
  ss_batdead = f a.ss_batdead b.ss_batdead;
  ss_batwarn = f a.ss_batwarn b.ss_batwarn;
}

abbrev pub is_any : Bits → Bool
is_any b =
    b.ss_detect || b.ss_ready || b.ss_wrprot || b.ss_3vcard || b.ss_xvcard || b.ss_poweron
    || b.ss_stschg || b.ss_batdead || b.ss_batwarn

-- `(status ^ skt->status) & skt->cs_state.csc_mask`
unfoldable pub changes : Bits → Bits → Bits → Bits
changes status old mask = bits_with ◌&&◌ (bits_with xor status old) mask

-- The loop of `soc_common_check_status`: the list is what the hardware shows at each reading. The
-- second component has the events passed to `pcmcia_parse_events`, the third says whether the loop
-- ended before the readings did.
unfoldable pub soc_common_check_status : Socket → List PcmciaState → Socket × List Bits × Bool
soc_common_check_status skt [] = (skt, [], false)
soc_common_check_status skt (s ∷ ss) =
    let status = soc_common_pcmcia_skt_state skt s in
    let events = changes status skt.status skt.cs_state.csc_mask in
    let skt' = record skt { status = status } in
    let (skt'', reported, ended) = soc_common_check_status skt' ss in
    if is_any events then (skt'', events ∷ reported, ended) else (skt', [], true)

unfoldable pub soc_common_pcmcia_get_status : Socket → PcmciaState → Bits × Socket
soc_common_pcmcia_get_status skt s =
    let status = soc_common_pcmcia_skt_state skt s in (status, record skt { status = status })

-- `for (i = 0; i < num; i++) if (speed < spds[i]) speed = spds[i];`
unfoldable pub fastest : ℕ → List ℕ → ℕ
fastest speed [] = speed
fastest speed (s ∷ ss) = fastest (if ltb speed s then s else speed) ss

unfoldable pub calc_speed : List ℕ → ℕ → ℕ
calc_speed spds dflt = let speed = fastest 0 spds in if speed == 0 then dflt else speed

pub record Timing : Type 0 where
  pub io : ℕ
  pub mem : ℕ
  pub attr : ℕ

unfoldable pub soc_common_pcmcia_get_timing : Limits → Socket → Timing
soc_common_pcmcia_get_timing l skt = record {
  io = calc_speed skt.spd_io l.io_access;
  mem = calc_speed skt.spd_mem l.mem_access;
  attr = calc_speed skt.spd_attr l.mem_access;
}

-- `struct pccard_io_map` and `struct pccard_mem_map`, with the flags that are read.
pub record IoMap : Type 0 where
  pub map : ℕ
  pub is_active : Bool
  pub speed : ℕ
  pub start : ℕ
  pub stop : ℕ

pub record MemMap : Type 0 where
  pub map : ℕ
  pub is_active : Bool
  pub is_attrib : Bool
  pub speed : ℕ
  pub card_start : ℕ
  pub static_start : ℕ

abbrev pub map_speed : Bool → ℕ → ℕ → ℕ
map_speed is_active speed dflt = if is_active then (if speed == 0 then dflt else speed) else 0

-- `none` is the error -1. The sums on `stop` wrap.
unfoldable pub soc_common_pcmcia_set_io_map : Limits → Socket → IoMap → Option (Socket × IoMap)
soc_common_pcmcia_set_io_map l skt m =
    let stop = if m.stop == 1 then l.page_size - 1 else m.stop in
    let length = u32 (stop + 2 ^ 32 - m.start) in
    if leb l.max_io_win m.map
    then none
    else some (
      record skt { spd_io = set skt.spd_io m.map (map_speed m.is_active m.speed l.io_access) },
      record m { stop = u32 (length + skt.io_offset); start = skt.io_offset },
    )

-- `none` is the error -EINVAL. `attr_start` and `mem_start` are the starts of the two resources.
unfoldable pub soc_common_pcmcia_set_mem_map :
    Limits → ℕ → ℕ → Socket → MemMap → Option (Socket × MemMap)
soc_common_pcmcia_set_mem_map l attr_start mem_start skt m =
    let speed = map_speed m.is_active m.speed 300 in
    let start = if m.is_attrib then attr_start else mem_start in
    if leb l.max_win m.map
    then none
    else some (
      record skt {
        spd_attr = set skt.spd_attr m.map (if m.is_attrib then speed else 0);
        spd_mem = set skt.spd_mem m.map (if m.is_attrib then 0 else speed);
      },
      record m { static_start = u32 (start + m.card_start) },
    )
