-- ===== src/Pcmcia/Tests.antt =====
-- Runs of soc_common.c: two sockets that come up or fail, and a table of card interrupts.
use jornada.Common.{ℕ, ◌≡◌, ◌≢◌, ◌&&◌, refl, true, false, List, [], ◌∷◌, ◌++◌, arith, replicate}
use jornada.Pcmcia.Socket.{Socket, SocketState, Bits, PcmciaState, soc_common_check_status, xor}
use jornada.Pcmcia.Status.{soc_common_check_status-parity, parity, get, ready}
use jornada.Pcmcia.Irqs.{Irq, Held, soc_pcmcia_request_irqs, soc_pcmcia_request_irqs-refused}
use jornada.Pcmcia.Probe.{Answers, soc_common_drv_pcmcia_probe}
use jornada.Pcmcia.Unwind.{all_stages, soc_common_drv_pcmcia_probe-later}

abbrev refused_rows : List Irq
refused_rows =
    record { sock = 1; irq = 20; answer = 0 }
    ∷ record { sock = 0; irq = 21; answer = 0 }
    ∷ record { sock = 1; irq = 22; answer = 16 }
    ∷ []

abbrev others_hold : Held
others_hold = 20 ∷ []

soc_pcmcia_request_irqs-refused_example :
    let (ret, after) = soc_pcmcia_request_irqs 1 refused_rows others_hold in
    (ret ≢ 0) × (after ≡ others_hold)
soc_pcmcia_request_irqs-refused_example =
    soc_pcmcia_request_irqs-refused 1 refused_rows others_hold refl

abbrev good_socket : Answers
good_socket = record {
  skt_answer = 0;
  io_answer = 0;
  mem_answer = 0;
  attr_answer = 0;
  is_mapped = true;
  hw_answer = 0;
  register_answer = 0;
}

abbrev bad_socket : Answers
bad_socket = record good_socket { hw_answer = 19 }

-- ENOMEM
abbrev enomem : ℕ
enomem = 12

enomem-ne-zero : enomem ≢ 0
enomem-ne-zero e = omega (arith, e)

soc_common_drv_pcmcia_probe-later_example :
    let (ret, sockets) = soc_common_drv_pcmcia_probe 12 true (good_socket ∷ bad_socket ∷ []) in
    (ret ≢ 0) × (sockets ≡ replicate 1 [] ++ (all_stages ∷ []))
soc_common_drv_pcmcia_probe-later_example =
    soc_common_drv_pcmcia_probe-later 12 0 (good_socket ∷ []) [] bad_socket enomem-ne-zero refl refl
      refl

abbrev no_bits : Bits
no_bits = record {
  ss_detect = false;
  ss_ready = false;
  ss_wrprot = false;
  ss_3vcard = false;
  ss_xvcard = false;
  ss_poweron = false;
  ss_stschg = false;
  ss_batdead = false;
  ss_batwarn = false;
}

abbrev empty_state : SocketState
empty_state = record {
  is_iocard = false;
  csc_mask = record no_bits { ss_ready = true };
  vcc = 0;
  io_irq = 0;
}

abbrev socket : Socket
socket = record {
  cs_state = empty_state;
  irq_state = 0;
  status = no_bits;
  spd_io = 0 ∷ 0 ∷ [];
  spd_mem = [];
  spd_attr = [];
  io_offset = 4096;
}

abbrev ready_card : PcmciaState
ready_card = record {
  detect = true;
  ready = true;
  bvd1 = true;
  bvd2 = true;
  wrprot = false;
  vs_3v = true;
  vs_xv = false;
}

soc_common_check_status-parity_example :
    let (final, reported, ended) = soc_common_check_status socket (ready_card ∷ ready_card ∷ []) in
    parity ready reported
    ≡ (xor (get ready final.status) (get ready socket.status) && get ready socket.cs_state.csc_mask)
soc_common_check_status-parity_example =
    soc_common_check_status-parity ready (ready_card ∷ ready_card ∷ []) socket
