-- ===== src/Ohci/Tests.antt =====
-- Runs of the transfers, the lists and the done list of linux/kernel/drivers/usb/host/usb-ohci.c, and the
-- theorems at concrete endpoints and requests.
use jornada.Common.{
  ℕ, zero, suc, ◌+◌, ◌-◌, ◌≡◌, ◌≢◌, ◌≤◌, ◌<◌, ◌⊎◌, ◌↔◌, true, false, List, [], ◌∷◌, some, refl,
  arith, if◌then◌else◌, ◌==◌,
}
use jornada.Common.Int.{ℤ, pos}
use jornada.Ohci.Transfer.{
  Urb, Filled, Queue, bits_or, psw_word, pipe_bulk, pipe_control, td_count, td_submit, wants_empty,
}
use jornada.Ohci.Counts.{td_submit-td_count}
use jornada.Ohci.Pieces.{Covers, td_submit-Covers}
use jornada.Ohci.Schedule.{ep_int_ballance, give_back, load_at, plus}
use jornada.Ohci.Loads.{meets, give_back-ep_int_ballance}
use jornada.Ohci.Lists.{Chain, ed_new, ep_link, ep_unlink}
use jornada.Ohci.Order.{Holds, ep_link-Holds}
use jornada.Ohci.Removal.{ep_unlink-Holds}
use jornada.Ohci.Submit.{
  World, linked, Held, wild, sohci_submit_urb, submit_sized, alloc_tds, undone, urb_free_priv,
}
use jornada.Ohci.Endpoints.{Ed, Pipe, ep_add_ed, IsGiven, IsRefused, ep_add_ed_lem}
use jornada.Ohci.Transferred.{moved, all_moved, stopped_at, transfer_length-td_submit}
use jornada.Ohci.Deletion.{
  Runs, Work, removed, unlinked, left_empty, going_on, dl_del_ed, filter, is_deleted,
}
use jornada.Ohci.Branches.{Branch, enter_loop, leave_loop}
use jornada.Ohci.Entering.{entered, AreOrdered}
use jornada.Ohci.Leaving.{leave_loop-enter_loop}
use jornada.Ohci.Cleared.{Did, is_empty, dl_del_ed-Did}
use jornada.Common.Bits.{bit, clear_bit}
use jornada.Common.{map, not, none, ◌++◌}
use jornada.Ohci.Done.{Td, Priv, Marks, dl_reverse_done_list, done_urbs}
use jornada.Ohci.Fifo.{Leads, dl_reverse_done_list-Leads, tds_of, count, done_urbs-count}

-- A bulk request of 10,000 bytes, and a control transfer of 5,000.
abbrev bulk : Urb
bulk = record {
  out = true;
  transfer_buffer_length = 10000;
  zero_packet = true;
  packets = [];
  start_frame = 0;
}

abbrev control : Urb
control = record bulk { out = false; transfer_buffer_length = 5000 }

abbrev queue : Queue
queue = record { tail = 0x1000; tds = 0x1020 ∷ 0x1040 ∷ 0x1060 ∷ []; filled = []; last_iso = 0 }

full_packets : wants_empty 64 bulk ≡ false
full_packets = refl

bulk_count : td_count 64 bulk pipe_bulk ≡ some 3
unfolding td_count
bulk_count = refl

control_count : td_count 64 control pipe_control ≡ some 4
unfolding td_count
control_count = refl

-- 4 TDs are taken and 3 filled.
control_cnt : (td_submit 64 0x8000 0x9000 false control pipe_control queue).0 ≡ 3
unfolding td_submit
control_cnt = refl

td_submit-td_count_example :
    ((td_submit 64 0x8000 0x9000 false control pipe_control queue).0 ≡ 4)
    ↔ ((pipe_control ≢ pipe_control) ⊎ (5000 ≤ 4096))
td_submit-td_count_example =
    td_submit-td_count 64 0x8000 0x9000 false control pipe_control queue 4 control_count

td_submit-Covers_example :
    Covers 0x8000 (td_submit 64 0x8000 0x9000 false bulk pipe_bulk queue).1.filled (0x8000 + 10000)
td_submit-Covers_example =
    td_submit-Covers 64 0x8000 0x9000 false bulk queue (omega arith) (omega arith) (omega arith)
      full_packets refl bulk_count

-- Loads of the 32 branches.
abbrev times : ℕ → ℤ → List ℤ
times zero x = []
times (suc n) x = x ∷ times n x

abbrev loads : List ℤ
loads = pos 3 ∷ pos 2 ∷ times 30 (pos 4)

give_back-ep_int_ballance_example :
    let (branch, loads') = ep_int_ballance loads 8 5 in
    (branch < 8)
    × (load_at loads' 9 ≡ (if meets 8 branch 9 then plus 5 (load_at loads 9) else load_at loads 9))
    × (load_at (give_back loads' 8 5 branch) 9 ≡ load_at loads 9)
give_back-ep_int_ballance_example =
    give_back-ep_int_ballance loads 8 5 9 (omega arith) refl (omega arith)

-- A list of the endpoints 10, 20 and 30.
abbrev three_next : ℕ → ℕ
three_next x = if x == 10 then 20 else if x == 20 then 30 else 0

abbrev three_prev : ℕ → ℕ
three_prev x = if x == 30 then 20 else if x == 20 then 10 else 0

abbrev chain : Chain
chain = record {
  head = 10;
  tail = 30;
  enabled = true;
  idle = true;
  next_ed = three_next;
  ed_prev = three_prev;
  skip = λ _. false;
  state = λ _. ed_new;
}

chain-Holds : Holds (10 ∷ 20 ∷ 30 ∷ []) chain
chain-Holds = record {
  apart = (refl, (refl, (refl, tt)), (refl, (refl, tt), (refl, tt, tt)));
  from_head = refl;
  at_tail = refl;
  links = (refl, refl, (refl, refl, (refl, refl, tt)));
}

ep_link-Holds_example : Holds (10 ∷ 20 ∷ 30 ∷ 40 ∷ []) (ep_link 40 chain)
ep_link-Holds_example =
    ep_link-Holds (10 ∷ 20 ∷ 30 ∷ []) chain 40 chain-Holds (refl, (refl, (refl, tt))) refl

ep_unlink-Holds_example :
    Holds (10 ∷ 30 ∷ []) (ep_unlink 20 chain) × ((ep_unlink 20 chain).enabled ≡ true)
ep_unlink-Holds_example = ep_unlink-Holds (10 ∷ []) 20 (30 ∷ []) chain chain-Holds

-- A device whose endpoint is linked, with enough of everything.
abbrev world : World
world = record {
  has_bus = true;
  to_root_hub = false;
  disabled = false;
  has_priv = true;
  td_allocs = λ i. true;
  has_bandwidth = false;
  enough_bandwidth = true;
}

-- The second TD is not to be had.
abbrev one_td : World
one_td = record world { td_allocs = λ i. i == 0 }

abbrev held : Held
held = record {
  dev_use = 1;
  privs = 2;
  tds = 5;
  hcpriv = false;
  pending = false;
  claims = 0;
  endpoint = some linked;
}

second_refused :
    sohci_submit_urb one_td 64 bulk pipe_bulk held
    ≡ wild (record held { dev_use = 2; privs = 3; tds = 6 })
unfolding sohci_submit_urb td_count submit_sized alloc_tds undone urb_free_priv
second_refused = refl

-- The controller finished the TDs 1, 2 and 3 of one request, the last one first, and TD 2 with an error.
abbrev tds : ℕ → Td
tds t = record { next_td = t - 1; cc = if t == 2 then 4 else 0; ed = 7; urb = 5; index = t - 1 }

abbrev privs : ℕ → Priv
privs u = record { td_length = 3; last_next = 9; deleted = false }

abbrev marks : Marks
marks = record {
  next_dl = λ _. 0;
  heads = λ _. record { td = 1; halted = true; carry = false };
  td_cnt = λ _. 0;
}

dl_reverse_done_list-Leads_example :
    let (head, m') = dl_reverse_done_list tds privs 4 3 marks in
    Leads m'.next_dl head (1 ∷ 2 ∷ 3 ∷ [])
dl_reverse_done_list-Leads_example =
    dl_reverse_done_list-Leads tds privs 4 3 marks (3 ∷ 2 ∷ 1 ∷ []) (omega arith)
      (refl, refl, (refl, refl, (refl, refl, refl)))
      (refl, (refl, (refl, tt)), (refl, (refl, tt), (refl, tt, tt)))

done_urbs-count_example :
    count 5 (done_urbs tds privs (1 ∷ 2 ∷ 3 ∷ []) (λ _. 0))
    ≡ (if 0 + tds_of tds 5 (1 ∷ 2 ∷ 3 ∷ []) == 3 then 1 else 0)
done_urbs-count_example =
    done_urbs-count tds privs (1 ∷ 2 ∷ 3 ∷ []) (λ _. 0) 5 (omega arith) (omega arith)

-- The TDs of the bulk request, the latest first.
abbrev filled_bulk : List Filled
filled_bulk = (td_submit 64 0x8000 0x9000 false bulk pipe_bulk queue).1.filled

abbrev filled_at : ℕ → ℕ → ℕ → ℕ → ℕ → ℕ → ℕ → ℕ → Filled
filled_at td next_td info cbp be psw data_dma index = record {
  td = td;
  next_td = next_td;
  info = info;
  cbp = cbp;
  be = be;
  psw = psw;
  data_dma = data_dma;
  index = index;
}

abbrev last_td : Filled
last_td = filled_at 0x1040 0x1060 0xf0080000 0xa000 42767 0xe000 0xa000 2

abbrev middle_td : Filled
middle_td = filled_at 0x1020 0x1040 0xf0080000 0x9000 0x9fff 0xe000 0x9000 1

abbrev first_td : Filled
first_td = filled_at 0x1000 0x1020 0xf2080000 0x8000 0x8fff 0xe000 0x8000 0

filled_bulk_eq : filled_bulk ≡ (last_td ∷ []) ++ (middle_td ∷ first_td ∷ [])
unfolding td_submit bits_or psw_word
filled_bulk_eq = refl

-- The controller stopped after 5,000 bytes.
transfer_length-td_submit_example :
    (moved false bulk 3 (map all_moved ((last_td ∷ []) ++ (middle_td ∷ first_td ∷ []))) ≡ 10000)
    × (moved false bulk 3 (stopped_at 37768 middle_td ∷ map all_moved (first_td ∷ []))
        ≡ 37768 - 0x8000)
transfer_length-td_submit_example =
    transfer_length-td_submit false 64 0x8000 0x9000 false bulk queue (last_td ∷ []) middle_td
      (first_td ∷ []) 37768 (omega arith) (omega arith) (omega arith) full_packets refl bulk_count
      filled_bulk_eq (omega arith) (omega arith)

abbrev new_ed : Ed
new_ed = record {
  info = 0;
  head = 0;
  tail = 0;
  state = 0;
  kind = pipe_control;
  int_period = 0;
  int_load = 0;
}

abbrev bulk_pipe : Pipe
bulk_pipe = record {
  device = 3;
  endpoint = 2;
  kind = pipe_bulk;
  out = true;
  slow = false;
  maxpacket = 64;
}

ep_add_ed_lem_example :
    let a = ep_add_ed bulk_pipe 0 1 (some 0x1000) true new_ed 4 in
    ((a.found ≡ true) × IsGiven new_ed (some 0x1000) 4 a)
    ⊎ ((a.found ≡ false) × IsRefused new_ed 4 a)
ep_add_ed_lem_example = ep_add_ed_lem bulk_pipe 0 1 (some 0x1000) true new_ed 4

-- A queue of the TDs 1, 2 and 3 before the dummy 4. TD 2 is the only one of a request that is deleted.
abbrev queued : ℕ → Td
queued t = record { next_td = 0; cc = 15; ed = 7; urb = t; index = 0 }

abbrev deleting : ℕ → Priv
deleting u = record { td_length = 1; last_next = 0; deleted = u == 2 }

abbrev work : Work
work = record { head = 1; next = λ t. t + 1; td_cnt = λ _. 0 }

dl_del_ed-Did_example :
    let ((done, w'), end) = dl_del_ed queued deleting 10 4 4 work in
    let staying = filter (λ t. not (is_deleted queued deleting (bit 10 2) t)) (1 ∷ 2 ∷ 3 ∷ []) in
    Did queued deleting (bit 10 2) 4 none (1 ∷ 2 ∷ 3 ∷ []) work done w'
    × (end ≡ (
        if bit 10 2
        then removed
        else if is_empty staying
        then (if clear_bit 10 3 == 2 then unlinked else left_empty)
        else going_on))
dl_del_ed-Did_example =
    dl_del_ed-Did queued deleting 10 4 4 work (1 ∷ 2 ∷ 3 ∷ []) (omega arith)
      (refl, refl, (refl, refl, (refl, refl, refl)))
      (refl, (refl, (refl, tt)), (refl, (refl, tt), (refl, tt, tt)))

-- A branch with the endpoints 1 and 2, of the intervals 8 and 1. The endpoint 3 has the interval 4.
abbrev branch : Branch
branch = record { entry = 1; next = λ t. if t == 1 then 2 else 0 }

abbrev intervals : ℕ → ℕ
intervals t = if t == 1 then 8 else if t == 2 then 1 else 4

leave_loop-enter_loop_example :
    let b' = enter_loop intervals 3 4 3 none branch in
    let b'' = leave_loop 3 4 none b' in
    let xs' = entered intervals 3 4 (1 ∷ 2 ∷ []) in
    Runs b'.next b'.entry xs' 0 × AreOrdered intervals xs' × Runs b''.next b''.entry (1 ∷ 2 ∷ []) 0
leave_loop-enter_loop_example =
    leave_loop-enter_loop intervals 3 3 4 branch (1 ∷ 2 ∷ []) (omega arith) (omega arith)
      (refl, refl, (refl, refl, refl)) (refl, (refl, tt), (refl, tt, tt)) refl (refl, (refl, tt))
      (omega arith, tt)

entered_last : entered intervals 3 4 (1 ∷ 2 ∷ []) ≡ 1 ∷ 3 ∷ 2 ∷ []
entered_last = refl
