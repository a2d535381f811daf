-- ===== src/Pcmcia/Probe.antt =====
-- How soc_common.c brings its sockets up and takes them down: `soc_common_drv_pcmcia_probe` with the
-- labels of its error path, and `soc_common_drv_pcmcia_remove`.
use jornada.Common.{ℕ, Bool, not, List, [], ◌∷◌, if◌then◌else◌, ◌==◌, map}

-- What a socket holds, in the order in which it is taken: its resources, the mapping of its I/O
-- space, its place in `soc_pcmcia_sockets`, the board's hardware, its registration, its timer.
pub data Stage : Type 0 where
  res_skt : Stage
  res_io : Stage
  res_mem : Stage
  res_attr : Stage
  virt_io : Stage
  node : Stage
  hw_init : Stage
  registered : Stage
  poll_timer : Stage

abbrev pub number_of : Stage → ℕ
number_of res_skt = 0
number_of res_io = 1
number_of res_mem = 2
number_of res_attr = 3
number_of virt_io = 4
number_of node = 5
number_of hw_init = 6
number_of registered = 7
number_of poll_timer = 8

-- What the kernel and the board answer for one socket: 0 for success, and whether `ioremap` gives a
-- mapping.
pub record Answers : Type 0 where
  pub skt_answer : ℕ
  pub io_answer : ℕ
  pub mem_answer : ℕ
  pub attr_answer : ℕ
  pub is_mapped : Bool
  pub hw_answer : ℕ
  pub register_answer : ℕ

-- Where the function goes: on to the next socket, or to a label.
pub data Label : Type 0 where
  next_socket : Label
  out_err_1 : Label
  out_err_2 : Label
  out_err_3 : Label
  out_err_4 : Label
  out_err_5 : Label
  out_err_6 : Label
  out_err_7 : Label

pub record Step : Type 0 where
  pub ret : ℕ
  pub label : Label
  pub held : List Stage

-- The stage goes, where the socket holds it.
unfoldable pub drop_stage : Stage → List Stage → List Stage
drop_stage s [] = []
drop_stage s (t ∷ ts) =
    let rest = t ∷ drop_stage s ts in if number_of s == number_of t then ts else rest

-- The stages from `hw_init` on; `base` is what the socket holds by then, the latest first. `enomem`
-- is ENOMEM.
unfoldable pub probe_hardware : Answers → List Stage → Step
probe_hardware a base =
    if not (a.hw_answer == 0)
    then record { ret = a.hw_answer; label = out_err_6; held = base }
    else if not (a.register_answer == 0)
    then record { ret = a.register_answer; label = out_err_7; held = hw_init ∷ base }
    else record { ret = 0; label = next_socket; held = poll_timer ∷ registered ∷ hw_init ∷ base }

-- The body of the loop for one socket.
unfoldable pub probe_socket : ℕ → Answers → Step
probe_socket enomem a =
    if not (a.skt_answer == 0)
    then record { ret = a.skt_answer; label = out_err_1; held = [] }
    else if not (a.io_answer == 0)
    then record { ret = a.io_answer; label = out_err_2; held = res_skt ∷ [] }
    else if not (a.mem_answer == 0)
    then record { ret = a.mem_answer; label = out_err_3; held = res_io ∷ res_skt ∷ [] }
    else if not (a.attr_answer == 0)
    then record { ret = a.attr_answer; label = out_err_4; held = res_mem ∷ res_io ∷ res_skt ∷ [] }
    else if not a.is_mapped
    then record {
      ret = enomem;
      label = out_err_5;
      held = res_attr ∷ res_mem ∷ res_io ∷ res_skt ∷ [];
    }
    else probe_hardware a (node ∷ virt_io ∷ res_attr ∷ res_mem ∷ res_io ∷ res_skt ∷ [])

-- The statements after a label, down to `out_err_1`: each label falls into the next.
unfoldable pub fall_through : Label → List Stage → List Stage
fall_through next_socket held = held
fall_through out_err_1 held = held
fall_through out_err_2 held = drop_stage res_skt held
fall_through out_err_3 held = drop_stage res_skt (drop_stage res_io held)
fall_through out_err_4 held = drop_stage res_skt (drop_stage res_io (drop_stage res_mem held))
fall_through out_err_5 held =
    drop_stage res_skt (drop_stage res_io (drop_stage res_mem (drop_stage res_attr held)))
fall_through out_err_6 held = drop_stage res_skt (
    drop_stage res_io
      (drop_stage res_mem (drop_stage res_attr (drop_stage virt_io (drop_stage node held)))))
fall_through out_err_7 held = drop_stage res_skt (
    drop_stage res_io (
      drop_stage res_mem
        (drop_stage res_attr (drop_stage virt_io (drop_stage node (drop_stage hw_init held))))))

-- The top of the `do` loop: the timer and the registration go, and it runs into `out_err_7`.
unfoldable pub take_down : List Stage → List Stage
take_down held = fall_through out_err_7 (drop_stage registered (drop_stage poll_timer held))

-- `i--; } while (i > 0)`, over the sockets before the one that failed, the latest first: the loop goes
-- round again for each of them whose number is above 0.
unfoldable pub unwind : List (List Stage) → List (List Stage)
unwind [] = []
unwind (s ∷ []) = s ∷ []
unwind (s ∷ t ∷ ts) = take_down s ∷ unwind (t ∷ ts)

-- The sockets from one on; `done` has what those before it hold, the latest first. Answers the result
-- and what every socket that was begun holds.
unfoldable pub probe_from : ℕ → List (List Stage) → List Answers → ℕ × List (List Stage)
probe_from enomem done [] = (0, done)
probe_from enomem done (a ∷ others) =
    let s = probe_socket enomem a in
    let rest = probe_from enomem (s.held ∷ done) others in
    if s.ret == 0 then rest else (s.ret, fall_through s.label s.held ∷ unwind done)

-- `is_allocated` is whether `kmalloc` gives room for the sockets.
unfoldable pub soc_common_drv_pcmcia_probe : ℕ → Bool → List Answers → ℕ × List (List Stage)
soc_common_drv_pcmcia_probe enomem is_allocated sockets =
    if not is_allocated then (enomem, []) else probe_from enomem [] sockets

unfoldable pub soc_common_drv_pcmcia_remove : List (List Stage) → List (List Stage)
soc_common_drv_pcmcia_remove sockets = map take_down sockets
