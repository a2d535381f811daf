-- ===== src/Ohci/Branches.antt =====
-- One branch of the tree of interrupt endpoints in linux/kernel/drivers/usb/host/usb-ohci.c: the loop of `ep_link`
-- that enters an endpoint, after those whose interval is not smaller, and that of `periodic_unlink`.
use jornada.Common.{ℕ, zero, suc, Option, none, some, if◌then◌else◌, ◌==◌, leb}
use jornada.Ohci.Lists.{update}

-- The entry of the branch in `int_table`, and the links `hwNextED`.
pub record Branch : Type 0 where
  pub entry : ℕ
  pub next : ℕ → ℕ

-- `*ed_p`, where `ed_p` is the entry or the link of an endpoint.
abbrev pub pointed : Option ℕ → Branch → ℕ
pointed none b = b.entry
pointed (some a) b = b.next a

abbrev pub point_to : Option ℕ → ℕ → Branch → Branch
point_to none v b = record b { entry = v }
point_to (some a) v b = record b { next = update b.next a v }

-- `ed->hwNextED = *ed_p; *ed_p = ed->dma`
unfoldable pub put_at : (ed : ℕ) → Option ℕ → Branch → Branch
put_at ed at b = point_to at ed (record b { next = update b.next ed (pointed at b) })

-- The loop of `ep_link`.
unfoldable pub enter_loop :
    (int_interval : ℕ → ℕ) (ed interval : ℕ) → ℕ → Option ℕ → Branch → Branch
unfolding put_at
enter_loop int_interval ed interval zero at b = b
enter_loop int_interval ed interval (suc f) at b =
    let here = pointed at b in
    let rest = enter_loop int_interval ed interval f (some here) b in
    if here == 0
    then put_at ed at b
    else if leb interval (int_interval here)
    then rest
    else put_at ed at b

-- The loop of `periodic_unlink`.
unfoldable pub leave_loop : (ed : ℕ) → ℕ → Option ℕ → Branch → Branch
leave_loop ed zero at b = b
leave_loop ed (suc f) at b =
    let here = pointed at b in
    let rest = leave_loop ed f (some here) b in
    if here == 0 then b else if here == ed then point_to at (b.next ed) b else rest
