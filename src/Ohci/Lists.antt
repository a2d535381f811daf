-- ===== src/Ohci/Lists.antt =====
-- The lists of control and of bulk endpoints in linux/kernel/drivers/usb/host/usb-ohci.c: `ep_link` and
-- `ep_unlink` for these. An endpoint is its address, and 0 is the null pointer. The two kinds of list have
-- the same code over registers and fields of their own.
use jornada.Common.{ℕ, Bool, true, false, ◌&&◌, if◌then◌else◌, ◌==◌}

-- ED_UNLINK and ED_OPER, of the states of an endpoint.
pub data EdState : Type 0 where
  ed_new : EdState
  ed_unlink : EdState
  ed_oper : EdState

-- The head register, the tail, the bit that enables the list, whether a list may be enabled (nothing waits
-- for removal, and the controller is awake), and the fields of the endpoints.
pub record Chain : Type 0 where
  pub head : ℕ
  pub tail : ℕ
  pub enabled : Bool
  pub idle : Bool
  pub next_ed : ℕ → ℕ
  pub ed_prev : ℕ → ℕ
  pub skip : ℕ → Bool
  pub state : ℕ → EdState

abbrev pub update {ℓ} : {A : Type ℓ} → (ℕ → A) → ℕ → A → ℕ → A
update f i v j = if j == i then v else f j

unfoldable pub ep_link : ℕ → Chain → Chain
ep_link ed c =
    let next = update c.next_ed ed 0 in
    record c {
      state = update c.state ed ed_oper;
      head = if c.tail == 0 then ed else c.head;
      next_ed = if c.tail == 0 then next else update next c.tail ed;
      ed_prev = update c.ed_prev ed c.tail;
      enabled = if c.tail == 0 && c.idle then true else c.enabled;
      tail = ed;
    }

unfoldable pub ep_unlink : ℕ → Chain → Chain
ep_unlink ed c =
    let before = c.ed_prev ed in
    let next = if before == 0 then c.next_ed else update c.next_ed before (c.next_ed ed) in
    record c {
      skip = update c.skip ed true;
      enabled = if before == 0 && c.next_ed ed == 0 then false else c.enabled;
      head = if before == 0 then c.next_ed ed else c.head;
      next_ed = next;
      tail = if c.tail == ed then before else c.tail;
      ed_prev = if c.tail == ed then c.ed_prev else update c.ed_prev (next ed) before;
      state = update c.state ed ed_unlink;
    }
