-- ===== src/Apm/Defs.antt =====
-- /dev/apm_bios in linux/kernel/arch/arm/mach-sa1100/apm.c: its users, their queues of events, and the calls of
-- the device. The magic number of a user is the fact that it is allocated.
use jornada.Common.{
  ℕ, zero, suc, ◌+◌, ◌/◌, ◌%◌, Bool, true, false, not, List, [], ◌∷◌, Option, none, some,
  if◌then◌else◌, ◌==◌, ltb, get_or,
}

-- APM_MAX_EVENTS
abbrev pub max_events : ℕ
max_events = 20

pub record ApmUser : Type 0 where
  pub next : ℕ
  pub suser : Bool
  pub suspends_read : ℕ
  pub standbys_read : ℕ
  pub event_head : ℕ
  pub event_tail : ℕ
  pub events : List ℕ

unfoldable pub queue_empty : ApmUser → Bool
queue_empty as' = as'.event_head == as'.event_tail

unfoldable pub get_queued_event : ApmUser → ℕ × ApmUser
get_queued_event as' =
    let tail = (as'.event_tail + 1) % max_events in
    (get_or as'.events tail 0, record as' { event_tail = tail })

-- What an event is, by the numbers of the kernel's apm_bios.h.
pub record EventNumbers : Type 0 where
  pub is_suspend : ℕ → Bool
  pub is_standby : ℕ → Bool
  pub size : ℕ

-- How a read ends.
pub data ReadAnswer : Type 0 where
  events_read : List ℕ → ReadAnswer
  eio : ReadAnswer
  einval : ReadAnswer
  eagain : ReadAnswer
  efault : ReadAnswer
  erestartsys : ReadAnswer
  asleep : ReadAnswer

module _ (n : EventNumbers) where
  -- `switch (event)`
  unfoldable pub note_event : ℕ → ApmUser → ApmUser
  note_event event as' =
      if n.is_suspend event
      then record as' { suspends_read = as'.suspends_read + 1 }
      else if n.is_standby event
      then record as' { standbys_read = as'.standbys_read + 1 }
      else as'

  -- The loop: `room` is how many events still fit, and `copies` whether each copy to the user succeeds. Answers the
  -- events that were copied and whether a copy failed.
  unfoldable pub read_loop : (room : ℕ) → List Bool → ApmUser → (List ℕ × Bool) × ApmUser
  read_loop zero copies as' = (([], false), as')
  read_loop (suc room) [] as' = (([], false), as')
  read_loop (suc room) (copied ∷ copies) as' =
      let (event, taken) = get_queued_event as' in
      let ((events, fault), left) = read_loop room copies (note_event event taken) in
      if queue_empty as'
      then (([], false), as')
      else if not copied
      then (([], true), taken)
      else ((event ∷ events, fault), left)

  -- The end of `do_read`, for `count` bytes. A fault counts only where nothing was copied before.
  unfoldable pub deliver :
      (count : ℕ) → List Bool → (signal : Bool) → ApmUser → ReadAnswer × ApmUser
  unfolding read_loop
  deliver count copies signal as' =
      let ((events, fault), left) = read_loop (count / n.size) copies as' in
      (
        elim events [
          | e ∷ es ↦ events_read (e ∷ es)
          | [] ↦ if fault then efault else if signal then erestartsys else events_read []
        ],
        left,
      )

  -- `do_read`. While the reader sleeps others may change its user: `woken` is the user as it is at the end of the
  -- sleep, with whether a signal ended it; none where the sleep does not end.
  unfoldable pub do_read :
      (count : ℕ) (nonblock : Bool)
      → List Bool
      → Option (ApmUser × Bool)
      → Option ApmUser
      → ReadAnswer × Option ApmUser
  unfolding deliver
  do_read count nonblock copies woken none = (eio, none)
  do_read count nonblock copies woken (some as') =
      let (now, left) = deliver count copies false as' in
      if ltb count n.size
      then (einval, some as')
      else if not (queue_empty as')
      then (now, some left)
      else if nonblock
      then (eagain, some as')
      else elim woken [
        | none ↦ (asleep, some as')
        | some (as'', signal) ↦
            let (answer, left') = deliver count copies signal as'' in (answer, some left')
      ]

-- The memory of the users by address, where 0 is the null pointer, and the list of them.
pub record Users : Type 0 where
  pub at : ℕ → Option ApmUser
  pub user_list : ℕ

abbrev pub put : (ℕ → Option ApmUser) → ℕ → Option ApmUser → ℕ → Option ApmUser
put f a u b = if b == a then u else f b

-- `address` is what `kmalloc` gives, and `garbage` what the memory holds. Answers whether the call succeeds.
unfoldable pub do_open : (address : ℕ) (garbage : List ℕ) (capable : Bool) → Users → Bool × Users
do_open address garbage capable us =
    let u : ApmUser = record {
      next = us.user_list;
      suser = capable;
      suspends_read = 0;
      standbys_read = 0;
      event_head = 0;
      event_tail = 0;
      events = garbage;
    } in
    if address == 0
    then (false, us)
    else (true, record { at = put us.at address (some u); user_list = address })

unfoldable pub do_release : (address : ℕ) → Users → Users
do_release address us = record us { at = put us.at address none }

unfoldable pub do_poll : Option ApmUser → Bool
unfolding queue_empty
do_poll none = false
do_poll (some as') = not (queue_empty as')

-- `do_ioctl`: the error, or whether the suspend is suggested. `is_suspend` is whether the command is APM_IOC_SUSPEND.
pub data IoctlAnswer : Type 0 where
  suggested : IoctlAnswer
  ioctl_eio : IoctlAnswer
  ioctl_eperm : IoctlAnswer
  ioctl_einval : IoctlAnswer

unfoldable pub do_ioctl : (is_suspend : Bool) → Option ApmUser → IoctlAnswer
do_ioctl is_suspend none = ioctl_eio
do_ioctl is_suspend (some as') =
    if not as'.suser then ioctl_eperm else if is_suspend then suggested else ioctl_einval
