-- ===== src/Apm/Tests.antt =====
-- Reads of /dev/apm_bios.
use jornada.Common.{List, none, some, ◌≡◌, true, false, [], ◌∷◌, ◌==◌, refl}
use jornada.Apm.Defs.{
  ApmUser, EventNumbers, queue_empty, get_queued_event, note_event, deliver, do_read, events_read,
  eagain, erestartsys, Users, do_open, do_release,
}
use jornada.Apm.Events.{
  Call, opened, asked, released, read_at, run, AreEventless, AreIdle, run-AreEventless,
}

abbrev numbers : EventNumbers
numbers = record { is_suspend = λ e. e == 2; is_standby = λ e. e == 1; size = 2 }

-- Two events wait, a suspend and then a standby.
abbrev user : ApmUser
user = record {
  next = 0;
  suser = true;
  suspends_read = 0;
  standbys_read = 0;
  event_head = 2;
  event_tail = 0;
  events = 0 ∷ 2 ∷ 1 ∷ [];
}

both_read : (deliver numbers 10 (true ∷ true ∷ true ∷ []) false user).0 ≡ events_read (2 ∷ 1 ∷ [])
unfolding deliver queue_empty get_queued_event note_event
both_read = refl

nothing_waits : (do_read numbers 10 true [] none (some (record user { event_tail = 2 }))).0 ≡ eagain
unfolding do_read queue_empty
nothing_waits = refl

-- Two processes open the device; one is told that there is nothing, the other sleeps until a signal.
abbrev calls : List Call
calls =
    opened 0x1000 [] true
    ∷ opened 0x2000 (7 ∷ []) false
    ∷ asked 0x1000 10 true (true ∷ true ∷ []) none
    ∷ asked 0x2000 10 false (true ∷ true ∷ []) (some true)
    ∷ released 0x1000
    ∷ []

abbrev no_users : Users
no_users = record { at = λ _. none; user_list = 0 }

two_answers : (run numbers calls no_users).0 ≡ eagain ∷ erestartsys ∷ []
unfolding run do_open do_read read_at queue_empty deliver do_release
two_answers = refl

run-AreEventless_example :
    AreEventless (run numbers calls no_users).0 × AreIdle (run numbers calls no_users).1
run-AreEventless_example = run-AreEventless numbers calls no_users (λ a. tt)
