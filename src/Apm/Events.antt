-- ===== src/Apm/Events.antt =====
-- The calls of /dev/apm_bios in linux/kernel/arch/arm/mach-sa1100/apm.c, one after another.
use jornada.Common.{
  ℕ, zero, suc, ◌/◌, ◌≡◌, ◌==◌, ltb, ap, Bool, true, false, List, [], ◌∷◌, Option, none, some,
  if◌then◌else◌, Bool-cases, inl, inr, refl,
}
use jornada.Apm.Defs.{
  ApmUser, EventNumbers, queue_empty, read_loop, deliver, ReadAnswer, events_read, efault,
  erestartsys, do_read, Users, put, do_open, do_release,
}

-- A call of the device: an open with what `kmalloc` gives, a release, or a read. A read that sleeps ends where `woken`
-- says whether a signal woke it.
pub data Call : Type 0 where
  opened : (address : ℕ) (garbage : List ℕ) (capable : Bool) → Call
  released : (address : ℕ) → Call
  asked : (address count : ℕ) (nonblock : Bool) (copies : List Bool) (woken : Option Bool) → Call

-- The user of a reader that was asleep: nobody else changes its queue.
abbrev pub while_asleep : Option Bool → Option ApmUser → Option (ApmUser × Bool)
while_asleep (some signal) (some as') = some (as', signal)
while_asleep _ _ = none

-- The read of the user at an address, and the users after it.
unfoldable pub read_at :
    EventNumbers → ℕ → ℕ → Bool → List Bool → Option Bool → Users → ReadAnswer × Users
read_at n a count nonblock copies woken us =
    let u = us.at a in
    let (answer, u') = do_read n count nonblock copies (while_asleep woken u) u in
    (answer, record us { at = put us.at a u' })

-- The answers of the reads, and the users at the end.
unfoldable pub run : EventNumbers → List Call → Users → List ReadAnswer × Users
run n [] us = ([], us)
run n (opened a g c ∷ cs) us = run n cs (do_open a g c us).1
run n (released a ∷ cs) us = run n cs (do_release a us)
run n (asked a count nonblock copies woken ∷ cs) us =
    let (answer, us') = read_at n a count nonblock copies woken us in
    let (answers, end) = run n cs us' in (answer ∷ answers, end)

abbrev pub NothingWaits : Option ApmUser → Type 0
NothingWaits none = Unit
NothingWaits (some as') = queue_empty as' ≡ true

abbrev pub IsEventless : ReadAnswer → Type 0
IsEventless (events_read (e ∷ es)) = ⊥
IsEventless _ = Unit

abbrev pub AreEventless : List ReadAnswer → Type 0
AreEventless [] = Unit
AreEventless (a ∷ as') = IsEventless a × AreEventless as'

-- Every user's queue is empty.
abbrev pub AreIdle : Users → Type 0
AreIdle us = (a : ℕ) → NothingWaits (us.at a)

read_loop-empty :
    (n : EventNumbers) (room : ℕ) (copies : List Bool) (as' : ApmUser)
    → queue_empty as' ≡ true
    → read_loop n room copies as' ≡ (([], false), as')
unfolding read_loop
read_loop-empty n zero copies as' e = refl
read_loop-empty n (suc room) [] as' e = refl
read_loop-empty n (suc room) (c ∷ cs) as' e = rw e refl

deliver-empty :
    (n : EventNumbers) (count : ℕ) (copies : List Bool) (signal : Bool) (as' : ApmUser)
    → queue_empty as' ≡ true
    → deliver n count copies signal as' ≡ ((if signal then erestartsys else events_read []), as')
unfolding deliver
deliver-empty n count copies signal as' e =
    ap
      (λ (r : (List ℕ × Bool) × ApmUser). (
        elim r.0.0 [
          | e ∷ es ↦ events_read (e ∷ es)
          | [] ↦ if r.0.1 then efault else if signal then erestartsys else events_read []
        ],
        r.1,
      ))
      (read_loop-empty n (count / n.size) copies as' e)

-- What a read does to a user: no event, and still none that waits.
abbrev IsQuiet : ReadAnswer × Option ApmUser → Type 0
IsQuiet r = IsEventless r.0 × NothingWaits r.1

ended-IsQuiet :
    (signal : Bool) (as' : ApmUser)
    → queue_empty as' ≡ true
    → IsQuiet ((if signal then erestartsys else events_read []), some as')
ended-IsQuiet true as' e = (tt, e)
ended-IsQuiet false as' e = (tt, e)

deliver-IsQuiet :
    (n : EventNumbers) (count : ℕ) (copies : List Bool) (signal : Bool) (as' : ApmUser)
    → queue_empty as' ≡ true
    → let (answer, left) = deliver n count copies signal as' in IsQuiet (answer, some left)
deliver-IsQuiet n count copies signal as' e =
    rw (deliver-empty n count copies signal as' e) (ended-IsQuiet signal as' e)

either-IsQuiet :
    (test : Bool) (x y : ReadAnswer × Option ApmUser)
    → IsQuiet x
    → IsQuiet y
    → IsQuiet (if test then x else y)
either-IsQuiet true x y hx hy = hx
either-IsQuiet false x y hx hy = hy

do_read-IsQuiet :
    (n : EventNumbers) (count : ℕ) (nonblock : Bool) (copies : List Bool) (woken : Option Bool)
    (u : Option ApmUser)
    → NothingWaits u
    → IsQuiet (do_read n count nonblock copies (while_asleep woken u) u)
unfolding do_read
do_read-IsQuiet n count nonblock copies woken none e = (tt, tt)
do_read-IsQuiet n count nonblock copies none (some as') e =
    rw e
      (either-IsQuiet (ltb count n.size) _ _ (tt, e) (either-IsQuiet nonblock _ _ (tt, e) (tt, e)))
do_read-IsQuiet n count nonblock copies (some signal) (some as') e = rw e (
    either-IsQuiet (ltb count n.size) _ _ (tt, e)
      (either-IsQuiet nonblock _ _ (tt, e) (deliver-IsQuiet n count copies signal as' e)))

put-AreIdle :
    (a : ℕ) (u : Option ApmUser) (us : Users)
    → NothingWaits u
    → AreIdle us
    → (b : ℕ) → NothingWaits (put us.at a u b)
put-AreIdle a u us e idle b = elim (Bool-cases (b == a)) [
  | inl same ↦ rw same e
  | inr other ↦ rw other (idle b)
]

read_at-IsEventless :
    (n : EventNumbers) (a count : ℕ) (nonblock : Bool) (copies : List Bool) (woken : Option Bool)
    (us : Users)
    → AreIdle us
    → let (answer, us') = read_at n a count nonblock copies woken us in
      IsEventless answer × AreIdle us'
unfolding read_at
read_at-IsEventless n a count nonblock copies woken us idle =
    let r = do_read-IsQuiet n count nonblock copies woken (us.at a) (idle a) in
    (r.0, put-AreIdle a _ us r.1 idle)

do_open-AreIdle :
    (a : ℕ) (garbage : List ℕ) (capable : Bool) (us : Users)
    → AreIdle us
    → AreIdle (do_open a garbage capable us).1
unfolding do_open queue_empty
do_open-AreIdle a garbage capable us idle = elim (Bool-cases (a == 0)) [
  | inl null ↦ rw null idle
  | inr there ↦ rw there (put-AreIdle a _ us refl idle)
]

-- From users whose queues are empty, as at the start, when there are none: after any opens, releases
-- and reads, whatever they are given and however a sleep ends, every queue is empty, and no read of
-- them got an event.
pub run-AreEventless :
    (n : EventNumbers) (cs : List Call) (us : Users)
    → AreIdle us
    → AreEventless (run n cs us).0 × AreIdle (run n cs us).1
unfolding run do_release
run-AreEventless n [] us idle = (tt, idle)
run-AreEventless n (opened a g c ∷ cs) us idle =
    run-AreEventless n cs (do_open a g c us).1 (do_open-AreIdle a g c us idle)
run-AreEventless n (released a ∷ cs) us idle =
    run-AreEventless n cs (do_release a us) (put-AreIdle a none us tt idle)
run-AreEventless n (asked a count nonblock copies woken ∷ cs) us idle =
    let (eventless, still) = read_at-IsEventless n a count nonblock copies woken us idle in
    let (others, end) =
      run-AreEventless n cs (read_at n a count nonblock copies woken us).1 still in
    ((eventless, others), end)
