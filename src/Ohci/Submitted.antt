-- ===== src/Ohci/Submitted.antt =====
-- The ends of `sohci_submit_urb` in linux/kernel/drivers/usb/host/usb-ohci.c.
use jornada.Common.{
  ℕ, ◌+◌, ◌≡◌, ◌≢◌, ◌<◌, ◌⊎◌, Bool, true, false, not, ◌&&◌, Option, none, some, if◌then◌else◌,
}
use jornada.Ohci.Transfer.{PipeType}
use jornada.Ohci.Submit.{
  submitted, unusable, linked, World, Held, Outcome, answered, handed_over, wild, urb_free_priv,
  periodic,
}

abbrev pub lacks_bandwidth : World → PipeType → Bool
lacks_bandwidth w pipe = periodic pipe && (not w.has_bandwidth && not w.enough_bandwidth)

-- A request that holds everything it needs, from what was held before it.
abbrev pub IsSubmitted : World → Option ℕ → PipeType → Held → Held → Type 0
IsSubmitted w count pipe s s' =
    (size : ℕ) × (count ≡ some size)
    × ((i : ℕ) → i < size → w.td_allocs i ≡ true)
    × (s.endpoint ≢ some unusable)
    × (lacks_bandwidth w pipe ≡ false)
    × (s' ≡ record s {
      dev_use = s.dev_use + 1;
      privs = s.privs + 1;
      tds = s.tds + size;
      hcpriv = true;
      pending = true;
      claims = if periodic pipe then s.claims + 1 else s.claims;
      endpoint = some linked;
    })
    × (urb_free_priv true size s' ≡ some (record s' { privs = s.privs; tds = s.tds }))

-- A step before the first TD was got was refused.
abbrev pub IsEarly : World → Option ℕ → Held → Type 0
IsEarly w count s =
    (w.has_bus ≡ false)
    ⊎ (s.hcpriv ≡ true)
    ⊎ (w.disabled ≡ true)
    ⊎ (s.endpoint ≡ none)
    ⊎ (count ≡ none)
    ⊎ (count ≡ some 0)
    ⊎ (w.has_priv ≡ false)
    ⊎ (w.td_allocs 0 ≡ false)

-- The first TD was got, and a later step was refused.
abbrev pub IsLate : World → Option ℕ → PipeType → Held → Type 0
IsLate w count pipe s =
    (size : ℕ) × (count ≡ some size)
    × (0 < size)
    × (w.td_allocs 0 ≡ true)
    × (((i : ℕ) × (i < size) × (w.td_allocs i ≡ false))
        ⊎ (s.endpoint ≡ some unusable)
        ⊎ (lacks_bandwidth w pipe ≡ true))

abbrev pub Ends : World → Option ℕ → PipeType → Held → Outcome → Type 0
Ends w count pipe s (answered submitted s') = IsSubmitted w count pipe s s'
Ends w count pipe s (answered _ s') = IsEarly w count s × (s' ≡ s)
Ends w count pipe s (handed_over s') =
    (w.to_root_hub ≡ true) × (s' ≡ record s { dev_use = s.dev_use + 1 })
Ends w count pipe s (wild s') = IsLate w count pipe s

-- The loop gets all of the TDs, or those before the first that is refused.
abbrev Got : (ℕ → Bool) → ℕ → ℕ → Held → Bool × ℕ × Held → Type 0
Got allocs i n s r =
    ((r.0 ≡ true)
      × ((j : ℕ) → j < n → allocs (i + j) ≡ true)
      × (r.2 ≡ record s { tds = s.tds + n }))
    ⊎ ((r.0 ≡ false)
        × ((j : ℕ) × (j < n)
            × (r.1 ≡ i + j)
            × (allocs (i + j) ≡ false)
            × ((0 < j) → allocs i ≡ true)
            × (r.2 ≡ record s { tds = s.tds + j })))

-- What a request with `n` of its TDs holds before it is submitted.
abbrev begun : ℕ → Held → Held
begun n s = record s { dev_use = s.dev_use + 1; privs = s.privs + 1; tds = s.tds + n }
