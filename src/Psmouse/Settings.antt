-- ===== src/Psmouse/Settings.antt =====
-- The resolution and the report rate of psmouse-base.c: what is recorded, and the byte that the command
-- carries. Sending it is `ps2_command`'s.
use jornada.Common.{
  ℕ, zero, suc, ◌*◌, ◌/◌, ◌^◌, ◌≤◌, ◌<◌, ◌≡◌, ◌⊎◌, refl, false, ◌||◌, List, [], ◌∷◌, if◌then◌else◌,
  ◌==◌, ltb, get_or, arith,
}

abbrev pub params : List ℕ
params = 0 ∷ 1 ∷ 2 ∷ 2 ∷ 3 ∷ []

-- The new `psmouse->resolution` and the byte of the SETRES command.
unfoldable pub psmouse_set_resolution : ℕ → ℕ × ℕ
psmouse_set_resolution resolution =
    let res = if resolution == 0 || ltb 200 resolution then 200 else resolution in
    let p = get_or params (res / 50) 0 in (25 * 2 ^ p, p)

abbrev pub rates : List ℕ
rates = 200 ∷ 100 ∷ 80 ∷ 60 ∷ 40 ∷ 20 ∷ 10 ∷ 0 ∷ []

-- `while (rates[i] > rate) i++;` from the rates that are left.
unfoldable pub pick_rate : List ℕ → ℕ → ℕ
pick_rate [] rate = 0
pick_rate (r ∷ rs) rate = let rest = pick_rate rs rate in if ltb rate r then rest else r

-- The new `psmouse->rate`, which is also the byte of the SETRATE command.
unfoldable pub psmouse_set_rate : ℕ → ℕ
unfolding pick_rate
psmouse_set_rate rate = pick_rate rates rate

abbrev pub IsRate : ℕ → Type 0
IsRate r = (r ≡ 200) ⊎ (r ≡ 100) ⊎ (r ≡ 80) ⊎ (r ≡ 60) ⊎ (r ≡ 40) ⊎ (r ≡ 20) ⊎ (r ≡ 10) ⊎ (r ≡ 0)

-- The rate that is set is one of the eight, does not exceed the request, and no other of the eight
-- that does not exceed it is larger.
psmouse_set_rate_lem :
    (rate r : ℕ)
    → IsRate r
    → r ≤ rate
    → (psmouse_set_rate rate ≤ rate) × IsRate (psmouse_set_rate rate) × (r ≤ psmouse_set_rate rate)
unfolding psmouse_set_rate
psmouse_set_rate_lem rate r is le = (ground arith, ground arith, ground arith)

abbrev Close : ℕ → ℕ → Type 0
Close res p = (p ≤ 3) × (25 ≤ res → (25 * 2 ^ p ≤ res) × (res < 2 * (25 * 2 ^ p)))

params-Close : (q res : ℕ) → q ≡ res / 50 → res ≤ 200 → Close res (get_or params q 0)
params-Close zero res e le = omega arith
params-Close (suc zero) res e le = omega arith
params-Close (suc (suc zero)) res e le = omega arith
params-Close (suc (suc (suc zero))) res e le = omega arith
params-Close (suc (suc (suc (suc zero)))) res e le = omega arith
params-Close (suc (suc (suc (suc (suc q))))) res e le = absurd (omega arith)

-- For a request between 25 and 200 dots per inch, the byte that is sent is at most 3 and stands for
-- the resolution that is recorded, which does not exceed the request and is more than half of it.
psmouse_set_resolution_lem :
    (resolution : ℕ)
    → 25 ≤ resolution
    → resolution ≤ 200
    → let (recorded, byte) = psmouse_set_resolution resolution in
      (recorded ≡ 25 * 2 ^ byte)
      × (byte ≤ 3)
      × (recorded ≤ resolution)
      × (resolution < 2 * recorded)
unfolding psmouse_set_resolution
psmouse_set_resolution_lem resolution lo hi =
    let near : (resolution == 0 || ltb 200 resolution) ≡ false = ground arith in
    let (small, close) = params-Close (resolution / 50) resolution refl hi in
    let (least, most) = close lo in rw near (refl, small, least, most)
