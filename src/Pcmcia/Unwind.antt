-- ===== src/Pcmcia/Unwind.antt =====
-- What the sockets hold after soc_common.c's probe succeeds, after it fails, and after the removal.
use jornada.Common.{
  &&_true, ℕ, zero, suc, ◌≡◌, ◌≢◌, ◌⊎◌, Bool, true, false, ◌&&◌, List, [], ◌∷◌, ◌++◌, ◌==◌, map,
  replicate, length, arith, Bool-cases, inl, inr, refl, ap, ◌∙◌, sym, ne→==,
}
use mathlib.Core.List.{append-nil}
use jornada.Pcmcia.Probe.{
  Stage, Answers, probe_hardware, probe_socket, fall_through, take_down, unwind, probe_from,
  soc_common_drv_pcmcia_probe, soc_common_drv_pcmcia_remove, drop_stage, res_skt, res_io, res_mem,
  res_attr, virt_io, node, hw_init, registered, poll_timer,
}

-- What a socket holds once it is up.
abbrev pub all_stages : List Stage
all_stages =
    poll_timer ∷ registered ∷ hw_init ∷ node ∷ virt_io ∷ res_attr ∷ res_mem ∷ res_io ∷ res_skt ∷ []

-- No answer for the socket is an error.
abbrev pub is_good : Answers → Bool
is_good a =
    (a.skt_answer == 0)
    && (a.io_answer == 0)
    && (a.mem_answer == 0)
    && (a.attr_answer == 0)
    && a.is_mapped
    && (a.hw_answer == 0)
    && (a.register_answer == 0)

abbrev pub all_good : List Answers → Bool
all_good [] = true
all_good (a ∷ others) = is_good a && all_good others

ne_zero : (n : ℕ) → (n == 0) ≡ false → n ≢ 0
ne_zero n e z = ground (arith, e, z)

-- A socket whose answers are good is up; one with a bad answer fails, and its label gives back all
-- that it took.
probe_socket_lem :
    (enomem : ℕ) (a : Answers)
    → enomem ≢ 0
    → let s = probe_socket enomem a in
      ((is_good a ≡ true) × ((s.ret ≡ 0) × (s.held ≡ all_stages)))
      ⊎ ((is_good a ≡ false) × ((s.ret ≢ 0) × (fall_through s.label s.held ≡ [])))
unfolding probe_socket probe_hardware fall_through drop_stage
probe_socket_lem enomem a h = elim (Bool-cases (a.skt_answer == 0)) [
  | inr e0 ↦ rw e0 (inr (refl, (ne_zero a.skt_answer e0, refl)))
  | inl e0 ↦ elim (Bool-cases (a.io_answer == 0)) [
    | inr e1 ↦ rw (e0, e1) (inr (refl, (ne_zero a.io_answer e1, refl)))
    | inl e1 ↦ elim (Bool-cases (a.mem_answer == 0)) [
      | inr e2 ↦ rw (e0, e1, e2) (inr (refl, (ne_zero a.mem_answer e2, refl)))
      | inl e2 ↦ elim (Bool-cases (a.attr_answer == 0)) [
        | inr e3 ↦ rw (e0, e1, e2, e3) (inr (refl, (ne_zero a.attr_answer e3, refl)))
        | inl e3 ↦ elim (Bool-cases (a.is_mapped)) [
          | inr e4 ↦ rw (e0, e1, e2, e3, e4) (inr (refl, (h, refl)))
          | inl e4 ↦ elim (Bool-cases (a.hw_answer == 0)) [
            | inr e5 ↦ rw (e0, e1, e2, e3, e4, e5) (inr (refl, (ne_zero a.hw_answer e5, refl)))
            | inl e5 ↦ elim (Bool-cases (a.register_answer == 0)) [
              | inr e6 ↦
                  rw (e0, e1, e2, e3, e4, e5, e6) (inr (refl, (ne_zero a.register_answer e6, refl)))
              | inl e6 ↦ rw (e0, e1, e2, e3, e4, e5, e6) (inl (refl, (refl, refl)))
            ]
          ]
        ]
      ]
    ]
  ]
]

replicate-snoc :
    (n : ℕ) (x : List Stage) (xs : List (List Stage))
    → replicate n x ++ (x ∷ xs) ≡ x ∷ (replicate n x ++ xs)
replicate-snoc zero x xs = refl
replicate-snoc (suc n) x xs = ap (λ ys. x ∷ ys) (replicate-snoc n x xs)

-- The loop passes over sockets that come up.
probe_from-append :
    (enomem : ℕ) (done : List (List Stage)) (before others : List Answers)
    → enomem ≢ 0
    → all_good before ≡ true
    → probe_from enomem done (before ++ others)
      ≡ probe_from enomem (replicate (length before) all_stages ++ done) others
unfolding probe_from
probe_from-append enomem done [] others h g = refl
probe_from-append enomem done (a ∷ before) others h g =
    let (good, rest) = &&_true (is_good a) (all_good before) g in
    let ih = probe_from-append enomem (all_stages ∷ done) before others h rest in
    elim (probe_socket_lem enomem a h) [
      | inl (_, (ok, up)) ↦
          rw (ok, up)
            (ih
              ∙ ap (λ d. probe_from enomem d others)
                  (replicate-snoc (length before) all_stages done))
      | inr (bad, _) ↦ absurd (ground (arith, good, bad))
    ]

unwind-replicate :
    (n : ℕ) → unwind (replicate (suc n) all_stages) ≡ replicate n [] ++ (all_stages ∷ [])
unfolding unwind take_down fall_through drop_stage
unwind-replicate zero = refl
unwind-replicate (suc n) = ap (λ ys. [] ∷ ys) (unwind-replicate n)

-- When the answers for every socket are good, `soc_common_drv_pcmcia_probe` answers 0, and each
-- socket is up.
soc_common_drv_pcmcia_probe-good :
    (enomem : ℕ) (sockets : List Answers)
    → enomem ≢ 0
    → all_good sockets ≡ true
    → soc_common_drv_pcmcia_probe enomem true sockets ≡ (0, replicate (length sockets) all_stages)
unfolding soc_common_drv_pcmcia_probe probe_from
soc_common_drv_pcmcia_probe-good enomem sockets h g =
    ap (probe_from enomem []) (sym (append-nil sockets))
    ∙ probe_from-append enomem [] sockets [] h g
    ∙ ap (λ d. (0, d)) (append-nil (replicate (length sockets) all_stages))

-- When the first socket fails, whichever of its steps fails, the probe answers an error and the
-- socket holds nothing.
soc_common_drv_pcmcia_probe-first :
    (enomem : ℕ) (a : Answers) (others : List Answers)
    → enomem ≢ 0
    → is_good a ≡ false
    → let (ret, sockets) = soc_common_drv_pcmcia_probe enomem true (a ∷ others) in
      (ret ≢ 0) × (sockets ≡ [] ∷ [])
unfolding soc_common_drv_pcmcia_probe probe_from unwind
soc_common_drv_pcmcia_probe-first enomem a others h g = elim (probe_socket_lem enomem a h) [
  | inl (good, _) ↦ absurd (ground (arith, good, g))
  | inr (_, (failed, none_left)) ↦
      rw (ne→== (probe_socket enomem a).ret 0 failed, none_left) (failed, refl)
]

-- When a socket fails after `n + 1` sockets that came up, the probe answers an error, each socket
-- above the first holds nothing, and the first one still has all that it took: its resources, its
-- mapping, its list node, the hardware, its registration and its timer.
pub soc_common_drv_pcmcia_probe-later :
    (enomem n : ℕ) (before after : List Answers) (a : Answers)
    → enomem ≢ 0
    → all_good before ≡ true
    → length before ≡ suc n
    → is_good a ≡ false
    → let (ret, sockets) = soc_common_drv_pcmcia_probe enomem true (before ++ (a ∷ after)) in
      (ret ≢ 0) × (sockets ≡ replicate (suc n) [] ++ (all_stages ∷ []))
unfolding soc_common_drv_pcmcia_probe probe_from
soc_common_drv_pcmcia_probe-later enomem n before after a h g len bad =
    let up : probe_from enomem [] (before ++ (a ∷ after))
        ≡ probe_from enomem (replicate (suc n) all_stages) (a ∷ after) =
      probe_from-append enomem [] before (a ∷ after) h g
      ∙ ap (λ d. probe_from enomem d (a ∷ after))
          (append-nil (replicate (length before) all_stages)
            ∙ ap (λ m. replicate m all_stages) len) in
    elim (probe_socket_lem enomem a h) [
      | inl (good, _) ↦ absurd (ground (arith, good, bad))
      | inr (_, (failed, none_left)) ↦
          rw (up, ne→== (probe_socket enomem a).ret 0 failed, none_left, unwind-replicate n)
            (failed, refl)
    ]

map-replicate : (n : ℕ) → map take_down (replicate n all_stages) ≡ replicate n []
unfolding take_down fall_through drop_stage
map-replicate zero = refl
map-replicate (suc n) = ap (λ ys. [] ∷ ys) (map-replicate n)

-- The removal after a probe whose answers were all good leaves every socket with nothing.
soc_common_drv_pcmcia_remove-probe :
    (enomem : ℕ) (sockets : List Answers)
    → enomem ≢ 0
    → all_good sockets ≡ true
    → soc_common_drv_pcmcia_remove (soc_common_drv_pcmcia_probe enomem true sockets).1
      ≡ replicate (length sockets) []
unfolding soc_common_drv_pcmcia_remove
soc_common_drv_pcmcia_remove-probe enomem sockets h g =
    rw (soc_common_drv_pcmcia_probe-good enomem sockets h g) (map-replicate (length sockets))
