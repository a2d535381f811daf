-- ===== src/Pcmcia/Status.antt =====
-- What soc_common.c tells of a socket's status, and how its interrupt follows its configuration.
use jornada.Common.{
  ◌≡◌, ◌≢◌, ◌↔◌, refl, Bool, false, ◌&&◌, sym, ◌∙◌, List, [], ◌∷◌, arith, Bool-cases, inl, inr,
}
use jornada.Pcmcia.Socket.{
  PcmciaState, Bits, SocketState, Socket, soc_common_pcmcia_skt_state, soc_common_pcmcia_config_skt,
  xor, bits_with, is_any, changes, soc_common_check_status,
}

-- After a configuration that the board accepts, the new state is recorded, the interrupt counts as
-- claimed exactly when the card has one, and its trigger was left alone exactly when that was so
-- before.
soc_common_pcmcia_config_skt-succeeds :
    (skt : Socket) (state : SocketState)
    → let (r, skt', triggers) = soc_common_pcmcia_config_skt skt state 0 in
      (r ≡ 0)
      × (skt'.cs_state ≡ state)
      × ((skt'.irq_state ≡ 1) ↔ (state.io_irq ≢ 0))
      × ((triggers ≡ []) ↔ ((skt.irq_state ≡ 1) ↔ (state.io_irq ≢ 0)))
unfolding soc_common_pcmcia_config_skt
soc_common_pcmcia_config_skt-succeeds skt state = (
  ground arith,
  ground arith,
  (λ h z. ground arith, λ h. ground arith),
  (λ h. (λ a z. ground arith, λ a. ground arith), λ h. ground (arith, h.0, h.1)),
)

pub data Flag : Type 0 where
  detect ready wrprot card_3v card_xv poweron stschg batdead batwarn : Flag

abbrev pub get : Flag → Bits → Bool
get detect b = b.ss_detect
get ready b = b.ss_ready
get wrprot b = b.ss_wrprot
get card_3v b = b.ss_3vcard
get card_xv b = b.ss_xvcard
get poweron b = b.ss_poweron
get stschg b = b.ss_stschg
get batdead b = b.ss_batdead
get batwarn b = b.ss_batwarn

get-bits_with :
    (f : Bool → Bool → Bool) (k : Flag) (a b : Bits)
    → get k (bits_with f a b) ≡ f (get k a) (get k b)
get-bits_with f detect a b = refl
get-bits_with f _ a b = refl

get-is_any : (k : Flag) (b : Bits) → is_any b ≡ false → get k b ≡ false
get-is_any detect b h = ground arith
get-is_any _ b h = ground arith

get-changes :
    (k : Flag) (status old mask : Bits)
    → get k (changes status old mask) ≡ (xor (get k status) (get k old) && get k mask)
unfolding changes
get-changes k status old mask =
    rw (get-bits_with ◌&&◌ k (bits_with xor status old) mask, get-bits_with xor k status old)

-- How often, odd or even, an event of this kind was reported.
abbrev pub parity : Flag → List Bits → Bool
parity k [] = false
parity k (e ∷ es) = xor (get k e) (parity k es)

chain : (a b c m : Bool) → xor (xor b a && m) (xor c b && m) ≡ (xor c a && m)
chain a b c m = ground arith

same_status : (a m : Bool) → (xor a a && m) ≡ false
same_status a m = ground arith

-- The events that the status loop reports add up: a kind of event is reported an odd number of times
-- exactly when it is in the mask and its bit differs between the first and the last status.
pub soc_common_check_status-parity :
    (k : Flag) (ss : List PcmciaState) (skt : Socket)
    → let (final, reported, ended) = soc_common_check_status skt ss in
      parity k reported
      ≡ (xor (get k final.status) (get k skt.status) && get k skt.cs_state.csc_mask)
unfolding soc_common_check_status
soc_common_check_status-parity k [] skt =
    sym (same_status (get k skt.status) (get k skt.cs_state.csc_mask))
soc_common_check_status-parity k (s ∷ ss) skt =
    let status : Bits = soc_common_pcmcia_skt_state skt s in
    let mask : Bits = skt.cs_state.csc_mask in
    let events : Bits = changes status skt.status mask in
    let skt' : Socket = record skt { status = status } in
    let final : Socket = (soc_common_check_status skt' ss).0 in
    elim (Bool-cases (is_any events)) [
      | inl e ↦
          rw (e, get-changes k status skt.status mask, soc_common_check_status-parity k ss skt')
            (chain (get k skt.status) (get k status) (get k final.status) (get k mask))
      | inr e ↦ rw e (sym (get-is_any k events e) ∙ get-changes k status skt.status mask)
    ]
