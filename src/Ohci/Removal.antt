-- ===== src/Ohci/Removal.antt =====
-- Unlinking from the lists of endpoints in linux/kernel/drivers/usb/host/usb-ohci.c.
use jornada.Common.{
  ℕ, ◌≡◌, Bool, true, false, List, [], ◌∷◌, ◌++◌, if◌then◌else◌, ◌==◌, arith, Bool-cases, inl, inr,
  refl, ◌∙◌, sym,
}
use jornada.Ohci.Lists.{Chain, update, ep_unlink}
use jornada.Ohci.Order.{first, last, NotIn, AreApart, Links, Holds, last-ne, last-nonzero, Links-eq}

-- The fields are the same but at one endpoint.
abbrev SameBut : ℕ → (ℕ → ℕ) → (ℕ → ℕ) → Type 0
SameBut a f f' = (j : ℕ) → (j == a) ≡ false → f' j ≡ f j

Links-same :
    (next next' prev prev' : ℕ → ℕ) (a b p : ℕ) (xs : List ℕ)
    → SameBut a next next'
    → SameBut b prev prev'
    → NotIn a xs
    → NotIn b xs
    → Links next prev p xs
    → Links next' prev' p xs
Links-same next next' prev prev' a b p [] f g na nb l = tt
Links-same next next' prev prev' a b p (x ∷ xs) f g (xa, na) (xb, nb) (back, on, l) =
    (g x xb ∙ back, f x xa ∙ on, Links-same next next' prev prev' a b x xs f g na nb l)

-- The first endpoint of a sequence points back to `p`.
abbrev BackTo : (ℕ → ℕ) → ℕ → List ℕ → Type 0
BackTo prev p [] = Unit {0}
BackTo prev p (y ∷ ys) = prev y ≡ p

-- What is left after the first endpoint, for the endpoints `ys` that follow it.
Links-after :
    (next next' prev prev' : ℕ → ℕ) (p ed : ℕ) (ys : List ℕ)
    → SameBut p next next'
    → SameBut (first ys) prev prev'
    → BackTo prev' p ys
    → NotIn p ys
    → AreApart ys
    → Links next prev ed ys
    → Links next' prev' p ys
Links-after next next' prev prev' p ed [] f g back out apart l = tt
Links-after next next' prev prev' p ed (y ∷ ys) f g back (ne, out) (_, ny, _) (_, on, l) =
    (back, f y ne ∙ on, Links-same next next' prev prev' p y y ys f g out ny l)

NotIn-right : (a : ℕ) (xs : List ℕ) (ed : ℕ) (ys : List ℕ) → NotIn a (xs ++ (ed ∷ ys)) → NotIn a ys
NotIn-right a [] ed ys (_, out) = out
NotIn-right a (x ∷ xs) ed ys (_, out) = NotIn-right a xs ed ys out

NotIn-left : (a : ℕ) (xs ys : List ℕ) → NotIn a (xs ++ ys) → NotIn a xs
NotIn-left a [] ys out = tt
NotIn-left a (x ∷ xs) ys (ne, out) = (ne, NotIn-left a xs ys out)

-- An endpoint that is outside a sequence is not its first, or the sequence is empty.
first-ne : (a : ℕ) (ys : List ℕ) → (a == 0) ≡ false → NotIn a ys → (a == first ys) ≡ false
first-ne a [] nz out = nz
first-ne a (y ∷ ys) nz (ne, _) = ground (arith, ne)

-- Removing an endpoint after `p`, which is in the list.
Links-remove :
    (next next' prev prev' : ℕ → ℕ) (p : ℕ) (xs : List ℕ) (ed : ℕ) (ys : List ℕ)
    → SameBut (last p xs) next next'
    → next' (last p xs) ≡ first ys
    → SameBut (first ys) prev prev'
    → BackTo prev' (last p xs) ys
    → NotIn p (xs ++ (ed ∷ ys))
    → AreApart (xs ++ (ed ∷ ys))
    → Links next prev p (xs ++ (ed ∷ ys))
    → Links next' prev' p (xs ++ ys)
Links-remove next next' prev prev' p [] ed ys f on g back (_, out) (_, _, apart) (_, _, l) =
    Links-after next next' prev prev' p ed ys f g back out apart l
Links-remove next next' prev prev' p (x ∷ []) ed ys f on g back (_, out) (nz, nx, apart) (b, n, l) =
    (
      g x (first-ne x ys nz (NotIn-right x [] ed ys nx)) ∙ b,
      on,
      Links-remove next next' prev prev' x [] ed ys f on g back nx apart l,
    )
Links-remove next next' prev prev' p (x ∷ y ∷ xs) ed ys f on g back (_, out) (nz, nx, apart)
      (b, n, l) =
    (
      g x (first-ne x ys nz (NotIn-right x (y ∷ xs) ed ys nx)) ∙ b,
      f x (last-ne x y xs (NotIn-left x (y ∷ xs) (ed ∷ ys) nx)) ∙ n,
      Links-remove next next' prev prev' x (y ∷ xs) ed ys f on g back nx apart l,
    )

-- The fields of an endpoint in the list.
Links-at :
    (next prev : ℕ → ℕ) (p : ℕ) (xs : List ℕ) (ed : ℕ) (ys : List ℕ)
    → Links next prev p (xs ++ (ed ∷ ys))
    → (prev ed ≡ last p xs) × (next ed ≡ first ys)
Links-at next prev p [] ed ys (b, n, l) = (b, n)
Links-at next prev p (x ∷ xs) ed ys (b, n, l) = Links-at next prev x xs ed ys l

last-right : (p : ℕ) (xs : List ℕ) (ed : ℕ) (ys : List ℕ) → last p (xs ++ (ed ∷ ys)) ≡ last ed ys
last-right p [] ed ys = refl
last-right p (x ∷ xs) ed ys = last-right x xs ed ys

AreApart-right : (xs ys : List ℕ) → AreApart (xs ++ ys) → AreApart ys
AreApart-right [] ys h = h
AreApart-right (x ∷ xs) ys (_, _, h) = AreApart-right xs ys h

AreApart-left : (xs ys : List ℕ) → AreApart (xs ++ ys) → AreApart xs
AreApart-left [] ys h = tt
AreApart-left (x ∷ xs) ys (nz, n, h) = (nz, NotIn-left x xs ys n, AreApart-left xs ys h)

NotIn-zero : (xs : List ℕ) → AreApart xs → NotIn 0 xs
NotIn-zero [] h = tt
NotIn-zero (x ∷ xs) (nz, _, h) = (nz, NotIn-zero xs h)

NotIn-drop :
    (a : ℕ) (xs : List ℕ) (ed : ℕ) (ys : List ℕ) → NotIn a (xs ++ (ed ∷ ys)) → NotIn a (xs ++ ys)
NotIn-drop a [] ed ys (_, out) = out
NotIn-drop a (x ∷ xs) ed ys (ne, out) = (ne, NotIn-drop a xs ed ys out)

AreApart-drop :
    (xs : List ℕ) (ed : ℕ) (ys : List ℕ) → AreApart (xs ++ (ed ∷ ys)) → AreApart (xs ++ ys)
AreApart-drop [] ed ys (_, _, h) = h
AreApart-drop (x ∷ xs) ed ys (nz, n, h) = (nz, NotIn-drop x xs ed ys n, AreApart-drop xs ed ys h)

-- The fields that an unlink leaves, where `b` is the endpoint before and `n` that after.
abbrev next_without : (ℕ → ℕ) → (b n : ℕ) → ℕ → ℕ
next_without next b n = if b == 0 then next else update next b n

abbrev prev_without : (ℕ → ℕ) → Bool → (b n : ℕ) → ℕ → ℕ
prev_without prev at_end b n = if at_end then prev else update prev n b

next_without_self : (next : ℕ → ℕ) (ed b n : ℕ) → next ed ≡ n → next_without next b n ed ≡ n
next_without_self next ed b n f = elim (Bool-cases (b == 0)) [
  | inl e ↦ rw e f
  | inr e ↦ elim (Bool-cases (ed == b)) [ inl e' ↦ rw (e, e') refl | inr e' ↦ rw (e, e') f ]
]

ep_unlink-fields :
    (c : Chain) (ed b n : ℕ)
    → c.ed_prev ed ≡ b
    → c.next_ed ed ≡ n
    → ((ep_unlink ed c).next_ed ≡ next_without c.next_ed b n)
      × ((ep_unlink ed c).ed_prev ≡ prev_without c.ed_prev (c.tail == ed) b n)
unfolding ep_unlink
ep_unlink-fields c ed b n e f =
    let same : next_without c.next_ed b n ed ≡ n = next_without_self c.next_ed ed b n f in
    rw (e, f, same) (refl, refl)

prev_facts :
    (prev : ℕ → ℕ) (at_end : Bool) (b ed : ℕ) (ys : List ℕ)
    → at_end ≡ (last ed ys == ed)
    → NotIn ed ys
    → SameBut (first ys) prev (prev_without prev at_end b (first ys))
      × BackTo (prev_without prev at_end b (first ys)) b ys
prev_facts prev at_end b ed [] end out =
    let yes' : at_end ≡ true = end ∙ ground arith in ((λ j e. rw yes' refl), tt)
prev_facts prev at_end b ed (y ∷ ys) end out =
    let apart = last-ne ed y ys out in
    let no' : at_end ≡ false = end ∙ ground (arith, apart) in
    let self : (y == y) ≡ true = ground arith in ((λ j e. rw (no', e) refl), rw (no', self) refl)

-- Removing an endpoint of a list.
Links-without :
    (next prev : ℕ → ℕ) (xs : List ℕ) (ed : ℕ) (ys : List ℕ) (at_end : Bool)
    → at_end ≡ (last ed ys == ed)
    → AreApart (xs ++ (ed ∷ ys))
    → Links next prev 0 (xs ++ (ed ∷ ys))
    → Links
        (next_without next (last 0 xs) (first ys))
        (prev_without prev at_end (last 0 xs) (first ys))
        0
        (xs ++ ys)
Links-without next prev [] ed ys at_end end (nz, out, apart) (_, _, l) =
    let (same, back) = prev_facts prev at_end 0 ed ys end out in
    Links-after next next prev (prev_without prev at_end 0 (first ys)) 0 ed ys (λ j e. refl) same
      back (NotIn-zero ys apart) apart l
Links-without next prev (x ∷ xs) ed ys at_end end apart l =
    let b = last x xs in
    let out = AreApart-right (x ∷ xs) (ed ∷ ys) apart in
    let (same, back) = prev_facts prev at_end b ed ys end out.1 in
    let nz : (b == 0) ≡ false = last-nonzero x xs (AreApart-left (x ∷ xs) (ed ∷ ys) apart) in
    let self : (b == b) ≡ true = ground arith in
    Links-remove next (next_without next b (first ys)) prev (prev_without prev at_end b (first ys))
      0 (x ∷ xs) ed ys (λ j e. rw (nz, e) refl) (rw (nz, self) refl) same back
      (NotIn-zero ((x ∷ xs) ++ (ed ∷ ys)) apart) apart l

ep_unlink-head :
    (xs : List ℕ) (ed : ℕ) (ys : List ℕ) (c : Chain)
    → Holds (xs ++ (ed ∷ ys)) c
    → c.ed_prev ed ≡ last 0 xs
    → c.next_ed ed ≡ first ys
    → (ep_unlink ed c).head ≡ first (xs ++ ys)
unfolding ep_unlink
ep_unlink-head [] ed ys c h b n = rw (b, n) refl
ep_unlink-head (x ∷ xs) ed ys c h b n =
    rw (b, last-nonzero x xs (AreApart-left (x ∷ xs) (ed ∷ ys) h.apart)) h.from_head

last-nil : (p : ℕ) (xs : List ℕ) → last p xs ≡ last p (xs ++ [])
last-nil p [] = refl
last-nil p (x ∷ xs) = last-nil x xs

ep_unlink-tail :
    (xs : List ℕ) (ed : ℕ) (ys : List ℕ) (c : Chain)
    → NotIn ed ys
    → c.ed_prev ed ≡ last 0 xs
    → c.tail ≡ last ed ys
    → (ep_unlink ed c).tail ≡ last 0 (xs ++ ys)
unfolding ep_unlink
ep_unlink-tail xs ed [] c out b end =
    let self : (ed == ed) ≡ true = ground arith in rw (end, self, b) (last-nil 0 xs)
ep_unlink-tail xs ed (y ∷ ys) c out b end =
    let apart = last-ne ed y ys out in
    let ne : (last y ys == ed) ≡ false = ground (arith, apart) in
    rw (end, ne) (sym (last-right 0 xs y ys))

ep_unlink-enabled :
    (xs : List ℕ) (ed : ℕ) (ys : List ℕ) (c : Chain)
    → AreApart (xs ++ (ed ∷ ys))
    → c.ed_prev ed ≡ last 0 xs
    → c.next_ed ed ≡ first ys
    → (ep_unlink ed c).enabled ≡ (if first (xs ++ ys) == 0 then false else c.enabled)
unfolding ep_unlink
ep_unlink-enabled [] ed ys c apart b n = rw (b, n) refl
ep_unlink-enabled (x ∷ xs) ed ys c (nz, out, apart) b n =
    rw
      (
        b,
        last-nonzero x xs (nz, NotIn-left x xs (ed ∷ ys) out, AreApart-left xs (ed ∷ ys) apart),
        nz,
      )
      refl

-- From a list of endpoints, none of which is null or there twice, `ep_unlink` removes the endpoint
-- wherever it stands and leaves the others in their order, forwards and backwards; the list is then
-- enabled as before, or not at all where no endpoint is left.
pub ep_unlink-Holds :
    (xs : List ℕ) (ed : ℕ) (ys : List ℕ) (c : Chain)
    → Holds (xs ++ (ed ∷ ys)) c
    → Holds (xs ++ ys) (ep_unlink ed c)
      × ((ep_unlink ed c).enabled ≡ (if first (xs ++ ys) == 0 then false else c.enabled))
ep_unlink-Holds xs ed ys c h =
    let (b, n) = Links-at c.next_ed c.ed_prev 0 xs ed ys h.links in
    let (next, prev) = ep_unlink-fields c ed (last 0 xs) (first ys) b n in
    let end : c.tail ≡ last ed ys = h.at_tail ∙ last-right 0 xs ed ys in
    (
      record {
        apart = AreApart-drop xs ed ys h.apart;
        from_head = ep_unlink-head xs ed ys c h b n;
        at_tail = ep_unlink-tail xs ed ys c (AreApart-right xs (ed ∷ ys) h.apart).1 b end;
        links =
            Links-eq (ep_unlink ed c).next_ed (next_without c.next_ed (last 0 xs) (first ys))
              (ep_unlink ed c).ed_prev
              (prev_without c.ed_prev (c.tail == ed) (last 0 xs) (first ys)) 0 (xs ++ ys) next prev
              (Links-without c.next_ed c.ed_prev xs ed ys (c.tail == ed) (rw end refl) h.apart
                h.links);
      },
      ep_unlink-enabled xs ed ys c h.apart b n,
    )
