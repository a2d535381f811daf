-- ===== src/Ohci/Order.antt =====
-- The lists of endpoints in linux/kernel/drivers/usb/host/usb-ohci.c as sequences.
use jornada.Common.{ℕ, ◌≡◌, false, List, [], ◌∷◌, ◌++◌, ◌==◌, arith, refl, sym}
use jornada.Ohci.Lists.{Chain, update, ep_link}

abbrev pub first : List ℕ → ℕ
first [] = 0
first (x ∷ xs) = x

abbrev pub last : ℕ → List ℕ → ℕ
last p [] = p
last p (x ∷ xs) = last x xs

abbrev pub NotIn : ℕ → List ℕ → Type 0
NotIn a [] = Unit {0}
NotIn a (x ∷ xs) = ((x == a) ≡ false) × NotIn a xs

-- No endpoint is null, and none is there twice.
abbrev pub AreApart : List ℕ → Type 0
AreApart [] = Unit {0}
AreApart (x ∷ xs) = ((x == 0) ≡ false) × NotIn x xs × AreApart xs

-- The fields of the endpoints of a sequence, after the endpoint `p`.
abbrev pub Links : (ℕ → ℕ) → (ℕ → ℕ) → ℕ → List ℕ → Type 0
Links next prev p [] = Unit {0}
Links next prev p (x ∷ xs) = (prev x ≡ p) × (next x ≡ first xs) × Links next prev x xs

-- The list is the sequence, in order.
pub record Holds (xs : List ℕ) (c : Chain) : Type 0 where
  pub apart : AreApart xs
  pub from_head : c.head ≡ first xs
  pub at_tail : c.tail ≡ last 0 xs
  pub links : Links c.next_ed c.ed_prev 0 xs

pub Links-eq :
    (next next' prev prev' : ℕ → ℕ) (p : ℕ) (xs : List ℕ)
    → next ≡ next'
    → prev ≡ prev'
    → Links next' prev' p xs
    → Links next prev p xs
Links-eq next next' prev prev' p xs e f l = rw (e, f) l

-- A write at an endpoint outside a sequence leaves its fields.
Links-update_next :
    (next prev : ℕ → ℕ) (p a v : ℕ) (xs : List ℕ)
    → NotIn a xs
    → Links next prev p xs
    → Links (update next a v) prev p xs
Links-update_next next prev p a v [] out l = tt
Links-update_next next prev p a v (x ∷ xs) (ne, out) (b, n, l) =
    (b, rw ne n, Links-update_next next prev x a v xs out l)

Links-update_prev :
    (next prev : ℕ → ℕ) (p a v : ℕ) (xs : List ℕ)
    → NotIn a xs
    → Links next prev p xs
    → Links next (update prev a v) p xs
Links-update_prev next prev p a v [] out l = tt
Links-update_prev next prev p a v (x ∷ xs) (ne, out) (b, n, l) =
    (rw ne b, n, Links-update_prev next prev x a v xs out l)

pub last-ne : (a y : ℕ) (xs : List ℕ) → NotIn a (y ∷ xs) → (a == last y xs) ≡ false
last-ne a y [] (ne, _) = ground (arith, ne)
last-ne a y (x ∷ xs) (ne, out) = last-ne a x xs out

pub last-nonzero : (x : ℕ) (xs : List ℕ) → AreApart (x ∷ xs) → (last x xs == 0) ≡ false
last-nonzero x [] (nz, _, _) = nz
last-nonzero x (y ∷ xs) (_, _, h) = last-nonzero y xs h

NotIn-append :
    (a : ℕ) (xs : List ℕ) (ed : ℕ) → NotIn a xs → (ed == a) ≡ false → NotIn a (xs ++ (ed ∷ []))
NotIn-append a [] ed out ne = (ne, tt)
NotIn-append a (x ∷ xs) ed (nx, out) ne = (nx, NotIn-append a xs ed out ne)

-- Linking appends: the last endpoint of the sequence points to the new one.
Links-append :
    (next prev : ℕ → ℕ) (p ed : ℕ) (x : ℕ) (xs : List ℕ)
    → AreApart (x ∷ xs)
    → NotIn ed (x ∷ xs)
    → Links next prev p (x ∷ xs)
    → Links
        (update (update next ed 0) (last x xs) ed)
        (update prev ed (last x xs))
        p
        ((x ∷ xs) ++ (ed ∷ []))
Links-append next prev p ed x [] apart (ne, _) (b, n, l) = ground (arith, ne, b)
Links-append next prev p ed x (y ∷ xs) (nz, out, apart) (ne, outs) (b, n, l) =
    let elsewhere : (x == last y xs) ≡ false = last-ne x y xs out in
    (rw ne b, rw (elsewhere, ne) n, Links-append next prev x ed y xs apart outs l)

-- The fields after a link, into an empty list and after the endpoint `t`.
ep_link-first :
    (c : Chain) (ed : ℕ)
    → c.tail ≡ 0
    → ((ep_link ed c).next_ed ≡ update c.next_ed ed 0)
      × ((ep_link ed c).ed_prev ≡ update c.ed_prev ed 0)
unfolding ep_link
ep_link-first c ed e = (rw e refl, rw e refl)

ep_link-after :
    (c : Chain) (ed t : ℕ)
    → c.tail ≡ t
    → (t == 0) ≡ false
    → ((ep_link ed c).next_ed ≡ update (update c.next_ed ed 0) t ed)
      × ((ep_link ed c).ed_prev ≡ update c.ed_prev ed t)
unfolding ep_link
ep_link-after c ed t e nz = (rw (e, nz) refl, rw e refl)

ep_link-head :
    (xs : List ℕ) (c : Chain) (ed : ℕ) → Holds xs c → (ep_link ed c).head ≡ first (xs ++ (ed ∷ []))
unfolding ep_link
ep_link-head [] c ed h = rw h.at_tail refl
ep_link-head (x ∷ xs) c ed h = rw (h.at_tail, last-nonzero x xs h.apart) h.from_head

-- Linking an endpoint that is not in the list puts it at the end.
ep_link-Links :
    (xs : List ℕ) (c : Chain) (ed : ℕ)
    → Holds xs c
    → NotIn ed xs
    → (ed == 0) ≡ false
    → Links (ep_link ed c).next_ed (ep_link ed c).ed_prev 0 (xs ++ (ed ∷ []))
ep_link-Links [] c ed h out nz =
    let (next, prev) = ep_link-first c ed h.at_tail in
    Links-eq (ep_link ed c).next_ed (update c.next_ed ed 0) (ep_link ed c).ed_prev
      (update c.ed_prev ed 0) 0 (ed ∷ []) next prev (ground arith)
ep_link-Links (x ∷ xs) c ed h out nz =
    let (next, prev) = ep_link-after c ed (last x xs) h.at_tail (last-nonzero x xs h.apart) in
    Links-eq (ep_link ed c).next_ed (update (update c.next_ed ed 0) (last x xs) ed)
      (ep_link ed c).ed_prev (update c.ed_prev ed (last x xs)) 0 ((x ∷ xs) ++ (ed ∷ [])) next prev
      (Links-append c.next_ed c.ed_prev 0 ed x xs h.apart out h.links)

AreApart-append :
    (xs : List ℕ) (ed : ℕ)
    → AreApart xs
    → NotIn ed xs
    → (ed == 0) ≡ false
    → AreApart (xs ++ (ed ∷ []))
AreApart-append [] ed h out nz = (nz, tt, tt)
AreApart-append (x ∷ xs) ed (n, o, h) (ne, out) nz =
    (n, NotIn-append x xs ed o (ground (arith, ne)), AreApart-append xs ed h out nz)

last-append : (p : ℕ) (xs : List ℕ) (ed : ℕ) → last p (xs ++ (ed ∷ [])) ≡ ed
last-append p [] ed = refl
last-append p (x ∷ xs) ed = last-append x xs ed

-- To a list of endpoints, none of which is null or there twice, `ep_link` appends an endpoint that
-- is not in it and not null, forwards and backwards.
pub ep_link-Holds :
    (xs : List ℕ) (c : Chain) (ed : ℕ)
    → Holds xs c
    → NotIn ed xs
    → (ed == 0) ≡ false
    → Holds (xs ++ (ed ∷ [])) (ep_link ed c)
unfolding ep_link
ep_link-Holds xs c ed h out nz = record {
  apart = AreApart-append xs ed h.apart out nz;
  from_head = ep_link-head xs c ed h;
  at_tail = sym (last-append 0 xs ed);
  links = ep_link-Links xs c ed h out nz;
}
