-- ===== src/Queue/Holding.antt =====
-- Simulator/utils/list.c: which contents a chain holds after a change.
use dimemas.Base.{
  ◌≡◌, refl, ap, sym, ◌∙◌, inl, inr, true, false, List, [], ◌∷◌, ◌++◌, ◌==◌, ==_self, if◌then◌else◌,
  Bool-cases,
}
use dimemas.Queue.Base.{Ptr, Item}
use dimemas.Queue.Emptying.{without, holds}

-- What is not held is not at the front.
pub holds-tail :
    (p : Ptr) (x : Item Unit) (xs : List (Item Unit))
    → holds p (x ∷ xs) ≡ false
    → ((x.content == p) ≡ false) × (holds p xs ≡ false)
holds-tail p x xs absent = elim (Bool-cases (x.content == p)) [
  | inl e ↦ let here : holds p (x ∷ xs) ≡ true = rw e refl in cc
  | inr e ↦ (e, sym (ap (λ b. if b then true else holds p xs) e) ∙ absent)
]

pub holds-without :
    (p c : Ptr) (items : List (Item Unit))
    → holds p items ≡ false
    → holds p (without c items) ≡ false
holds-without p c [] absent = refl
holds-without p c (x ∷ xs) absent = elim (Bool-cases (x.content == p)) [
  | inl e ↦ let here : holds p (x ∷ xs) ≡ true = rw e in cc
  | inr e ↦
      let absent' : holds p xs ≡ false =
        sym (ap (λ b. if b then true else holds p xs) e) ∙ absent in
      elim (Bool-cases (x.content == c)) [
        | inl s ↦ rw s absent'
        | inr s ↦ rw (s, e) (holds-without p c xs absent')
      ]
]

pub holds-append :
    (c d : Ptr) (items : List (Item Unit))
    → holds c items ≡ false
    → (d == c) ≡ false
    → holds c (items ++ record { order = tt; content = d } ∷ []) ≡ false
holds-append c d [] absent off = rw off
holds-append c d (x ∷ xs) absent off = elim (Bool-cases (x.content == c)) [
  | inl e ↦ let here : holds c (x ∷ xs) ≡ true = rw e in cc
  | inr e ↦
      rw e (holds-append c d xs (sym (ap (λ b. if b then true else holds c xs) e) ∙ absent) off)
]

pub holds-last :
    (p : Ptr) (items : List (Item Unit))
    → holds p (items ++ record { order = tt; content = p } ∷ []) ≡ true
holds-last p [] = rw (==_self p)
holds-last p (x ∷ xs) = elim (Bool-cases (x.content == p)) [
  | inl e ↦ rw e
  | inr e ↦ rw e (holds-last p xs)
]
