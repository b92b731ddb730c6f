-- ===== src/Comm/Order.antt =====
-- The promise of the matching: nobody waits where a partner waits, and who came first is served
-- first.
use dimemas.Base.{
  ◌≡◌, refl, ap, sym, subst, ◌∙◌, ◌⊎◌, inl, inr, Bool, false, Option, none, some, List, [], ◌∷◌,
  ◌++◌, All, if◌then◌else◌, Bool-cases,
}
use dimemas.Comm.Base.{CommThread}
use dimemas.Comm.Spec.{Pending, take_first, behind, meet, receive, send, arrive}

pub All-map {ℓ κ} :
    {A : Type ℓ} {P Q : A → Type κ} (xs : List A) → ((x : A) → P x → Q x) → All P xs → All Q xs
All-map [] f all = tt
All-map (x ∷ xs) f (first, others) = (f x first, All-map xs f others)

pub All-append {ℓ κ} :
    {A : Type ℓ} (P : A → Type κ) (xs : List A) (y : A) → All P xs → P y → All P (xs ++ y ∷ [])
All-append P [] y all last = (last, tt)
All-append P (x ∷ xs) y (first, others) last = (first, All-append P xs y others last)

pub All-both {ℓ κ} :
    {A : Type ℓ} (P Q : A → Type κ) (xs : List A) → All P xs → All Q xs → All (λ x. P x × Q x) xs
All-both P Q [] p q = tt
All-both P Q (x ∷ xs) (p, ps) (q, qs) = ((p, q), All-both P Q xs ps qs)

pub Option-pair :
    (r : Option (CommThread × List CommThread))
    → (r ≡ none) ⊎ ((b : CommThread) × (rest : List CommThread) × (r ≡ some (b, rest)))
Option-pair none = inl refl
Option-pair (some (b, rest)) = inr (b, rest, refl)

-- What holds of all holds of the one that is taken and of the others.
pub take_first-All {κ} :
    (P : CommThread → Type κ) (test : CommThread → Bool) (xs : List CommThread) (b : CommThread)
    (rest : List CommThread)
    → All P xs
    → take_first test xs ≡ some (b, rest)
    → P b × All P rest
unfolding take_first
take_first-All P test [] b rest all is = cc
take_first-All P test (x ∷ xs) b rest (first, others) is = elim (Bool-cases (test x)) [
  | inl e ↦
      let taken : Path (Option (CommThread × List CommThread)) (some (x, xs)) (some (b, rest)) =
        sym (ap (λ t. if t then some (x, xs) else behind x (take_first test xs)) e) ∙ is in
      let x_b : x ≡ b = cc in
      let xs_rest : xs ≡ rest = cc in (subst P x_b first, subst (All P) xs_rest others)
  | inr e ↦
      let later : behind x (take_first test xs) ≡ some (b, rest) =
        sym (ap (λ t. if t then some (x, xs) else behind x (take_first test xs)) e) ∙ is in
      elim (Option-pair (take_first test xs)) [
        | inl f ↦
            let never : Path (Option (CommThread × List CommThread)) none (some (b, rest)) =
              sym (ap (behind x) f) ∙ later in
            cc
        | inr (y, ys, f) ↦
            let found : Path (Option (CommThread × List CommThread)) (some (y, x ∷ ys))
                (some (b, rest)) =
              sym (ap (behind x) f) ∙ later in
            let y_b : y ≡ b = cc in
            let ys_rest : x ∷ ys ≡ rest = cc in
            let (p, ps) = take_first-All P test xs y ys others f in
            (subst P y_b p, subst (All P) ys_rest (first, ps))
      ]
]

-- Nobody passes the test.
pub take_first-none :
    (test : CommThread → Bool) (xs : List CommThread)
    → take_first test xs ≡ none
    → All (λ b. test b ≡ false) xs
unfolding take_first
take_first-none test [] is = tt
take_first-none test (x ∷ xs) is = elim (Bool-cases (test x)) [
  | inl e ↦
      let taken : Path (Option (CommThread × List CommThread)) (some (x, xs)) none =
        sym (ap (λ t. if t then some (x, xs) else behind x (take_first test xs)) e) ∙ is in
      cc
  | inr e ↦
      let later : behind x (take_first test xs) ≡ none =
        sym (ap (λ t. if t then some (x, xs) else behind x (take_first test xs)) e) ∙ is in
      (e, take_first-none test xs (nothing_behind (take_first test xs) later))
]
  where
    nothing_behind : (r : Option (CommThread × List CommThread)) → behind x r ≡ none → r ≡ none
    nothing_behind none later = refl
    nothing_behind (some r) later = cc

-- No send meets a receive.
abbrev pub NoneMeet : Pending → Type 0
NoneMeet p = All (λ a. All (λ b. meet a b ≡ false) p.received) p.sent

pub receive-NoneMeet :
    (thread : CommThread) (p : Pending) → NoneMeet p → NoneMeet (receive thread p).0
unfolding arrive
receive-NoneMeet thread p alone = elim (Option-pair (take_first (λ b. meet b thread) p.sent)) [
  | inr (b, rest, is) ↦
      rw is
        (take_first-All (λ a. All (λ c. meet a c ≡ false) p.received) (λ b. meet b thread) p.sent b
          rest alone is).1
  | inl is ↦
      let absent = take_first-none (λ b. meet b thread) p.sent is in
      rw is (
        All-map p.sent
          (λ a (others, last). All-append (λ c. meet a c ≡ false) p.received thread others last)
          (All-both (λ a. All (λ c. meet a c ≡ false) p.received) (λ a. meet a thread ≡ false)
            p.sent alone absent))
]

pub send-NoneMeet : (thread : CommThread) (p : Pending) → NoneMeet p → NoneMeet (send thread p).0
unfolding arrive
send-NoneMeet thread p alone = elim (Option-pair (take_first (λ b. meet thread b) p.received)) [
  | inr (b, rest, is) ↦ rw is (
      All-map p.sent
        (λ a others.
          (take_first-All (λ c. meet a c ≡ false) (λ b. meet thread b) p.received b rest others
            is).1)
        alone)
  | inl is ↦
      let absent = take_first-none (λ b. meet thread b) p.received is in
      rw is (All-append (λ a. All (λ c. meet a c ≡ false) p.received) p.sent thread alone absent)
]
