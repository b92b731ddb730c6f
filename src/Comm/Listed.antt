-- ===== src/Comm/Listed.antt =====
-- Simulator/model/communic.c: a queue of threads as the list of the threads that it leads to.
use dimemas.Base.{
  ℕ, ◌+◌, ◌≡◌, refl, ap, sym, subst, ◌∙◌, ◌≢◌, ◌⊎◌, inl, inr, Bool, true, false, Option, none, some,
  List, [], ◌∷◌, ◌++◌, ◌==◌, ==_iff, ==_self, ==_ne, if◌then◌else◌, Bool-cases, Outcome, ok, All,
}
use dimemas.Queue.{Ptr, a_nil, Item, Cursor, null, at}
use dimemas.Queue.Emptying.{without, holds}
use dimemas.Queue.Holding.{holds-tail, holds-without, holds-append}
use dimemas.Comm.Base.{CommThread, find_from}
use dimemas.Comm.Spec.{take_first}

abbrev pub Blocks : Type 0
Blocks = Ptr → Option CommThread

abbrev pub put_block : Blocks → Ptr → Option CommThread → Blocks
put_block blocks p b q = if q == p then b else blocks q

-- The contents of the queue are different addresses of the threads of the list.
abbrev pub Lists : Blocks → List (Item Unit) → List CommThread → Type 0
Lists blocks [] [] = Unit
Lists blocks [] (b ∷ bs) = ⊥
Lists blocks (x ∷ xs) [] = ⊥
Lists blocks (x ∷ xs) (b ∷ bs) =
    (x.content ≢ a_nil)
    × (blocks x.content ≡ some b)
    × (holds x.content xs ≡ false)
    × Lists blocks xs bs

-- A change of a block that no item leads to.
pub Lists-put :
    (blocks : Blocks) (p : Ptr) (b : Option CommThread) (xs : List (Item Unit))
    (bs : List CommThread)
    → Lists blocks xs bs
    → holds p xs ≡ false
    → Lists (put_block blocks p b) xs bs
Lists-put blocks p b [] [] listed absent = tt
Lists-put blocks p b [] (c ∷ cs) listed absent = elim listed [ ]
Lists-put blocks p b (x ∷ xs) [] listed absent = elim listed [ ]
Lists-put blocks p b (x ∷ xs) (c ∷ cs) (known, is, apart, others) absent =
    let (off, absent') = holds-tail p x xs absent in
    (known, rw off is, apart, Lists-put blocks p b xs cs others absent')

-- A new block at the end.
pub Lists-append :
    (blocks : Blocks) (p : Ptr) (b : CommThread) (xs : List (Item Unit)) (bs : List CommThread)
    → Lists blocks xs bs
    → p ≢ a_nil
    → blocks p ≡ some b
    → holds p xs ≡ false
    → Lists blocks (xs ++ record { order = tt; content = p } ∷ []) (bs ++ b ∷ [])
Lists-append blocks p b [] [] listed known is absent = (known, is, refl, tt)
Lists-append blocks p b [] (c ∷ cs) listed known is absent = elim listed [ ]
Lists-append blocks p b (x ∷ xs) [] listed known is absent = elim listed [ ]
Lists-append blocks p b (x ∷ xs) (c ∷ cs) (known', is', apart, others) known is absent =
    let (off, absent') = holds-tail p x xs absent in
    let off' : (p == x.content) ≡ false =
      ==_ne p x.content (λ s. let there = (==_iff x.content p).1 (sym s) in cc) in
    (
      known',
      is',
      holds-append x.content p xs apart off',
      Lists-append blocks p b xs cs others known is absent',
    )

-- An address that is not allocated stands in no item.
pub Lists-fresh :
    (blocks : Blocks) (p : Ptr) (xs : List (Item Unit)) (bs : List CommThread)
    → Lists blocks xs bs
    → blocks p ≡ none
    → holds p xs ≡ false
Lists-fresh blocks p [] [] listed free = refl
Lists-fresh blocks p [] (c ∷ cs) listed free = elim listed [ ]
Lists-fresh blocks p (x ∷ xs) [] listed free = elim listed [ ]
Lists-fresh blocks p (x ∷ xs) (c ∷ cs) (known, is, apart, others) free =
    elim (Bool-cases (x.content == p)) [
      | inl e ↦
          let same : x.content ≡ p = (==_iff x.content p).0 e in
          let both : none ≡ some c = sym free ∙ sym (ap blocks same) ∙ is in cc
      | inr e ↦ rw e (Lists-fresh blocks p xs cs others free)
    ]

-- The test of a search comes to a Boolean on the threads that are in the queue.
abbrev pub Tests : (CommThread → Outcome Bool) → (CommThread → Bool) → List CommThread → Type 0
Tests test pure bs = All (λ b. test b ≡ ok (pure b)) bs

-- The first thread that passes the test, and the queue without it.
pub record Found (blocks : Blocks) (xs : List (Item Unit)) (p : Ptr) (b : CommThread)
    (rest : List CommThread) : Type 0 where
  pub known : p ≢ a_nil
  pub held : holds p xs ≡ true
  pub is : blocks p ≡ some b
  pub gone : holds p (without p xs) ≡ false
  pub others : Lists blocks (without p xs) rest

abbrev pub Search :
    Blocks
    → List (Item Unit)
    → Outcome (Cursor × Ptr)
    → Option (CommThread × List CommThread)
    → Type 0
Search blocks xs run result =
    ((c : Cursor) × (run ≡ ok (c, a_nil)) × (result ≡ none))
    ⊎ ((c : Cursor) × (p : Ptr) × (b : CommThread) × (rest : List CommThread) × (run ≡ ok (c, p))
        × (result ≡ some (b, rest))
        × Found blocks xs p b rest)

pub find_from-Search :
    (test : CommThread → Outcome Bool) (pure : CommThread → Bool) (blocks : Blocks) (i : ℕ)
    (xs : List (Item Unit)) (bs : List CommThread)
    → Lists blocks xs bs
    → Tests test pure bs
    → Search blocks xs (find_from test blocks i xs) (take_first pure bs)
unfolding find_from take_first
find_from-Search test pure blocks i [] [] listed tests = inl (null, refl, refl)
find_from-Search test pure blocks i [] (c ∷ cs) listed tests = elim listed [ ]
find_from-Search test pure blocks i (x ∷ xs) [] listed tests = elim listed [ ]
find_from-Search test pure blocks i (x ∷ xs) (b ∷ bs) (known, is, apart, others) (first, tests) =
    let away = ==_ne x.content a_nil known in
    elim (Bool-cases (pure b)) [
      | inl e ↦ inr (
        at i,
        x.content,
        b,
        bs,
        rw (away, is, first, e) refl,
        rw e refl,
        record {
          known = known;
          held = rw (==_self x.content) refl;
          is = is;
          gone = rw (==_self x.content) apart;
          others = rw (==_self x.content) others;
        },
      )
      | inr e ↦ elim (find_from-Search test pure blocks (i + 1) xs bs others tests) [
        | inl (c, run, result) ↦ inl (c, rw (away, is, first, e) run, rw (e, result) refl)
        | inr (c, p, found, rest, run, result, good) ↦
            let off : (x.content == p) ≡ false = ==_ne x.content p (λ same.
              let held = subst (λ q. holds q xs ≡ false) same apart in
              let there = good.held in cc) in
            inr (
              c,
              p,
              found,
              b ∷ rest,
              rw (away, is, first, e) run,
              rw (e, result) refl,
              record {
                known = good.known;
                held = rw off good.held;
                is = good.is;
                gone = rw (off, off) good.gone;
                others = rw off (known, is, holds-without x.content p xs apart, good.others);
              },
            )
      ]
    ]
