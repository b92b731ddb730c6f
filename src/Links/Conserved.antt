-- ===== src/Links/Conserved.antt =====
-- Simulator/model/links.c: the links of an owner are free or busy, and none is lost or made.
use dimemas.Base.{
  ℕ, suc, ◌+◌, ◌≡◌, refl, sym, subst, ◌∙◌, ◌≢◌, inl, inr, true, List, [], ◌∷◌, ◌++◌, All, length,
  ◌==◌, ==_iff, if◌then◌else◌, Bool-cases, arith,
}
use dimemas.Queue.{Ptr, a_nil, Item}
use dimemas.Queue.Emptying.{without, holds}
use dimemas.Links.Base.{
  Dir, other, Owner, free, busy, LinkThread, LinkState, on_owner, on_thread, known_policy,
}

-- How often a pointer stands in a queue.
abbrev pub copies : Ptr → List (Item Unit) → ℕ
copies c [] = 0
copies c (x ∷ xs) = (if x.content == c then 1 else 0) + copies c xs

-- How often a link of a direction is in the queues of an owner.
abbrev pub held : Dir → Ptr → Owner → ℕ
held d c o = copies c (free d o).items + copies c (busy d o).items

abbrev pub Counts : Owner → Owner → Type 0
Counts o o' = (d : Dir) (c : Ptr) → held d c o' ≡ held d c o

-- Two states of an owner with the same links.
pub record SameLinks (o o' : Owner) : Type 0 where
  pub counts : Counts o o'
  pub ident : o'.ident ≡ o.ident
  pub duplex : o'.half_duplex ≡ o.half_duplex

pub SameLinks-refl : (o : Owner) → SameLinks o o
SameLinks-refl o = record { counts = λ d c. refl; ident = refl; duplex = refl }

pub SameLinks-trans : (o o₁ o₂ : Owner) → SameLinks o o₁ → SameLinks o₁ o₂ → SameLinks o o₂
SameLinks-trans o o₁ o₂ first second = record {
  counts = λ d c. second.counts d c ∙ first.counts d c;
  ident = second.ident ∙ first.ident;
  duplex = second.duplex ∙ first.duplex;
}

-- No free link is NULL.
abbrev pub Known : List (Item Unit) → Type 0
Known = All (λ x. x.content ≢ a_nil)

-- With half duplex links, as many links are free in the one direction as in the other. (A dedicated
-- connection has no policy of its own: its field is not read.)
pub record OwnerOk (o : Owner) : Type 0 where
  pub policy : known_policy o.policy ≡ true
  pub known : (d : Dir) → Known (free d o).items
  pub paired :
      o.half_duplex ≡ true → (d : Dir) → length (free d o).items ≡ length (free (other d) o).items

pub record StateOk {S : Type 0} (s : LinkState S) : Type 0 where
  pub owners : (p : Ptr) → OwnerOk (s.owners p)
  pub policies : (th : Ptr) → known_policy (s.threads th).policy ≡ true

-- The state after a step is in order, and every owner has the links that it had.
pub record Kept {S : Type 0} (s s' : LinkState S) : Type 0 where
  pub good : StateOk s'
  pub same : (p : Ptr) → SameLinks (s.owners p) (s'.owners p)
  pub nodes : s'.infinite_mem_links ≡ s.infinite_mem_links

pub Kept-trans : {S : Type 0} {r s t : LinkState S} → Kept r s → Kept s t → Kept r t
Kept-trans {S} {r} {s} {t} k l = record {
  good = l.good;
  same = λ p. SameLinks-trans (r.owners p) (s.owners p) (t.owners p) (k.same p) (l.same p);
  nodes = l.nodes ∙ k.nodes;
}

pub Kept-refl : {S : Type 0} (s : LinkState S) → StateOk s → Kept s s
Kept-refl s good = record { good = good; same = λ p. SameLinks-refl (s.owners p); nodes = refl }

-- A change of one owner.
pub on_owner-Kept :
    {S : Type 0} (s : LinkState S) (p : Ptr) (change : Owner → Owner)
    → StateOk s
    → OwnerOk (change (s.owners p))
    → SameLinks (s.owners p) (change (s.owners p))
    → Kept s (on_owner p change s)
on_owner-Kept s p change good fine same = record {
  good = record {
    owners = λ q. elim (Bool-cases (q == p)) [ inl e ↦ rw e fine | inr e ↦ rw e (good.owners q) ];
    policies = good.policies;
  };
  same = λ q. elim (Bool-cases (q == p)) [
    | inl e ↦
        let p_q : p ≡ q = sym ((==_iff q p).0 e) in
        rw e (subst (λ r. SameLinks (s.owners r) (change (s.owners p))) p_q same)
    | inr e ↦ rw e (SameLinks-refl (s.owners q))
  ];
  nodes = refl;
}

-- A change of a thread that leaves its policy.
pub on_thread-Kept :
    {S : Type 0} (s : LinkState S) (th : Ptr) (change : LinkThread → LinkThread)
    → StateOk s
    → (change (s.threads th)).policy ≡ (s.threads th).policy
    → Kept s (on_thread th change s)
on_thread-Kept s th change good same = record {
  good = record {
    owners = good.owners;
    policies = λ q. elim (Bool-cases (q == th)) [
      | inl e ↦ rw (e, same) (good.policies th)
      | inr e ↦ rw e (good.policies q)
    ];
  };
  same = λ p. SameLinks-refl (s.owners p);
  nodes = refl;
}

pub copies-append_one :
    (c l : Ptr) (xs : List (Item Unit))
    → copies c (xs ++ record { order = tt; content = l } ∷ [])
      ≡ copies c xs + (if l == c then 1 else 0)
copies-append_one c l [] = omega arith
copies-append_one c l (x ∷ xs) = omega (arith, copies-append_one c l xs)

pub copies-without :
    (c l : Ptr) (xs : List (Item Unit))
    → holds l xs ≡ true
    → copies c xs ≡ copies c (without l xs) + (if l == c then 1 else 0)
copies-without c l [] h = cc
copies-without c l (x ∷ xs) h = elim (Bool-cases (x.content == l)) [
  | inl e ↦ let same : x.content ≡ l = (==_iff x.content l).0 e in rw (e, same) (omega arith)
  | inr e ↦
      let h' : holds l xs ≡ true = ground arith in
      let ih = copies-without c l xs h' in rw e (omega (arith, ih))
]

-- What the move of a free link to the busy ones leaves.
pub record Taken (d : Dir) (o o' : Owner) : Type 0 where
  pub policy : o'.policy ≡ o.policy
  pub duplex : o'.half_duplex ≡ o.half_duplex
  pub same : SameLinks o o'
  pub known : (e : Dir) → Known (free e o').items
  pub one_less : length (free d o).items ≡ suc (length (free d o').items)
  pub others : length (free (other d) o').items ≡ length (free (other d) o).items
