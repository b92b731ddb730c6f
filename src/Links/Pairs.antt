-- ===== src/Links/Pairs.antt =====
-- Simulator/model/links.c: with half duplex links, a link and its pair move together.
use dimemas.Base.{suc, ◌≡◌, refl, ap, sym, ◌∙◌, ◌≢◌, inl, inr, true, false, length, arith}
use dimemas.Queue.{Ptr, a_nil}
use dimemas.Links.Base.{Dir, in_link, out_link, other, Owner, free}
use dimemas.Links.Acquire.{move_first}
use dimemas.Links.Conserved.{OwnerOk, Taken, Known}
use dimemas.Links.Moves.{move_first-Taken}

pub other_twice : (d : Dir) → other (other d) ≡ d
other_twice in_link = refl
other_twice out_link = refl

both_ways :
    (d : Dir) (o : Owner)
    → length (free d o).items ≡ length (free (other d) o).items
    → (e : Dir) → length (free e o).items ≡ length (free (other e) o).items
both_ways in_link o same in_link = same
both_ways in_link o same out_link = sym same
both_ways out_link o same in_link = sym same
both_ways out_link o same out_link = same

-- One link moves, and the links are not half duplex.
pub single-OwnerOk :
    (d : Dir) (o o' : Owner) → OwnerOk o → o.half_duplex ≡ false → Taken d o o' → OwnerOk o'
single-OwnerOk d o o' good single taken = record {
  policy = rw taken.policy good.policy;
  known = taken.known;
  paired = λ half e. let never : false ≡ true = sym single ∙ sym taken.duplex ∙ half in cc;
}

pub returned-OwnerOk :
    (d : Dir) (o o' : Owner)
    → OwnerOk o
    → o.half_duplex ≡ false
    → Taken d o' o
    → ((e : Dir) → Known (free e o').items)
    → OwnerOk o'
returned-OwnerOk d o o' good single taken known = record {
  policy = rw (sym taken.policy) good.policy;
  known = known;
  paired = λ half e. let never : false ≡ true = sym single ∙ taken.duplex ∙ half in cc;
}

-- The lengths after both moves.
lengths :
    (d : Dir) (o o₁ o₂ : Owner)
    → length (free d o).items ≡ length (free (other d) o).items
    → Taken d o o₁
    → Taken (other d) o₁ o₂
    → length (free d o₂).items ≡ length (free (other d) o₂).items
lengths in_link o o₁ o₂ same first second =
    let h₁ = first.one_less in
    let h₂ = first.others in let h₃ = second.one_less in let h₄ = second.others in omega arith
lengths out_link o o₁ o₂ same first second =
    let h₁ = first.one_less in
    let h₂ = first.others in let h₃ = second.one_less in let h₄ = second.others in omega arith

lengths_back :
    (d : Dir) (o o₁ o₂ : Owner)
    → length (free d o).items ≡ length (free (other d) o).items
    → Taken d o₁ o
    → Taken (other d) o₂ o₁
    → length (free d o₂).items ≡ length (free (other d) o₂).items
lengths_back in_link o o₁ o₂ same first second =
    let h₁ = first.one_less in
    let h₂ = first.others in let h₃ = second.one_less in let h₄ = second.others in omega arith
lengths_back out_link o o₁ o₂ same first second =
    let h₁ = first.one_less in
    let h₂ = first.others in let h₃ = second.one_less in let h₄ = second.others in omega arith

pub pair-OwnerOk :
    (d : Dir) (o o₁ o₂ : Owner) → OwnerOk o → Taken d o o₁ → Taken (other d) o₁ o₂ → OwnerOk o₂
pair-OwnerOk d o o₁ o₂ good first second = record {
  policy = rw (second.policy, first.policy) good.policy;
  known = second.known;
  paired = λ half.
      let half₀ : o.half_duplex ≡ true = sym first.duplex ∙ sym second.duplex ∙ half in
      both_ways d o₂ (lengths d o o₁ o₂ (good.paired half₀ d) first second);
}

pub returned_pair-OwnerOk :
    (d : Dir) (o o₁ o₂ : Owner)
    → OwnerOk o
    → Taken d o₁ o
    → Taken (other d) o₂ o₁
    → ((e : Dir) → Known (free e o₂).items)
    → OwnerOk o₂
returned_pair-OwnerOk d o o₁ o₂ good first second known = record {
  policy = rw (sym second.policy, sym first.policy) good.policy;
  known = known;
  paired = λ half.
      let half₀ : o.half_duplex ≡ true = first.duplex ∙ second.duplex ∙ half in
      both_ways d o₂ (lengths_back d o o₁ o₂ (good.paired half₀ d) first second);
}

-- Where a link is free, its pair is.
pub move_pair-Taken :
    (d : Dir) (o o₁ : Owner)
    → OwnerOk o
    → o.half_duplex ≡ true
    → Taken d o o₁
    → (o₂ : Owner) × (pair : Ptr) × (move_first (other d) o₁ ≡ (o₂, pair))
      × (pair ≢ a_nil)
      × Taken (other d) o₁ o₂
move_pair-Taken d o o₁ good half first = elim (move_first-Taken (other d) o₁ first.known) [
  | inl (failed, empty) ↦
      let h₁ = first.one_less in
      let h₂ = first.others in
      let h₃ = good.paired half d in
      let h₄ : length (free (other d) o₁).items ≡ 0 = ap length empty in
      let never : 0 ≡ suc (length (free d o₁).items) = omega arith in cc
  | inr found ↦ found
]
