-- ===== src/Comm/Boxes.antt =====
-- Simulator/model/communic.c: the two queues of a site stand for the sends and the receives that
-- have no partner.
use dimemas.Base.{
  ◌≡◌, refl, ap, sym, subst, ◌∙◌, ◌≢◌, inl, inr, true, false, none, some, List, [], ◌∷◌, ◌++◌, ◌==◌,
  ==_iff, ==_self, Bool-cases,
}
use dimemas.Queue.{Ptr, a_nil, Item, Cursor, Queue, in_fifo_queue}
use dimemas.Queue.Emptying.{without, holds}
use dimemas.Queue.Holding.{holds-without, holds-append}
use dimemas.Comm.Base.{CommThread, Mailbox}
use dimemas.Comm.Posting.{Kind, sends, recvs, opposite, unmatched, with_unmatched}
use dimemas.Comm.Spec.{Pending, pending, with_pending}
use dimemas.Comm.Listed.{Blocks, put_block, Lists, Lists-put, Lists-append, Lists-fresh, Found}

pub record BoxFor (blocks : Blocks) (box : Mailbox) (p : Pending) : Type 0 where
  pub listed : (k : Kind) → Lists blocks (unmatched k box).items (pending k p)
  pub apart :
      (k : Kind) (c : Ptr)
      → holds c (unmatched k box).items ≡ true
      → holds c (unmatched (opposite k) box).items ≡ false

-- The cursor of a queue does not matter.
pub looked-BoxFor :
    (k : Kind) (c : Cursor) (blocks : Blocks) (box : Mailbox) (p : Pending)
    → BoxFor blocks box p
    → BoxFor blocks (with_unmatched k (record (unmatched k box) { curr = c }) box) p
looked-BoxFor sends c blocks box p good = record {
  listed = elim [ sends ↦ good.listed sends | recvs ↦ good.listed recvs ];
  apart = elim [ sends ↦ good.apart sends | recvs ↦ good.apart recvs ];
}
looked-BoxFor recvs c blocks box p good = record {
  listed = elim [ sends ↦ good.listed sends | recvs ↦ good.listed recvs ];
  apart = elim [ sends ↦ good.apart sends | recvs ↦ good.apart recvs ];
}

still_held : (c p : Ptr) (xs : List (Item Unit)) → holds c (without p xs) ≡ true → holds c xs ≡ true
still_held c p xs held = elim (Bool-cases (holds c xs)) [
  | inl e ↦ e
  | inr e ↦ let never = holds-without c p xs e in cc
]

removed_apart :
    (p : Ptr) (xs ys zs : List (Item Unit))
    → ys ≡ without p xs
    → ((c : Ptr) → holds c xs ≡ true → holds c zs ≡ false)
    → (c : Ptr) → holds c ys ≡ true
    → holds c zs ≡ false
removed_apart p xs ys zs less apart c held =
    apart c (still_held c p xs (ap (holds c) (sym less) ∙ held))

removed_apart_back :
    (p : Ptr) (xs ys zs : List (Item Unit))
    → ys ≡ without p xs
    → ((c : Ptr) → holds c zs ≡ true → holds c xs ≡ false)
    → (c : Ptr) → holds c zs ≡ true
    → holds c ys ≡ false
removed_apart_back p xs ys zs less apart c held =
    ap (holds c) less ∙ holds-without c p xs (apart c held)

-- A partner leaves its queue and is freed.
pub removed-BoxFor :
    (k : Kind) (blocks : Blocks) (box : Mailbox) (p : Pending) (a : Ptr) (b : CommThread)
    (rest : List CommThread) (q : Queue Unit)
    → BoxFor blocks box p
    → Found blocks (unmatched k box).items a b rest
    → q.items ≡ without a (unmatched k box).items
    → BoxFor (put_block blocks a none) (with_unmatched k q box) (with_pending k rest p)
removed-BoxFor sends blocks box p a b rest q good found less =
    let xs = box.send_without_recv.items in
    let zs = box.recv_without_send.items in
    record {
      listed = elim [
        | sends ↦
            subst (λ ys. Lists (put_block blocks a none) ys rest) (sym less)
              (Lists-put blocks a none (without a xs) rest found.others found.gone)
        | recvs ↦
            Lists-put blocks a none zs p.received (good.listed recvs)
              (good.apart sends a found.held)
      ];
      apart = elim [
        | sends ↦ removed_apart a xs q.items zs less (good.apart sends)
        | recvs ↦ removed_apart_back a xs q.items zs less (good.apart recvs)
      ];
    }
removed-BoxFor recvs blocks box p a b rest q good found less =
    let xs = box.recv_without_send.items in
    let zs = box.send_without_recv.items in
    record {
      listed = elim [
        | recvs ↦
            subst (λ ys. Lists (put_block blocks a none) ys rest) (sym less)
              (Lists-put blocks a none (without a xs) rest found.others found.gone)
        | sends ↦
            Lists-put blocks a none zs p.sent (good.listed sends) (good.apart recvs a found.held)
      ];
      apart = elim [
        | recvs ↦ removed_apart a xs q.items zs less (good.apart recvs)
        | sends ↦ removed_apart_back a xs q.items zs less (good.apart sends)
      ];
    }

abbrev with_last : List (Item Unit) → Ptr → List (Item Unit)
with_last xs a = xs ++ record { order = tt; content = a } ∷ []

appended_apart :
    (a : Ptr) (xs zs : List (Item Unit))
    → holds a zs ≡ false
    → ((c : Ptr) → holds c xs ≡ true → holds c zs ≡ false)
    → (c : Ptr) → holds c (with_last xs a) ≡ true
    → holds c zs ≡ false
appended_apart a xs zs absent apart c held = elim (Bool-cases (holds c xs)) [
  | inl e ↦ apart c e
  | inr e ↦ elim (Bool-cases (a == c)) [
    | inl same ↦ subst (λ d. holds d zs ≡ false) ((==_iff a c).0 same) absent
    | inr off ↦ let never = holds-append c a xs e off in cc
  ]
]

appended_apart_back :
    (a : Ptr) (xs zs : List (Item Unit))
    → holds a zs ≡ false
    → ((c : Ptr) → holds c zs ≡ true → holds c xs ≡ false)
    → (c : Ptr) → holds c zs ≡ true
    → holds c (with_last xs a) ≡ false
appended_apart_back a xs zs absent apart c held = elim (Bool-cases (a == c)) [
  | inl same ↦ let absent' = subst (λ d. holds d zs ≡ false) ((==_iff a c).0 same) absent in cc
  | inr off ↦ holds-append c a xs (apart c held) off
]

-- A new thread is the last one of its queue.
pub appended-BoxFor :
    (k : Kind) (blocks : Blocks) (box : Mailbox) (p : Pending) (a : Ptr) (b : CommThread)
    → BoxFor blocks box p
    → a ≢ a_nil
    → blocks a ≡ none
    → BoxFor
        (put_block blocks a (some b))
        (with_unmatched k (in_fifo_queue tt (unmatched k box) a) box)
        (with_pending k (pending k p ++ b ∷ []) p)
unfolding in_fifo_queue
appended-BoxFor sends blocks box p a b good known free =
    let xs = box.send_without_recv.items in
    let zs = box.recv_without_send.items in
    let absent = Lists-fresh blocks a xs p.sent (good.listed sends) free in
    let absent' = Lists-fresh blocks a zs p.received (good.listed recvs) free in
    let here : put_block blocks a (some b) a ≡ some b = rw (==_self a) refl in
    record {
      listed = elim [
        | sends ↦
            Lists-append (put_block blocks a (some b)) a b xs p.sent
              (Lists-put blocks a (some b) xs p.sent (good.listed sends) absent) known here absent
        | recvs ↦ Lists-put blocks a (some b) zs p.received (good.listed recvs) absent'
      ];
      apart = elim [
        | sends ↦ appended_apart a xs zs absent' (good.apart sends)
        | recvs ↦ appended_apart_back a xs zs absent' (good.apart recvs)
      ];
    }
appended-BoxFor recvs blocks box p a b good known free =
    let xs = box.recv_without_send.items in
    let zs = box.send_without_recv.items in
    let absent = Lists-fresh blocks a xs p.received (good.listed recvs) free in
    let absent' = Lists-fresh blocks a zs p.sent (good.listed sends) free in
    let here : put_block blocks a (some b) a ≡ some b = rw (==_self a) refl in
    record {
      listed = elim [
        | recvs ↦
            Lists-append (put_block blocks a (some b)) a b xs p.received
              (Lists-put blocks a (some b) xs p.received (good.listed recvs) absent) known here
              absent
        | sends ↦ Lists-put blocks a (some b) zs p.sent (good.listed sends) absent'
      ];
      apart = elim [
        | recvs ↦ appended_apart a xs zs absent' (good.apart recvs)
        | sends ↦ appended_apart_back a xs zs absent' (good.apart sends)
      ];
    }
