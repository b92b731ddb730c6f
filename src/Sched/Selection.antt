-- ===== src/Sched/Selection.antt =====
-- Simulator/sched/schedule.c: which CPU a thread gets.
use dimemas.Base.{
  ℕ, suc, ◌<◌, ◌≡◌, refl, ap, sym, ◌∙◌, ◌≢◌, ◌⊎◌, inl, inr, Bool, true, false, Option, some, List,
  [], ◌∷◌, All, ◌==◌, ==_iff, ==_self, ==_ne, if◌then◌else◌, Bool-cases, ok, arith,
}
use dimemas.Queue.{Ptr, a_nil, Item, Cursor, null, at}
use dimemas.Queue.Emptying.{holds}
use dimemas.Sched.Dispatch.{
  Cpu, NodeState, is_free, has_affinity, look_for, num_free_cpu, looked_at, select_free_cpu,
}

abbrev pub Cpus : Type 0
Cpus = Ptr → Option Cpu

-- The items of the queue lead to CPUs.
abbrev pub InPlace : Cpus → List (Item Unit) → Type 0
InPlace cpus = All (λ x. (x.content ≢ a_nil) × ((c : Cpu) × (cpus x.content ≡ some c)))

-- No CPU of the queue passes the test.
abbrev pub NonePasses : (Cpu → Bool) → Cpus → List (Item Unit) → Type 0
NonePasses test cpus = All (λ x. (c : Cpu) × (cpus x.content ≡ some c) × (test c ≡ false))

-- The CPU is one of the queue that passes the test.
abbrev pub Passes : (Cpu → Bool) → Cpus → List (Item Unit) → Ptr → Type 0
Passes test cpus items p =
    (p ≢ a_nil) × (holds p items ≡ true) × ((c : Cpu) × (cpus p ≡ some c) × (test c ≡ true))

look_for-Passes :
    (test : Cpu → Bool) (cpus : Cpus) (i : ℕ) (items : List (Item Unit))
    → InPlace cpus items
    → (c : Cursor) × (p : Ptr) × (look_for test cpus i items ≡ ok (c, p))
      × (((p ≡ a_nil) × NonePasses test cpus items) ⊎ Passes test cpus items p)
unfolding look_for
look_for-Passes test cpus i [] there = (null, a_nil, refl, inl (refl, tt))
look_for-Passes test cpus i (x ∷ xs) ((known, (c, is)), others) =
    let away = ==_ne x.content a_nil known in
    elim (Bool-cases (test c)) [
      | inl e ↦ (
        at i,
        x.content,
        rw (away, is, e) refl,
        inr (known, rw (==_self x.content) refl, (c, is, e)),
      )
      | inr e ↦
          let (cursor, p, run, result) = look_for-Passes test cpus (suc i) xs others in
          (
            cursor,
            p,
            rw (away, is, e) run,
            elim result [
              | inl (nil, nobody) ↦ inl (nil, ((c, is, e), nobody))
              | inr (known', held, passes) ↦ inr (
                known',
                elim (Bool-cases (x.content == p)) [ inl f ↦ rw f refl | inr f ↦ rw f held ],
                passes,
              )
            ],
          )
    ]

-- The count of `num_free_cpu` is 0 where no CPU is free, and above where one is.
num_free_cpu-none :
    (cpus : Cpus) (items : List (Item Unit))
    → InPlace cpus items
    → NonePasses is_free cpus items
    → num_free_cpu cpus items ≡ ok 0
unfolding num_free_cpu
num_free_cpu-none cpus [] there nobody = refl
num_free_cpu-none cpus (x ∷ xs) ((known, (c, is)), others) ((c', is', busy), nobody) =
    let away = ==_ne x.content a_nil known in
    let ih = num_free_cpu-none cpus xs others nobody in rw (away, is', ih, busy) refl

num_free_cpu-returned :
    (cpus : Cpus) (items : List (Item Unit))
    → InPlace cpus items
    → (n : ℕ) × (num_free_cpu cpus items ≡ ok n)
unfolding num_free_cpu
num_free_cpu-returned cpus [] there = (0, refl)
num_free_cpu-returned cpus (x ∷ xs) ((known, (c, is)), others) =
    let away = ==_ne x.content a_nil known in
    let (n, run) = num_free_cpu-returned cpus xs others in
    (if is_free c then suc n else n, rw (away, is, run) refl)

num_free_cpu-some :
    (cpus : Cpus) (items : List (Item Unit)) (p : Ptr) (c : Cpu)
    → InPlace cpus items
    → holds p items ≡ true
    → cpus p ≡ some c
    → is_free c ≡ true
    → (n : ℕ) × (num_free_cpu cpus items ≡ ok n) × (0 < n)
unfolding num_free_cpu
num_free_cpu-some cpus [] p c there held is free = cc
num_free_cpu-some cpus (x ∷ xs) p c ((known, (c', is')), others) held is free =
    let away = ==_ne x.content a_nil known in
    elim (Bool-cases (x.content == p)) [
      | inl e ↦
          let here : cpus x.content ≡ some c = ap cpus ((==_iff x.content p).0 e) ∙ is in
          let (n, run) = num_free_cpu-returned cpus xs others in
          (suc n, rw (away, here, run, free) refl, omega arith)
      | inr e ↦
          let held' : holds p xs ≡ true = sym (ap (λ b. if b then true else holds p xs) e) ∙ held in
          let (n, run, more) = num_free_cpu-some cpus xs p c others held' is free in
          elim (Bool-cases (is_free c')) [
            | inl f ↦ (suc n, rw (away, is', run, f) refl, omega arith)
            | inr f ↦ (n, rw (away, is', run, f) refl, more)
          ]
    ]

affinity_free : (th : Ptr) (c : Cpu) → has_affinity th c ≡ true → is_free c ≡ true
affinity_free th c has = elim (Bool-cases (c.current_thread == a_nil)) [
  | inl e ↦ elim (Bool-cases c.is_gpu) [
    | inl f ↦ elim (Bool-cases (c.current_thread_context == th)) [
      | inl g ↦ let never : false ≡ true = sym (rw (e, f, g) refl) ∙ has in cc
      | inr g ↦ let never : false ≡ true = sym (rw (e, f, g) refl) ∙ has in cc
    ]
    | inr f ↦ rw (e, f) refl
  ]
  | inr e ↦ let never : false ≡ true = sym (rw e refl) ∙ has in cc
]

-- What `select_free_cpu` comes to: NULL where no CPU is free, or a free one, with affinity unless no
-- free one has it.
abbrev pub Selected : Ptr → Cpus → List (Item Unit) → ℕ → Ptr → Type 0
Selected th cpus items n p =
    ((p ≡ a_nil) × (n ≡ 0))
    ⊎ ((0 < n)
        × Passes is_free cpus items p
        × (Passes (has_affinity th) cpus items p ⊎ NonePasses (has_affinity th) cpus items))

module _ {S : Type 0} where
  -- When the contents of the queue are CPUs, select_free_cpu returns NULL exactly when
  -- num_free_cpu counts none. Else it returns a CPU of the node that is free and no GPU, and one
  -- that ran the thread last if there is such a free one.
  pub select_free_cpu-Selected :
      (th : Ptr) (s : NodeState S)
      → InPlace s.cpus s.cpu_queue.items
      → (c : Cursor) × (p : Ptr) × (n : ℕ) × (select_free_cpu th s ≡ ok (looked_at s (c, p)))
        × (num_free_cpu s.cpus s.cpu_queue.items ≡ ok n)
        × Selected th s.cpus s.cpu_queue.items n p
  unfolding select_free_cpu
  select_free_cpu-Selected th s there =
      let items = s.cpu_queue.items in
      let (c, p, run, first) = look_for-Passes (has_affinity th) s.cpus 0 items there in
      elim first [
        | inr (known, held, (cpu, is, has)) ↦
            let free = affinity_free th cpu has in
            let (n, count, more) = num_free_cpu-some s.cpus items p cpu there held is free in
            let away = ==_ne p a_nil known in
            (
              c,
              p,
              n,
              rw (run, away) refl,
              count,
              inr (more, (known, held, (cpu, is, free)), inl (known, held, (cpu, is, has))),
            )
        | inl (nil, unlike) ↦
            let gone = (==_iff p a_nil).1 nil in
            let (c', p', run', second) = look_for-Passes is_free s.cpus 0 items there in
            elim second [
              | inl (nil', nobody) ↦
                  let count = num_free_cpu-none s.cpus items there nobody in
                  (c', p', 0, rw (run, gone, run') refl, count, inl (nil', refl))
              | inr (known, held, (cpu, is, free)) ↦
                  let (n, count, more) = num_free_cpu-some s.cpus items p' cpu there held is free in
                  (
                    c',
                    p',
                    n,
                    rw (run, gone, run') refl,
                    count,
                    inr (more, (known, held, (cpu, is, free)), inr unlike),
                  )
            ]
      ]
