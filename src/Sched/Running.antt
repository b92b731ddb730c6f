-- ===== src/Sched/Running.antt =====
-- Simulator/sched/schedule.c: put_thread_on_run, from the CPU that a thread gets to the start of its
-- run.
use dimemas.Base.{
  ℕ, ◌<◌, ◌≡◌, refl, ap, sym, ◌∙◌, ◌⊎◌, inl, inr, true, false, not, ◌&&◌, ◌||◌, Option, some, List,
  [], ◌∷◌, ◌==◌, ==_iff, ==_self, ==_ne, if◌then◌else◌, Bool-cases, ok, undefined, ◌>>=◌,
}
use dimemas.Queue.{Ptr, a_nil, Item, null}
use dimemas.Queue.Emptying.{holds}
use dimemas.Sched.Dispatch.{
  Cpu, NodeState, Policy, is_free, is_free_gpu, num_free_cpu, looked_at, run_on, take_gpus,
  take_cpu, on_thread, leaves_ready, start_run, put_thread_on_run,
}
use dimemas.Sched.Selection.{InPlace, Passes, select_free_cpu-Selected}

-- The CPU has the thread.
abbrev pub Runs : {S : Type 0} → Ptr → NodeState S → Ptr → Type 0
Runs th s p = (c : Cpu) × (s.cpus p ≡ some c) × (c.current_thread ≡ th)

-- The thread gets the CPU `p`, and no other CPU changes.
abbrev pub Placed : {S : Type 0} → Ptr → NodeState S → Ptr → NodeState S → Type 0
Placed th s p s' =
    (c : Cpu) × (c.current_thread ≡ th)
    × (c.current_thread_context ≡ th)
    × ((s'.threads th).cpu ≡ p)
    × (s'.cpus ≡ (λ q. if q == p then some c else s.cpus q))

free_no_gpu : (c : Cpu) → is_free c ≡ true → c.is_gpu ≡ false
free_no_gpu c free = elim (Bool-cases c.is_gpu) [
  | inr e ↦ e
  | inl e ↦ elim (Bool-cases (c.current_thread == a_nil)) [
    | inl f ↦ let never : false ≡ true = sym (rw (e, f) refl) ∙ free in cc
    | inr f ↦ let never : false ≡ true = sym (rw f refl) ∙ free in cc
  ]
]

module _ {S : Type 0} where
  -- A thread that has no GPU code gets a free CPU, or reads through NULL where none is free.
  take_cpu-Placed :
      (th : Ptr) (s : NodeState S)
      → InPlace s.cpus s.cpu_queue.items
      → ((s.threads th).accelerator && (s.threads th).kernel) ≡ false
      → (not (s.threads th).accelerator || ((s.threads th).accelerator && (s.threads th).host))
        ≡ true
      → (n : ℕ) × (num_free_cpu s.cpus s.cpu_queue.items ≡ ok n)
        × (((n ≡ 0) × (take_cpu th s ≡ undefined))
            ⊎ ((p : Ptr) × (s' : NodeState S) × (0 < n)
                × Passes is_free s.cpus s.cpu_queue.items p
                × (take_cpu th s ≡ ok s')
                × Placed th s p s'))
  take_cpu-Placed th s there no_kernel plain =
      let (cursor, p, n, run, count, selected) = select_free_cpu-Selected th s there in
      (
        n,
        count,
        elim selected [
          | inl (nil, zero_free) ↦
              let gone = (==_iff p a_nil).1 nil in
              inl (zero_free, rw (no_kernel, plain, run, gone) refl)
          | inr (more, (known, held, (c, is, free)), affinity) ↦
              let away = ==_ne p a_nil known in
              let host_cpu = free_no_gpu c free in
              let s₁ = (looked_at s (cursor, p)).0 in
              inr (
                p,
                run_on th p c s₁,
                more,
                (known, held, (c, is, free)),
                rw (no_kernel, plain, run, away, is, host_cpu) refl,
                (
                  record c { current_thread = th; current_thread_context = th },
                  refl,
                  refl,
                  rw (==_self th) refl,
                  refl,
                ),
              )
        ],
      )

  InPlace-run_on :
      (th p : Ptr) (c : Cpu) (s : NodeState S) (items : List (Item Unit))
      → InPlace s.cpus items
      → InPlace (run_on th p c s).cpus items
  InPlace-run_on th p c s [] there = tt
  InPlace-run_on th p c s (x ∷ xs) ((known, (c', is)), others) = (
    (
      known,
      elim (Bool-cases (x.content == p)) [
        | inl e ↦ (record c { current_thread = th; current_thread_context = th }, rw e refl)
        | inr e ↦ (c', rw e is)
      ],
    ),
    InPlace-run_on th p c s xs others,
  )

  Runs-run_on :
      (th p q : Ptr) (c : Cpu) (s : NodeState S) → Runs th s q → Runs th (run_on th p c s) q
  Runs-run_on th p q c s (c', is, has) = elim (Bool-cases (q == p)) [
    | inl e ↦ (record c { current_thread = th; current_thread_context = th }, rw e refl, refl)
    | inr e ↦ (c', rw e is, has)
  ]

  -- A GPU of the queue that is free, or has the thread, has it after the loop.
  take_gpus-Runs :
      (th : Ptr) (items : List (Item Unit)) (s : NodeState S)
      → InPlace s.cpus items
      → (s' : NodeState S) × (take_gpus th items s ≡ ok s')
        × ((q : Ptr) → Runs th s q → Runs th s' q)
        × ((q : Ptr) (c : Cpu)
            → holds q items ≡ true
            → s.cpus q ≡ some c
            → is_free_gpu c ≡ true
            → Runs th s' q)
  unfolding take_gpus
  take_gpus-Runs th [] s there = (
    record s { cpu_queue = record s.cpu_queue { curr = null } },
    refl,
    (λ q runs. runs),
    λ q c held is free. cc,
  )
  take_gpus-Runs th (x ∷ xs) s ((known, (c, is)), others) =
      let away = ==_ne x.content a_nil known in
      elim (Bool-cases (is_free_gpu c)) [
        | inl e ↦
            let s₁ = run_on th x.content c s in
            let runs : Cpu = record c { current_thread = th; current_thread_context = th } in
            let (s', run, keeps, takes) =
              take_gpus-Runs th xs s₁ (InPlace-run_on th x.content c s xs others) in
            (
              s',
              rw (away, is, e) run,
              (λ q has. keeps q (Runs-run_on th x.content q c s has)),
              λ q c' held is' free. elim (Bool-cases (q == x.content)) [
                | inl f ↦ keeps q (runs, rw f refl, refl)
                | inr f ↦
                    let off : (x.content == q) ≡ false =
                      ==_ne x.content q
                        (λ same. let there = (==_iff q x.content).1 (sym same) in cc) in
                    let held' : holds q xs ≡ true =
                      sym (ap (λ b. if b then true else holds q xs) off) ∙ held in
                    takes q c' held' (rw f is') free
              ],
            )
        | inr e ↦
            let (s', run, keeps, takes) = take_gpus-Runs th xs s others in
            (
              s',
              rw (away, is, e) run,
              keeps,
              λ q c' held is' free. elim (Bool-cases (x.content == q)) [
                | inl f ↦
                    let both : Path (Option Cpu) (some c) (some c') =
                      sym is ∙ ap s.cpus ((==_iff x.content q).0 f) ∙ is' in
                    let same : c ≡ c' = cc in
                    let never : false ≡ true = sym e ∙ ap is_free_gpu same ∙ free in cc
                | inr f ↦
                    let held' : holds q xs ≡ true =
                      sym (ap (λ b. if b then true else holds q xs) f) ∙ held in
                    takes q c' held' is' free
              ],
            )
      ]

module _ {S : Type 0} (policy : Policy S) where
  -- A thread outside the GPUs, on a node with a free CPU that is no GPU, starts its run on one of
  -- them, and no other CPU changes. On a node without one put_thread_on_run reads through NULL, in
  -- the assertion before its test.
  pub put_thread_on_run-Placed :
      (th : Ptr) (s : NodeState S)
      → InPlace s.cpus s.cpu_queue.items
      → ((s.threads th).accelerator && (s.threads th).kernel) ≡ false
      → (not (s.threads th).accelerator || ((s.threads th).accelerator && (s.threads th).host))
        ≡ true
      → (n : ℕ) × (num_free_cpu s.cpus s.cpu_queue.items ≡ ok n)
        × (((n ≡ 0) × (put_thread_on_run policy th s ≡ undefined))
            ⊎ ((p : Ptr) × (s' : NodeState S) × (0 < n)
                × Passes is_free s.cpus s.cpu_queue.items p
                × (put_thread_on_run policy th s ≡ start_run policy th s')
                × Placed th s p s'))
  unfolding put_thread_on_run
  put_thread_on_run-Placed th s there no_kernel plain =
      let s₀ = on_thread th (leaves_ready s.current_time) s in
      let no_kernel₀ : ((s₀.threads th).accelerator && (s₀.threads th).kernel) ≡ false =
        rw (==_self th) no_kernel in
      let plain₀ : (not (s₀.threads th).accelerator
            || ((s₀.threads th).accelerator && (s₀.threads th).host))
          ≡ true =
        rw (==_self th) plain in
      let (n, count, placed) = take_cpu-Placed th s₀ there no_kernel₀ plain₀ in
      (
        n,
        count,
        elim placed [
          | inl (zero_free, run) ↦ inl (zero_free, ap (λ r. r >>= start_run policy th) run)
          | inr (p, s', more, passes, run, is_placed) ↦
              inr (p, s', more, passes, ap (λ r. r >>= start_run policy th) run, is_placed)
        ],
      )

  -- A kernel of an accelerator takes every GPU of the node that is free: it starts its run with any
  -- two of them.
  pub put_thread_on_run-Runs :
      (th p q : Ptr) (s : NodeState S) (a b : Cpu)
      → InPlace s.cpus s.cpu_queue.items
      → ((s.threads th).accelerator && (s.threads th).kernel) ≡ true
      → holds p s.cpu_queue.items ≡ true
      → s.cpus p ≡ some a
      → is_free_gpu a ≡ true
      → holds q s.cpu_queue.items ≡ true
      → s.cpus q ≡ some b
      → is_free_gpu b ≡ true
      → (s' : NodeState S) × (put_thread_on_run policy th s ≡ start_run policy th s')
        × Runs th s' p
        × Runs th s' q
  unfolding put_thread_on_run
  put_thread_on_run-Runs th p q s a b there kernel held is free held' is' free' =
      let s₀ = on_thread th (leaves_ready s.current_time) s in
      let kernel₀ : ((s₀.threads th).accelerator && (s₀.threads th).kernel) ≡ true =
        rw (==_self th) kernel in
      let (s', run, keeps, takes) = take_gpus-Runs th s.cpu_queue.items s₀ there in
      let taken : take_cpu th s₀ ≡ ok s' = rw kernel₀ run in
      (
        s',
        ap (λ r. r >>= start_run policy th) taken,
        takes p a held is free,
        takes q b held' is' free',
      )
