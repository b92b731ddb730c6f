-- ===== src/Comm/Rendezvous.antt =====
-- Simulator/model/communic.c: which sender a receive of MPI starts, the searches of
-- Start_communication_if_partner_ready_for_rendez_vous_real_MPI_transfer. With `ori` -1 the receive
-- takes a message of any task.
use dimemas.Base.{
  ℕ, zero, suc, ◌+◌, ◌≡◌, refl, ap, sym, ◌∙◌, inl, inr, Bool, true, false, ◌&&◌, ◌||◌, ==_iff,
  Bool-cases, Option, List, [], ◌∷◌, ◌==◌, if◌then◌else◌, Outcome, ok, ◌>>=◌, pos, eqz, gtz,
  minus_one,
}
use dimemas.Queue.{Ptr, a_nil, Item, Cursor, null, at, content_at}
use dimemas.Comm.Base.{
  RecvDesc, as_send, CommThread, of_task, CommState, set_box, block_at, assert_that, locate_task,
  agrees, meets, find_from,
}

-- The two tests: of a send of the task that the receive names, with its assertions, and of one of
-- any task.
abbrev pub named_test : CommThread → RecvDesc → CommThread → Outcome Bool
named_test thread mess sender = do
  m ← as_send sender.desc
  a ← assert_that (eqz m.dest_thread minus_one)
  b ← assert_that (eqz (pos sender.taskid) mess.ori)
  c ← assert_that (gtz mess.ori minus_one)
  d ← assert_that (gtz m.dest minus_one)
  ok (agrees thread.taskid m.dest && meets sender m thread mess)

abbrev pub any_test : CommThread → RecvDesc → CommThread → Outcome Bool
any_test thread mess sender = do
  m ← as_send sender.desc
  a ← assert_that (eqz m.dest_thread minus_one)
  ok (agrees thread.taskid m.dest && meets sender m thread mess)

-- `sender` and `trobat` after the inner loop, with the cursor: the step to the next sender comes
-- before the test whether one was found.
unfoldable pub any_from :
    (CommThread → Outcome Bool)
    → (Ptr → Option CommThread)
    → ℕ
    → Bool
    → List (Item Unit)
    → Outcome (Cursor × Ptr × Bool)
any_from test blocks i trobat [] = ok (null, a_nil, trobat)
any_from test blocks i trobat (x ∷ xs) =
    let go_on = λ (found : Bool). any_from test blocks (i + 1) (found || trobat) xs in
    if x.content == a_nil
    then ok (at i, a_nil, trobat)
    else if trobat
    then ok (at i, x.content, trobat)
    else block_at (blocks x.content) >>= test >>= go_on

-- `task_sender`, `sender` and `trobat`, with the queues, whose cursors move.
pub record Choice : Type 0 where
  pub state : CommState
  pub task_sender : ℕ
  pub sender : Ptr
  pub trobat : Bool

abbrev pub moved_to : CommState → ℕ → Cursor → CommState
moved_to s task c =
    let box = s.boxes (of_task task) in
    set_box (of_task task) (record box { send = record box.send { curr = c } }) s

abbrev pub look_in : CommThread → RecvDesc → ℕ → Choice → Outcome Choice
look_in thread mess task choice =
    let s = choice.state in
    any_from (any_test thread mess) s.blocks 0 choice.trobat (s.boxes (of_task task)).send.items
    >>= (λ (c, sender, trobat). ok (record {
      state = moved_to s task c;
      task_sender = task;
      sender = sender;
      trobat = trobat;
    }))

-- The loop over the first tasks, from 0.
unfoldable pub look_in_tasks : ℕ → CommThread → RecvDesc → CommState → Outcome Choice
look_in_tasks zero thread mess s =
    ok (record { state = s; task_sender = 0; sender = a_nil; trobat = false })
look_in_tasks (suc n) thread mess s = look_in_tasks n thread mess s >>= look_in thread mess n

unfoldable pub choose_sender : CommThread → RecvDesc → CommState → Outcome Choice
choose_sender thread mess s = assert_that (eqz mess.ori_thread minus_one) >>= (λ a.
    if eqz mess.ori minus_one
    then look_in_tasks s.tasks_count thread mess s
    else locate_task mess.ori s >>= (λ task.
      find_from (named_test thread mess) s.blocks 0 (s.boxes (of_task task)).send.items
      >>= (λ (c, sender). ok (record {
        state = moved_to s task c;
        task_sender = task;
        sender = sender;
        trobat = false;
      }))))

-- The front of a queue, once a sender was found.
any_from-found :
    (test : CommThread → Outcome Bool) (blocks : Ptr → Option CommThread) (i : ℕ)
    (items : List (Item Unit))
    → (c : Cursor) × (any_from test blocks i true items ≡ ok (c, content_at items 0, true))
unfolding any_from
any_from-found test blocks i [] = (null, refl)
any_from-found test blocks i (x ∷ xs) = elim (Bool-cases (x.content == a_nil)) [
  | inl e ↦ (at i, rw e (ap (λ p. ok (at i, p, true)) (sym ((==_iff x.content a_nil).0 e))))
  | inr e ↦ (at i, rw e refl)
]

-- When a receive from any task finds its sender in a task before the last one, the thread that
-- Start_communication takes for the sender is the first one that waits in the last task, whatever it
-- sends, and nobody if none waits there.
pub choose_sender-last :
    (n : ℕ) (thread : CommThread) (mess : RecvDesc) (s : CommState) (found : Choice)
    → mess.ori ≡ minus_one
    → mess.ori_thread ≡ minus_one
    → s.tasks_count ≡ suc n
    → look_in_tasks n thread mess s ≡ ok found
    → found.trobat ≡ true
    → (chosen : Choice) × (choose_sender thread mess s ≡ ok chosen)
      × (chosen.task_sender ≡ n)
      × (chosen.sender ≡ content_at (found.state.boxes (of_task n)).send.items 0)
unfolding choose_sender look_in_tasks
choose_sender-last n thread mess s found any any' count before trobat =
    let queue = (found.state.boxes (of_task n)).send.items in
    let (c, run) = any_from-found (any_test thread mess) found.state.blocks 0 queue in
    let no_task : eqz mess.ori minus_one ≡ true = ap (λ z. eqz z minus_one) any in
    let no_thread : eqz mess.ori_thread minus_one ≡ true = ap (λ z. eqz z minus_one) any' in
    let all_tasks : choose_sender thread mess s ≡ look_in_tasks s.tasks_count thread mess s =
      rw (no_task, no_thread) refl in
    let last : look_in thread mess n found
        ≡ ok (record {
          state = moved_to found.state n c;
          task_sender = n;
          sender = content_at queue 0;
          trobat = true;
        }) =
      rw (trobat, run) refl in
    (
      record {
        state = moved_to found.state n c;
        task_sender = n;
        sender = content_at queue 0;
        trobat = true;
      },
      all_tasks
          ∙ ap (λ k. look_in_tasks k thread mess s) count
          ∙ ap (λ r. r >>= look_in thread mess n) before
          ∙ last,
      refl,
      refl,
    )
