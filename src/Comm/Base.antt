-- ===== src/Comm/Base.antt =====
-- Simulator/model/communic.c: messages, and the threads and queues that the matching reads. A
-- message of MPI waits at its task, one between the threads of a task (for synchronization) at its
-- thread. `blocks p` is the thread at the address `p`, if one is allocated there.
use dimemas.Base.{
  ℕ, ◌+◌, Bool, false, ◌&&◌, ◌||◌, Option, none, some, List, [], ◌∷◌, ◌==◌, ltb, if◌then◌else◌,
  Outcome, ok, panic, undefined, ◌>>=◌, ℤ, pos, negsuc, eqz, minus_one,
}
use dimemas.Queue.{Ptr, a_nil, Item, Cursor, null, at, Queue}

-- `struct t_send` and `struct t_recv`, the fields that the matching reads.
pub record SendDesc : Type 0 where
  pub dest : ℤ
  pub dest_thread : ℤ
  pub mess_tag : ℤ
  pub communic_id : ℤ
  pub rendez_vous : Bool

pub record RecvDesc : Type 0 where
  pub ori : ℤ
  pub ori_thread : ℤ
  pub mess_tag : ℤ
  pub communic_id : ℤ

-- The union `desc` of an action.
pub data Desc : Type 0 where
  send_desc : SendDesc → Desc
  recv_desc : RecvDesc → Desc

-- A read of the other member is a read of bytes of another type.
abbrev pub as_send : Desc → Outcome SendDesc
as_send (send_desc m) = ok m
as_send (recv_desc r) = undefined

abbrev pub as_recv : Desc → Outcome RecvDesc
as_recv (send_desc m) = undefined
as_recv (recv_desc r) = ok r

-- `taskid` is that of `thread->task`, `action` the kind of the front action and `desc` its data.
pub record CommThread : Type 0 where
  pub taskid : ℕ
  pub threadid : ℕ
  pub action : ℕ
  pub desc : Desc

pub record Mailbox : Type 0 where
  pub send : Queue Unit
  pub send_without_recv : Queue Unit
  pub recv_without_send : Queue Unit

-- Where messages meet: at a task, or at a thread of it.
pub data Site : Type 0 where
  of_task : ℕ → Site
  of_thread : ℕ → ℕ → Site

abbrev pub same_site : Site → Site → Bool
same_site (of_task t) (of_task t') = t == t'
same_site (of_thread t n) (of_thread t' n') = (t == t') && (n == n')
same_site (of_task t) (of_thread t' n') = false
same_site (of_thread t n) (of_task t') = false

pub record CommState : Type 0 where
  pub tasks_count : ℕ
  pub threads_count : ℕ → ℕ
  pub boxes : Site → Mailbox
  pub blocks : Ptr → Option CommThread

abbrev pub set_box : Site → Mailbox → CommState → CommState
set_box site box s = record s { boxes = λ t. if same_site t site then box else s.boxes t }

abbrev pub set_block : Ptr → Option CommThread → CommState → CommState
set_block p b s = record s { blocks = λ q. if q == p then b else s.blocks q }

abbrev pub block_at : Option CommThread → Outcome CommThread
block_at none = undefined
block_at (some b) = ok b

abbrev pub assert_that : Bool → Outcome (Unit {0})
assert_that b = if b then ok tt else panic

-- `locate_task`: the number of the task, if there is one.
unfoldable pub locate_task : ℤ → CommState → Outcome ℕ
locate_task (pos t) s = if ltb t s.tasks_count then ok t else panic
locate_task (negsuc t) s = panic

-- `locate_thread_of_task`
unfoldable pub locate_thread_of_task : ℕ → ℤ → CommState → Outcome ℕ
locate_thread_of_task t (pos n) s = if ltb n (s.threads_count t) then ok n else panic
locate_thread_of_task t (negsuc n) s = panic

-- The two numbers agree, or the message leaves the one open.
abbrev pub agrees : ℕ → ℤ → Bool
agrees id wanted = eqz (pos id) wanted || eqz wanted minus_one

-- The condition that every search of the file tests, of the thread that sends and its message and
-- of the thread that receives and what it waits for.
unfoldable pub meets : CommThread → SendDesc → CommThread → RecvDesc → Bool
meets sender m receiver r =
    agrees sender.threadid r.ori_thread
    && agrees sender.taskid r.ori
    && eqz m.mess_tag r.mess_tag
    && eqz m.communic_id r.communic_id
    && agrees receiver.threadid m.dest_thread

-- A search by `head_queue` and `next_queue`, with the place of the item, for the first thread that
-- passes the test; the assertions are part of it.
unfoldable pub find_from :
    (CommThread → Outcome Bool)
    → (Ptr → Option CommThread)
    → ℕ
    → List (Item Unit)
    → Outcome (Cursor × Ptr)
find_from test blocks i [] = ok (null, a_nil)
find_from test blocks i (x ∷ xs) =
    let rest = find_from test blocks (i + 1) xs in
    if x.content == a_nil
    then ok (at i, a_nil)
    else block_at (blocks x.content)
      >>= test
      >>= (λ found. if found then ok (at i, x.content) else rest)
