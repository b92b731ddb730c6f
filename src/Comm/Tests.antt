-- ===== src/Comm/Tests.antt =====
-- Runs of the matching of Simulator/model/communic.c: thread 0 of task 1 has sent a message of tag 7
-- to task 2, by rendez-vous.
use dimemas.Base.{
  ◌≡◌, refl, true, false, Option, none, some, List, [], ◌∷◌, ◌==◌, if◌then◌else◌, Outcome, ok, ℤ,
  pos, minus_one, arith,
}
use dimemas.Graph.Act
use dimemas.Queue.{Ptr, Queue, null, content_at}
use dimemas.Comm.Base.{
  SendDesc, RecvDesc, send_desc, recv_desc, CommThread, of_task, CommState, meets, locate_task,
  same_site,
}
use dimemas.Comm.Posting.{real_mpi, sends, recvs, recv_reached, send_reached}
use dimemas.Comm.Spec.{Pending, receive, send}
use dimemas.Comm.Refinement.{StandsFor}
use dimemas.Comm.Arrivals.{Arrives, recv_reached-Arrives, send_reached-Arrives}
use dimemas.Comm.Rendezvous.{Choice, choose_sender, choose_sender-last, look_in_tasks, any_from}

abbrev the_send : SendDesc
the_send = record {
  dest = pos 2;
  dest_thread = minus_one;
  mess_tag = pos 7;
  communic_id = pos 0;
  rendez_vous = true;
}

abbrev the_recv : ℤ → RecvDesc
the_recv ori = record { ori = ori; ori_thread = minus_one; mess_tag = pos 7; communic_id = pos 0 }

abbrev sender_thread : CommThread
sender_thread = record { taskid = 1; threadid = 0; action = Act.send; desc = send_desc the_send }

-- The same, of task 3 and with another tag.
abbrev other_sender : CommThread
other_sender = record {
  taskid = 3;
  threadid = 0;
  action = Act.send;
  desc = send_desc (record the_send { mess_tag = pos 8 });
}

abbrev receiver_thread : ℤ → CommThread
receiver_thread ori = record {
  taskid = 2;
  threadid = 0;
  action = Act.recv;
  desc = recv_desc (the_recv ori);
}

abbrev queue_of : List Ptr → Queue Unit
queue_of [] = record { items = []; curr = null; count = 0 }
queue_of (p ∷ ps) = record {
  items = record { order = tt; content = p } ∷ [];
  curr = null;
  count = 1;
}

-- The copy of the sender is at 64, and it waits at task 2.
abbrev copies_at : Ptr → Option CommThread
copies_at p = if p == 64 then some sender_thread else if p == 65 then some other_sender else none

abbrev one_waits : CommState
one_waits = record {
  tasks_count = 4;
  threads_count = λ t. 1;
  boxes = λ site. record {
    send =
        if same_site site (of_task 1)
        then queue_of (64 ∷ [])
        else if same_site site (of_task 3)
        then queue_of (65 ∷ [])
        else queue_of [];
    send_without_recv = if same_site site (of_task 2) then queue_of (64 ∷ []) else queue_of [];
    recv_without_send = queue_of [];
  };
  blocks = copies_at;
}

abbrev pending_one : Pending
pending_one = record { sent = sender_thread ∷ []; received = [] }

abbrev nothing_pending : Pending
nothing_pending = record { sent = []; received = [] }

one_waits-StandsFor : StandsFor (of_task 2) one_waits pending_one
one_waits-StandsFor = record {
  listed = elim [ sends ↦ ((λ h. omega arith), refl, refl, tt) | recvs ↦ tt ];
  apart = elim [ sends ↦ λ c held. refl | recvs ↦ λ c held. cc ];
}

nobody-StandsFor : StandsFor (of_task 1) one_waits nothing_pending
nobody-StandsFor = record {
  listed = elim [ sends ↦ tt | recvs ↦ tt ];
  apart = elim [ sends ↦ λ c held. cc | recvs ↦ λ c held. cc ];
}

recv_reached-Arrives_example :
    Arrives real_mpi 2
      (of_task 2)
      (recv_reached real_mpi 66 (receiver_thread (pos 1)) (the_recv (pos 1)) one_waits)
      (receive (receiver_thread (pos 1)) pending_one)
recv_reached-Arrives_example =
    recv_reached-Arrives real_mpi (of_task 2) 66 (receiver_thread (pos 1)) (the_recv (pos 1))
      one_waits pending_one refl refl refl one_waits-StandsFor
      (record { sent = ((the_send, refl, refl, refl), tt); received = tt; alone = (tt, tt) })
      (λ h. omega arith) refl

abbrev back_send : SendDesc
back_send = record the_send { dest = pos 1 }

abbrev back_sender : CommThread
back_sender = record sender_thread { taskid = 2; desc = send_desc back_send }

task_1 : locate_task (pos 1) one_waits ≡ ok 1
unfolding locate_task
task_1 = refl

send_reached-Arrives_example :
    Arrives real_mpi 1
      (of_task 1)
      (send_reached real_mpi 66 back_sender back_send one_waits)
      (send back_sender nothing_pending)
send_reached-Arrives_example =
    send_reached-Arrives real_mpi 1 (of_task 1) 66 back_sender back_send one_waits nothing_pending
      refl refl refl (rw task_1 refl) nobody-StandsFor
      (record { sent = tt; received = tt; alone = tt }) (λ h. omega arith) refl

-- Thread 0 of task 2 takes a message of any task: that of task 1 would do, but the one of task 3,
-- the last task, is chosen.
abbrev chosen_of : Outcome Choice → Choice
chosen_of (ok choice) = choice
chosen_of Outcome.panic = record { state = one_waits; task_sender = 0; sender = 0; trobat = false }
chosen_of Outcome.undefined = record {
  state = one_waits;
  task_sender = 0;
  sender = 0;
  trobat = false;
}

abbrev before_last : Choice
before_last = chosen_of (look_in_tasks 3 (receiver_thread minus_one) (the_recv minus_one) one_waits)

before_last-found :
    look_in_tasks 3 (receiver_thread minus_one) (the_recv minus_one) one_waits ≡ ok before_last
unfolding look_in_tasks any_from meets
before_last-found = refl

before_last-trobat : before_last.trobat ≡ true
unfolding look_in_tasks any_from meets
before_last-trobat = refl

choose_sender-last_example :
    (chosen : Choice) × (choose_sender (receiver_thread minus_one) (the_recv minus_one) one_waits
      ≡ ok chosen)
    × (chosen.task_sender ≡ 3)
    × (chosen.sender ≡ content_at (before_last.state.boxes (of_task 3)).send.items 0)
choose_sender-last_example =
    choose_sender-last 3 (receiver_thread minus_one) (the_recv minus_one) one_waits before_last refl
      refl refl before_last-found before_last-trobat

wrong_sender : content_at (before_last.state.boxes (of_task 3)).send.items 0 ≡ 65
unfolding look_in_tasks any_from meets
wrong_sender = refl

wrong_tag :
    meets other_sender
      (record the_send { mess_tag = pos 8 })
      (receiver_thread minus_one)
      (the_recv minus_one)
    ≡ false
unfolding meets
wrong_tag = refl
