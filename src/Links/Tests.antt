-- ===== src/Links/Tests.antt =====
-- Runs of Simulator/model/links.c on owners with half duplex links, one free and one busy in each
-- direction.
use dimemas.Base.{◌≡◌, refl, Bool, true, none, some, [], ◌∷◌, ◌==◌, ok, arith}
use dimemas.Queue.{Ptr, a_nil, Queue, null}
use dimemas.Graph.Act
use dimemas.Ports.Base.{l_nil}
use dimemas.Links.Base.{in_link, out_link, Owner, LinkThread, LinkState, Wakers, communic_fifo}
use dimemas.Links.Acquire.{acquire, get_wan_links, get_mem_links}
use dimemas.Links.Conserved.{StateOk, Kept}
use dimemas.Links.Sides.{Linked, get_wan_links-Returned}
use dimemas.Links.Jumps.{MemLinked}
use dimemas.Links.Memory.{get_mem_links-Ended, get_mem_links-never}

abbrev one : Ptr → Queue Unit
one p = record { items = record { order = tt; content = p } ∷ []; curr = null; count = 1 }

abbrev nobody : Queue Unit
nobody = record { items = []; curr = null; count = 0 }

abbrev pair_owner : Ptr → Owner
pair_owner p = record {
  ident = p;
  policy = communic_fifo;
  half_duplex = true;
  free_in_links = one 11;
  free_out_links = one 21;
  busy_in_links = one 31;
  busy_out_links = one 41;
  th_for_in = nobody;
  th_for_out = nobody;
}

-- The thread has a link into the receiver and its pair, or none.
abbrev a_thread : Ptr → Ptr → LinkThread
a_thread link pair = record {
  policy = communic_fifo;
  action = Act.send;
  local_link = a_nil;
  partner_link = link;
  local_hd_link = a_nil;
  partner_hd_link = pair;
  port_send_link = l_nil;
  port_recv_link = l_nil;
  original_thread = true;
  last_paraver = 0;
  initial_wait_link_time = 0;
  block_due_link = 0;
}

abbrev pub linked_state : Ptr → Ptr → LinkState Unit
linked_state link pair = record {
  current_time = 50;
  owners = pair_owner;
  links = λ p. record { info = 1; type = in_link; assigned_on = 0 };
  threads = λ th. a_thread link pair;
  connections = λ c. record { source_id = 0; destination_id = 1 };
  infinite_mem_links = λ task. task == 5;
  rest = tt;
}

linked_state-StateOk : (link pair : Ptr) → StateOk (linked_state link pair)
linked_state-StateOk link pair = record {
  owners = λ p. record {
    policy = refl;
    known = elim [ in_link ↦ ((λ h. omega arith), tt) | out_link ↦ ((λ h. omega arith), tt) ];
    paired = λ half. elim [ in_link ↦ refl | out_link ↦ refl ];
  };
  policies = λ th. refl;
}

get_wan_links-Returned_example :
    (s' : LinkState Unit) × (got : Bool) × (get_wan_links 9 2 1 (linked_state 0 0) ≡ ok (s', got))
    × Kept (linked_state 0 0) s'
    × Linked 9 2 1 s' got
get_wan_links-Returned_example =
    get_wan_links-Returned 9 2 1 (linked_state 0 0) (linked_state-StateOk 0 0)

get_mem_links-Ended_example :
    (s' : LinkState Unit) × (got : Bool) × (get_mem_links 2 9 3 2 (linked_state 0 0)
      ≡ ok (some (s', got)))
    × Kept (linked_state 0 0) s'
    × MemLinked 9 3 2 s' got
get_mem_links-Ended_example =
    get_mem_links-Ended 0 9 3 2 (linked_state 0 0) (linked_state-StateOk 0 0) (λ h. omega arith)
      refl

-- The sender is task 5, whose node has an infinite number of links.
get_mem_links-never_example : get_mem_links 1000 9 5 2 (linked_state 31 41) ≡ ok none
unfolding acquire
get_mem_links-never_example =
    get_mem_links-never 1000 9 5 2 (linked_state 31 41) (linked_state-StateOk 31 41)
      (λ h. omega arith) refl refl refl (linked_state 31 41) refl

-- Woken threads that do nothing.
abbrev pub quiet : Wakers Unit
quiet = record {
  really_send = λ th s. ok s;
  really_rma = λ th s. ok s;
  global_op_reserva_links = λ th s. ok s;
}
