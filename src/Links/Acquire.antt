-- ===== src/Links/Acquire.antt =====
-- Simulator/model/links.c: a thread takes links, or waits for them. The code for the two sides is
-- the same but for the direction, and so is that of the three kinds of owners but for the function
-- that makes the thread wait and for the order of the sides.
use dimemas.Base.{
  ℕ, zero, suc, Bool, true, false, not, ◌&&◌, ◌||◌, Option, none, some, ltb, ◌==◌, if◌then◌else◌,
  Outcome, ok, panic, ◌>>=◌,
}
use dimemas.Queue.{Ptr, a_nil, Queue, in_fifo_queue, out_fifo_queue}
use dimemas.Links.Base.{
  Dir, in_link, out_link, other, Owner, free, busy, waiting, with_free, with_busy, with_waiting,
  link_of, with_link, with_pair, LinkState, on_owner, set_owner, on_thread, assign_time,
  start_link_wait_time, known_policy,
}

-- The first free link of a direction, which becomes busy.
abbrev pub moved : Dir → Owner → Queue Unit × Ptr → Owner × Ptr
moved d o (q, link) =
    if link == a_nil
    then (with_free d q o, link)
    else (with_busy d (in_fifo_queue tt (busy d o) link) (with_free d q o), link)

unfoldable pub move_first : Dir → Owner → Owner × Ptr
move_first d o = moved d o (out_fifo_queue (free d o))

-- Where the `goto`s lead, and the returns.
pub data Label : Type 0 where
  second_src_link first_dest : Label

pub data Jump : Type 0 where
  goto : Label → Jump
  return : Bool → Jump

-- The jumps at the end of a side of LINKS_get_mem_links.
abbrev pub source_side : Bool → Bool → Jump
source_side back got = if got then (if back then return true else goto first_dest) else return false

abbrev pub dest_side : Bool → Bool → Jump
dest_side back got =
    if got then (if back then goto second_src_link else return true) else return false

module _ {S : Type 0} where
  abbrev pub wait_in_queue : Dir → Ptr → Ptr → LinkState S → LinkState S
  wait_in_queue d th owner s =
      start_link_wait_time th
        (on_owner owner (λ o. with_waiting d (in_fifo_queue tt (waiting d o) th) o) s)

  unfoldable pub mem_link_busy : Dir → Ptr → Ptr → LinkState S → Outcome (LinkState S)
  mem_link_busy d th task s =
      if known_policy (s.threads th).policy then ok (wait_in_queue d th task s) else panic

  unfoldable pub machine_link_busy : Dir → Ptr → Ptr → LinkState S → Outcome (LinkState S)
  machine_link_busy d th machine s =
      if known_policy (s.owners machine).policy then ok (wait_in_queue d th machine s) else panic

  unfoldable pub connection_link_busy : Dir → Ptr → Ptr → LinkState S → Outcome (LinkState S)
  connection_link_busy d th connection s = ok (wait_in_queue d th connection s)

  -- The thread has the link.
  abbrev pub assign : Dir → Ptr → Ptr → Ptr → Owner → LinkState S → LinkState S
  assign d th owner link o s =
      on_thread th (with_link d link) (assign_time link (set_owner owner o s))

  -- With half duplex links, the other direction has to be free as well.
  abbrev pub acquire_pair :
      Dir → Ptr → Ptr → Ptr → Owner × Ptr → LinkState S → Outcome (LinkState S × Bool)
  acquire_pair d th owner link (o, pair) s =
      if pair == a_nil
      then panic
      else ok (assign d th owner link o (on_thread th (with_pair d pair) s), true)

  abbrev pub acquire_first :
      (Dir → Ptr → Ptr → LinkState S → Outcome (LinkState S))
      → Dir
      → Ptr
      → Ptr
      → Owner × Ptr
      → LinkState S
      → Outcome (LinkState S × Bool)
  acquire_first link_busy d th owner (o, link) s =
      if link == a_nil
      then link_busy d th owner (set_owner owner o s) >>= (λ s'. ok (s', false))
      else if o.half_duplex
      then acquire_pair d th owner link (move_first (other d) o) s
      else ok (assign d th owner link o s, true)

  -- One side of the three functions: the thread has its link already, takes one, or waits.
  unfoldable pub acquire :
      (Dir → Ptr → Ptr → LinkState S → Outcome (LinkState S))
      → Dir
      → Ptr
      → Ptr
      → LinkState S
      → Outcome (LinkState S × Bool)
  acquire link_busy d th owner s =
      if not (link_of d (s.threads th) == a_nil)
      then ok (s, true)
      else acquire_first link_busy d th owner (move_first d (s.owners owner)) s

  -- The second side, if the first one has a link.
  abbrev pub and_then :
      Outcome (LinkState S × Bool)
      → (LinkState S → Outcome (LinkState S × Bool))
      → Outcome (LinkState S × Bool)
  and_then first second = first >>= (λ r. if r.1 then second r.0 else ok (r.0, false))

  -- Half duplex links are taken in the order of the numbers of their owners.
  abbrev pub reversed : Ptr → Ptr → LinkState S → Bool
  reversed src dst s =
      ((s.owners src).half_duplex || (s.owners dst).half_duplex)
      && ltb (s.owners dst).ident (s.owners src).ident

  unfoldable pub get_wan_links : Ptr → Ptr → Ptr → LinkState S → Outcome (LinkState S × Bool)
  get_wan_links th s_machine d_machine s =
      if reversed s_machine d_machine s
      then and_then (acquire machine_link_busy in_link th d_machine s)
          (acquire machine_link_busy out_link th s_machine)
      else and_then (acquire machine_link_busy out_link th s_machine s)
          (acquire machine_link_busy in_link th d_machine)

  unfoldable pub get_single_wan_link : Dir → Ptr → Ptr → LinkState S → Outcome (LinkState S × Bool)
  get_single_wan_link d th machine = acquire machine_link_busy d th machine

  unfoldable pub get_dedicated_connection_links :
      Ptr → Ptr → LinkState S → Outcome (LinkState S × Bool)
  get_dedicated_connection_links th c s =
      if (s.owners c).half_duplex
        && ltb (s.connections c).destination_id (s.connections c).source_id
      then and_then (acquire connection_link_busy in_link th c s)
          (acquire connection_link_busy out_link th c)
      else and_then (acquire connection_link_busy out_link th c s)
          (acquire connection_link_busy in_link th c)

  -- LINKS_get_mem_links from a label to the next jump.
  unfoldable pub mem_block : Ptr → Ptr → Ptr → Label → LinkState S → Outcome (LinkState S × Jump)
  mem_block th src dst second_src_link s =
      if s.infinite_mem_links src
      then ok (s, goto first_dest)
      else acquire mem_link_busy out_link th src s
        >>= (λ r. ok (r.0, source_side (reversed src dst r.0) r.1))
  mem_block th src dst first_dest s =
      if s.infinite_mem_links dst
      then ok (s, return true)
      else acquire mem_link_busy in_link th dst s
        >>= (λ r. ok (r.0, dest_side (reversed src dst r.0) r.1))

  -- The blocks one after the other, at most as many as the fuel; `none` when it is spent.
  unfoldable pub mem_from :
      ℕ → Ptr → Ptr → Ptr → LinkState S × Jump → Outcome (Option (LinkState S × Bool))
  mem_from fuel th src dst (s, return got) = ok (some (s, got))
  mem_from zero th src dst (s, goto l) = ok none
  mem_from (suc fuel) th src dst (s, goto l) = mem_block th src dst l s >>= mem_from fuel th src dst

  unfoldable pub get_mem_links :
      ℕ → Ptr → Ptr → Ptr → LinkState S → Outcome (Option (LinkState S × Bool))
  unfolding mem_from
  get_mem_links fuel th src dst s =
      if (s.owners src).ident == (s.owners dst).ident
      then ok (some (s, true))
      else mem_from fuel th src dst
          (s, goto (if reversed src dst s then first_dest else second_src_link))

  -- LINKS_get_acc_links: what follows its first test is commented out.
  unfoldable pub get_acc_links : Ptr → Ptr → LinkState S → Bool
  get_acc_links src dst s = (s.owners src).ident == (s.owners dst).ident
