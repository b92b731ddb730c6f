-- ===== src/Lib.antt =====
-- Dimemas, the trace-driven simulator of message-passing programs (Simulator/): its core modelled
-- as pure functions on explicit state. The trace of a program is replayed on a described platform:
-- the modules (scheduler, communications, file system, ports, memory) set timers for the threads,
-- the event queue orders them, and the loop of main hands each event to its module. All of them
-- keep their objects in the queues of utils/list.c, and a deadlock analysis follows the messages
-- on a graph of dependencies between the tasks.
--
-- The parts
--   Base      what all files share: Boolean tests, lists, outcomes of C code, C integers.
--   Queue     Simulator/utils/list.c. Queue/Base has `t_queue` (the chain as a list, the pointer
--             `curr` as a place, the field `count`) with create_queue, inFIFO_queue, outFIFO_queue,
--             inLIFO_queue, outLIFO_queue, count_queue, empty_queue and the walk by head_queue,
--             next_queue, tail_queue and prev_queue; Queue/Priority the sorted insertions
--             (insert_queue, insert_queue_from_back, insert_first_queue, insert_event) and
--             query_prio_queue; Queue/Removal extract_from_queue, remove_queue_elements,
--             move_queue_elements, top_event and outFIFO_event.
--   Events    Simulator/sched/events.c and the loop of Simulator/main.cpp. Events/Timers has the
--             state (the event queue, the clock, the count of daemons, the blocks of the events and
--             the threads) with EVENT_Init, EVENT_timer, EVENT_extract_timer and events_for_thread;
--             Events/Manager has event_manager and the loop. The loop uses Queue through
--             insert_event, top_event and outFIFO_event, and it calls the modules through a record
--             of functions.
--   Graph     Simulator/utils/graph.c. Graph/Base has the map of dependency queues and the
--             operations that change it, Graph/Search the two queries and the search for a cycle.
--   Sched     Simulator/sched/SCH_rr.c: Sched/RoundRobin has the policy of a turn of a thread on its
--             CPU, with RR_thread_to_ready, RR_get_execution_time and RR_next_thread_to_run on the
--             ready queue of a node; Sched/Dispatch, for Simulator/sched/schedule.c and
--             Simulator/model/cpu.c, the choice of a CPU and the start of a thread on it
--             (select_free_cpu, num_free_cpu, put_thread_on_run, SCHEDULER_next_thread_to_run).
--   Semaphore Simulator/model/semaphore.c: Semaphore/Base has the semaphores of a task with
--             SEMAPHORE_Init, SEMAPHORE_signal, SEMAPHORE_wait and SEMAPHORE_signal_n, and the
--             scheduler they call as a record of functions.
--   Ports     Simulator/model/ports.c. Ports/Base has the ports, the threads and locate_port;
--             Ports/Transfer the transfer between two threads that have met (really_port_send) and
--             its end (PORT_general); Ports/Operations PORT_create, PORT_delete, PORT_send and
--             PORT_receive. The links, the timers, the scheduler and the file system are a record of
--             functions.
--   Links     Simulator/model/links.c, the links of memory, machines and dedicated connections.
--             Links/Base has the queues of links of an owner and the fields of the threads;
--             Links/Acquire LINKS_get_mem_links (its labels and gotos), LINKS_get_wan_links,
--             LINKS_get_single_wan_link and LINKS_get_dedicated_connection_links; Links/Release the
--             functions that give a link back and wake the threads that wait, which go on through a
--             record of functions; Links/Ports LINKS_get_port_links and LINKS_free_network_link.
--   Rma       Simulator/model/memory.c: Rma/Locks has the locks of windows, os_lock and os_unlock,
--             from_rank_to_task and from_taskid_to_task, with the next actions of threads as a
--             record of functions.
--   Comm      Simulator/model/communic.c, the matching of messages. Comm/Base has the messages and
--             the queues of a site (a task for MPI, a thread for synchronization); Comm/Posting
--             COMMUNIC_send_reached and COMMUNIC_recv_reached on both levels; Comm/Spec what they
--             promise, on lists; Comm/Rendezvous the search for the sender of a rendez-vous.
--   Deadlock  Simulator/utils/deadlock_analysis.c. Deadlock/Analysis has
--             DEADLOCK_new_communic_event, one function for each kind of action, and
--             DEADLOCK_manage_global_dependency, on top of Graph.
-- In each folder the other files are named for what they prove, and Tests has concrete runs.
--
-- How the code is read
--   A function that returns in every state is a function of the state; one that may call `panic`,
--   fail an assertion, or read through a bad pointer gives an outcome (`ok`, `panic`, `undefined`).
--   The address that `malloc` returns is an argument (`fresh`), as is a field of the new block that
--   the code leaves unwritten (`left`). Times and priorities, doubles in C, are whole numbers on a
--   fixed scale: only their order and sums of equal scale are read. Where round robin takes a burst
--   apart, the rounding of the machine is a parameter. A module of the program that another part
--   calls as a parameter has no law: a theorem says in which state the call is made. Counters are the numbers of the
--   library; they are bounded by the number of blocks in memory, below the range of the C type.
--   The loop over the events is on fuel of one unit for each round, the search for a cycle on one
--   unit for each nested call, and the jumps of LINKS_get_mem_links on one for each block. Running
--   out is a result of its own for the loop and the jumps, where 2 are enough if they end. For the
--   search any number above the length of the longest way that avoids the root is enough; a search
--   that runs out of it, as one that reads out of the map, is undefined behaviour of its caller.
--
-- What is not modelled
--   The links `next` and `prev` of the chains on a heap; the variant of the queues under
--   USE_EQUEUE and the hooks of VENUS; the reboots of a simulation after a deadlock; the debug
--   output and the traces for Paraver; the rest of the modules behind the events (schedule.c,
--   communic.c, links.c, fs.c, memory.c), all of which are a parameter of the loop; the reading of
--   the configuration; and the programs beside the simulator (prv2dim, the GUI, the converters of
--   configurations).
pub mod Base
pub mod Comm
pub mod Deadlock
pub mod Events
pub mod Graph
pub mod Links
pub mod Ports
pub mod Queue
pub mod Rma
pub mod Sched
pub mod Semaphore
