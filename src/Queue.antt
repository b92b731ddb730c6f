-- ===== src/Queue.antt =====
-- Simulator/utils/list.c: the queues that every module of the simulator keeps its objects in. The
-- children declare the operations and prove them; their names are passed on from here.
mod Base
mod Priority
pub mod Removal
pub mod WellFormed
pub mod Calls
pub mod Sorted
pub mod Walk
pub mod Emptying
pub mod Insertion
pub mod Stack
pub mod Keys
pub mod Holding
mod Tests
pub use Base.{Ptr, a_nil, Item, Cursor, null, at, dangling, Queue, content_at, place}
unfoldable pub use Base.{
  create_queue, in_fifo_queue, in_lifo_queue, out_fifo_queue, out_lifo_queue, count_queue,
  empty_queue, head_queue, next_queue, tail_queue, prev_queue,
}
unfoldable pub use Priority.{
  insert_queue, insert_queue_from_back, insert_first_queue, insert_event, query_prio_queue,
}
unfoldable pub use Removal.{
  extract_from_queue, remove_queue_elements, move_queue_elements, top_event, empty_event,
  out_fifo_event,
}
