-- ===== src/Queue/Stack.antt =====
-- Simulator/utils/list.c: what is put in front of a queue comes out first.
use dimemas.Base.{◌+◌, ◌-◌, ◌≡◌, refl, false, ltb, ◌==◌, arith}
use dimemas.Queue.Base.{
  Ptr, Cursor, null, at, dangling, Queue, after_insert, after_free, in_lifo_queue, out_fifo_queue,
}

after_free-after_insert : (c : Cursor) → after_free 0 (after_insert 0 c) ≡ c
after_free-after_insert null = refl
after_free-after_insert (at j) =
    let same : j + 1 - 1 ≡ j = omega arith in
    let not_first : (j + 1 == 0) ≡ false = ground arith in
    let not_before : ltb j 0 ≡ false = ground arith in
    let not_before' : ltb (j + 1) 0 ≡ false = ground arith in
    rw (not_before, not_before', not_first, same)
after_free-after_insert dangling = refl

module _ {K : Type 0} where
  pub out_fifo_queue-in_lifo_queue :
      (q : Queue K) (left : K) (c : Ptr) → out_fifo_queue (in_lifo_queue left q c) ≡ (q, c)
  unfolding out_fifo_queue in_lifo_queue
  out_fifo_queue-in_lifo_queue q left c =
      let same : q.count + 1 - 1 ≡ q.count = omega arith in
      rw (same, after_free-after_insert q.curr)
