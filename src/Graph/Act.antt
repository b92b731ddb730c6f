-- ===== src/Graph/Act.antt =====
-- include/define.h: the kinds of actions in a trace that the graph tells apart.
use dimemas.Base.{ℕ}

abbrev pub send : ℕ
send = 2

abbrev pub recv : ℕ
recv = 3

abbrev pub global_op : ℕ
global_op = 11

abbrev pub irecv : ℕ
irecv = 14

abbrev pub wait : ℕ
wait = 15
