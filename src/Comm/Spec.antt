-- ===== src/Comm/Spec.antt =====
-- What the matching of messages promises: at each site the sends and receives without a partner, in
-- the order in which they came. An arrival takes the first one on the other side that meets it, or
-- it is the last one of its own side.
use dimemas.Base.{Bool, false, List, [], ◌∷◌, ◌++◌, Option, none, some, ◌==◌, if◌then◌else◌}
use dimemas.Graph.Act
use dimemas.Comm.Base.{CommThread, Desc, send_desc, recv_desc, meets}
use dimemas.Comm.Posting.{Kind, sends, recvs, opposite}

pub record Pending : Type 0 where
  pub sent : List CommThread
  pub received : List CommThread

abbrev pub pending : Kind → Pending → List CommThread
pending sends p = p.sent
pending recvs p = p.received

abbrev pub with_pending : Kind → List CommThread → Pending → Pending
with_pending sends l p = record p { sent = l }
with_pending recvs l p = record p { received = l }

abbrev pub behind :
    CommThread → Option (CommThread × List CommThread) → Option (CommThread × List CommThread)
behind x none = none
behind x (some (y, ys)) = some (y, x ∷ ys)

-- The first element that passes a test, with the others.
unfoldable pub take_first :
    (CommThread → Bool) → List CommThread → Option (CommThread × List CommThread)
take_first test [] = none
take_first test (x ∷ xs) =
    let rest = take_first test xs in if test x then some (x, xs) else behind x rest

abbrev pub settle :
    Kind
    → (CommThread → Bool)
    → CommThread
    → Pending
    → Option (CommThread × List CommThread)
    → Pending × Bool
settle kind answer thread p none =
    (with_pending (opposite kind) (pending (opposite kind) p ++ thread ∷ []) p, false)
settle kind answer thread p (some (partner, rest)) = (with_pending kind rest p, answer partner)

-- A thread arrives at a site; `test` says which of the other side meets it, and `answer` what the
-- one that does tells it.
unfoldable pub arrive :
    Kind → (test answer : CommThread → Bool) → CommThread → Pending → Pending × Bool
arrive kind test answer thread p = settle kind answer thread p (take_first test (pending kind p))

abbrev pub desc_meets : CommThread → CommThread → Desc → Desc → Bool
desc_meets sender receiver (send_desc m) (recv_desc r) = meets sender m receiver r
desc_meets sender receiver (send_desc m) (send_desc m') = false
desc_meets sender receiver (recv_desc r) d = false

-- Whether the message of the one thread is what the other one waits for.
abbrev pub meet : CommThread → CommThread → Bool
meet sender receiver = desc_meets sender receiver sender.desc receiver.desc

abbrev pub rendez_vous_of : Desc → Bool
rendez_vous_of (send_desc m) = m.rendez_vous
rendez_vous_of (recv_desc r) = false

abbrev pub receive : CommThread → Pending → Pending × Bool
receive thread =
    arrive sends (λ b. meet b thread) (λ (b : CommThread). rendez_vous_of b.desc) thread

abbrev pub send : CommThread → Pending → Pending × Bool
send thread = arrive recvs (λ b. meet thread b) (λ (b : CommThread). b.action == Act.irecv) thread
