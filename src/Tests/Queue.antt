-- ===== src/Tests/Queue.antt =====
-- Examples of the theorems on the queue.
use secure_chat.Prelude.{ℕ, ◌≡◌, refl, ◌∷◌, [], ◌++◌, none, some, List, length, ok, Returns, arith}
use secure_chat.StsQueue.{nil, Heap, create, push, pop, put}
use secure_chat.StsQueue.Segment.{IsQueue}
use secure_chat.StsQueue.Drain.{pops, Trace-delivered}
use secure_chat.StsQueue.Order.{State, Trace, start, pushed}

abbrev no_heap : Heap
no_heap a = none

abbrev state0 : State
state0 = record { heap = no_heap; header = create }

abbrev state1 : State
state1 = record {
  heap = put no_heap 5 (some (record { next = nil; value = 42 }));
  header = record { head = 5; tail = 5 };
}

abbrev state2 : State
state2 = record { heap = put state1.heap 5 none; header = record { head = nil; tail = 5 } }

push42 : push no_heap create 5 42 ≡ ok (state1.heap, state1.header)
unfolding push
push42 = refl

pop_empty : pop state2.heap state2.header ≡ ok (state2.heap, state2.header, none)
unfolding pop
pop_empty = refl

waiting : Trace (42 ∷ []) [] state1
waiting =
    pushed {s = state0} {t = state1} (start no_heap) 5 42 (λ e. absurd (omega arith)) refl push42

Trace-delivered_example :
    (pending : List ℕ) × (42 ∷ [] ≡ [] ++ pending)
    × Returns
        (pops (length pending) state1.heap state1.header)
        (λ r. (r.0 ≡ pending) × IsQueue r.1 r.2 [])
Trace-delivered_example = Trace-delivered (42 ∷ []) [] state1 waiting
