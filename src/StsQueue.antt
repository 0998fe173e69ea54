-- ===== src/StsQueue.antt =====
-- common/src/sts_queue.c: a linked queue of message pointers on an explicit heap. Its mutex is taken
-- around each operation, so an operation is one step.
pub mod Segment
pub mod Push
pub mod Pop
pub mod Order
pub mod Drain
use secure_chat.Prelude.{
  ℕ, Option, none, some, ◌==◌, if◌then◌else◌, Run, ok, fault, null_pointer, bad_pointer,
}

abbrev pub Addr : Type 0
Addr = ℕ

abbrev pub nil : Addr
nil = 0

-- `sts_element`; the value is a message pointer.
pub record Element : Type 0 where
  pub next : Addr
  pub value : ℕ

abbrev pub Heap : Type 0
Heap = Addr → Option Element

abbrev pub put : Heap → Addr → Option Element → Heap
put h p e a = if a == p then e else h a

-- `sts_header`
pub record Header : Type 0 where
  pub head : Addr
  pub tail : Addr

abbrev pub create : Header
create = record { head = nil; tail = nil }

-- A read through a pointer.
unfoldable pub load : Heap → Addr → Run Element
load h p = elim (h p) [ none ↦ fault bad_pointer | some e ↦ ok e ]

-- `element` is what `malloc` returns.
unfoldable pub push : Heap → Header → Addr → ℕ → Run (Heap × Header)
push h q element value =
    if element == nil
    then fault null_pointer
    else let h' = put h element (some (record { next = nil; value = value })) in
      if q.head == nil
      then ok (h', record { head = element; tail = element })
      else elim (load h' q.tail) [
        | fault e ↦ fault e
        | ok old_tail ↦
            ok (
              put h' q.tail (some (record old_tail { next = element })),
              record q { tail = element },
            )
      ]

-- The tail is left alone, also where the last element goes.
unfoldable pub pop : Heap → Header → Run (Heap × Header × Option ℕ)
pop h q = if q.head == nil then ok (h, q, none) else elim (load h q.head) [
  | fault e ↦ fault e
  | ok head ↦ ok (put h q.head none, record q { head = head.next }, some head.value)
]
