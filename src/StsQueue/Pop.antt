-- ===== src/StsQueue/Pop.antt =====
-- `pop` takes the first element.
use secure_chat.Prelude.{ℕ, ◌≡◌, refl, false, none, some, [], ◌∷◌, ◌==◌, arith, ok, Returns}
use secure_chat.StsQueue.{Addr, nil, Heap, put, Header, load, pop}
use secure_chat.StsQueue.Segment.{Cells, element, last_of, IsQueue, Seg-frame}

-- On an empty queue `pop` returns NULL and changes nothing.
pub pop-nil : (h : Heap) (q : Header) → IsQueue h q [] → pop h q ≡ ok (h, q, none)
unfolding pop
pop-nil h q is = ground arith

last_of_rest : (a t : Addr) (cs : Cells) → last_of a cs ≡ t → last_of t cs ≡ t
last_of_rest a t [] h = refl
last_of_rest a t (c ∷ cs) h = h

-- Otherwise it returns the first value, frees its element, and leaves the others.
pub pop-cons :
    (h : Heap) (q : Header) (a : Addr) (v : ℕ) (cs : Cells)
    → IsQueue h q ((a, v) ∷ cs)
    → Returns (pop h q) λ r. (r.2 ≡ some v) × IsQueue r.0 r.1 cs × (r.0 a ≡ none)
unfolding pop load
pop-cons h q a v cs is =
    let (e, n, out, (next, at, s)) = is.chain in
    let filled : (q.head == nil) ≡ false = ground arith in
    let here : h q.head ≡ some (element next v) = rw e at in
    (
      (put h q.head none, record q { head = next }, some v),
      rw filled (rw here refl),
      (
        refl,
        record {
          chain = Seg-frame h (put h q.head none) next cs (λ b i. ground arith) s;
          tail = last_of_rest a q.tail cs is.tail;
        },
        ground arith,
      ),
    )
