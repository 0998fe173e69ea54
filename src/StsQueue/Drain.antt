-- ===== src/StsQueue/Drain.antt =====
-- Every value that was pushed comes out.
use secure_chat.Prelude.{
  ℕ, zero, suc, ◌≡◌, refl, ap, Option, none, some, List, [], ◌∷◌, ◌++◌, length, Run, ok, ◌>>=◌,
  Returns,
}
use secure_chat.StsQueue.{Heap, Header, pop}
use secure_chat.StsQueue.Segment.{Cells, IsQueue, values}
use secure_chat.StsQueue.Pop.{pop-cons}
use secure_chat.StsQueue.Order.{State, Trace, Trace-fifo}

abbrev pub and_value : Option ℕ → List ℕ → List ℕ
and_value none vs = vs
and_value (some v) vs = v ∷ vs

-- So many calls of `pop`, and the values that they return.
abbrev pub pops : ℕ → Heap → Header → Run (List ℕ × Heap × Header)
pops zero h q = ok ([], h, q)
pops (suc n) h q = pop h q >>= λ r. pops n r.0 r.1 >>= λ t. ok (and_value r.2 t.0, t.1, t.2)

pops-values :
    (cs : Cells) (h : Heap) (q : Header)
    → IsQueue h q cs
    → Returns (pops (length (values cs)) h q) (λ r. (r.0 ≡ values cs) × IsQueue r.1 r.2 [])
pops-values [] h q is = (([], h, q), refl, (refl, is))
pops-values ((a, v) ∷ cs) h q is =
    let (r, run, (got, is', gone)) = pop-cons h q a v cs is in
    let (t, rest, (all, empty)) = pops-values cs r.0 r.1 is' in
    ((v ∷ t.0, t.1, t.2), rw run (rw rest (rw got refl)), (ap (λ vs. v ∷ vs) all, empty))

-- Whatever the calls were, as many calls of `pop` as values are still in the queue return all of
-- them, in the order of the pushes, and leave it empty.
pub Trace-delivered :
    (ins outs : List ℕ) (s : State)
    → Trace ins outs s
    → (pending : List ℕ) × (ins ≡ outs ++ pending)
      × Returns (pops (length pending) s.heap s.header) (λ r. (r.0 ≡ pending) × IsQueue r.1 r.2 [])
Trace-delivered ins outs s trace =
    let (cs, is, e) = Trace-fifo ins outs s trace in
    (values cs, e, pops-values cs s.heap s.header is)
