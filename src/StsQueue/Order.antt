-- ===== src/StsQueue/Order.antt =====
-- The queue under any sequence of calls.
use secure_chat.Prelude.{
  ℕ, ◌≡◌, ◌≢◌, refl, sym, ◌∙◌, Option, none, some, List, [], ◌∷◌, ◌++◌, ok, subst, ok-injective,
}
use mathlib.Core.List.{append-nil, append_assoc}
use secure_chat.StsQueue.{Addr, nil, Heap, Header, create, push, pop}
use secure_chat.StsQueue.Segment.{Cells, IsQueue, values, values-append}
use secure_chat.StsQueue.Push.{push-append}
use secure_chat.StsQueue.Pop.{pop-nil, pop-cons}

pub record State : Type 0 where
  pub heap : Heap
  pub header : Header

-- Calls from the creation on, by whatever threads: the values that were pushed, the values that
-- were returned, and the state. `malloc` returns an address that is not in use.
pub data Trace : List ℕ → List ℕ → State → Type 0 where
  start : (h : Heap) → Trace [] [] (record { heap = h; header = create })
  pushed :
      {ins outs : List ℕ} {s t : State}
      → Trace ins outs s
      → (fresh : Addr) (v : ℕ) → fresh ≢ nil
      → s.heap fresh ≡ none
      → push s.heap s.header fresh v ≡ ok (t.heap, t.header)
      → Trace (ins ++ (v ∷ [])) outs t
  popped :
      {ins outs : List ℕ} {s t : State}
      → Trace ins outs s
      → (v : ℕ) → pop s.heap s.header ≡ ok (t.heap, t.header, some v)
      → Trace ins (outs ++ (v ∷ [])) t
  found_empty :
      {ins outs : List ℕ} {s t : State}
      → Trace ins outs s
      → pop s.heap s.header ≡ ok (t.heap, t.header, none)
      → Trace ins outs t

-- The elements of a state, and what is known of them.
abbrev Ordered : List ℕ → List ℕ → State → Type 0
Ordered ins outs s = (cs : Cells) × IsQueue s.heap s.header cs × (ins ≡ outs ++ values cs)

push-Ordered :
    (s t : State) (ins outs : List ℕ) (fresh : Addr) (v : ℕ)
    → Ordered ins outs s
    → fresh ≢ nil
    → s.heap fresh ≡ none
    → push s.heap s.header fresh v ≡ ok (t.heap, t.header)
    → Ordered (ins ++ (v ∷ [])) outs t
push-Ordered s t ins outs fresh v (cs, is, e) n free run =
    let (r, run', is') = push-append s.heap s.header cs fresh v is n free in
    let same : r ≡ (t.heap, t.header) = ok-injective (cc) in
    (
      cs ++ ((fresh, v) ∷ []),
      subst (λ (x : Heap × Header). IsQueue x.0 x.1 (cs ++ ((fresh, v) ∷ []))) same is',
      rw (e, values-append fresh v cs) (append_assoc outs (values cs) (v ∷ [])),
    )

some-Ordered :
    (s t : State) (ins outs : List ℕ) (v : ℕ) (cs : Cells)
    → IsQueue s.heap s.header cs
    → ins ≡ outs ++ values cs
    → pop s.heap s.header ≡ ok (t.heap, t.header, some v)
    → Ordered ins (outs ++ (v ∷ [])) t
some-Ordered s t ins outs v [] is e run = cc (pop-nil s.heap s.header is)
some-Ordered s t ins outs v ((a, w) ∷ cs) is e run =
    let (r, run', (got, is', gone)) = pop-cons s.heap s.header a w cs is in
    let same : r ≡ (t.heap, t.header, some v) = ok-injective (cc) in
    let w_eq : w ≡ v = cc in
    (
      cs,
      subst (λ (x : Heap × Header × Option ℕ). IsQueue x.0 x.1 cs) same is',
      rw (e, w_eq) (sym (append_assoc outs (v ∷ []) (values cs))),
    )

none-Ordered :
    (s t : State) (ins outs : List ℕ) (cs : Cells)
    → IsQueue s.heap s.header cs
    → ins ≡ outs ++ values cs
    → pop s.heap s.header ≡ ok (t.heap, t.header, none)
    → Ordered ins outs t × (ins ≡ outs)
none-Ordered s t ins outs [] is e run =
    let same : (s.heap, s.header, none) ≡ (t.heap, t.header, none) =
      ok-injective {V = Heap × Header × Option ℕ} (sym (pop-nil s.heap s.header is) ∙ run) in
    (
      ([], subst (λ (x : Heap × Header × Option ℕ). IsQueue x.0 x.1 []) same is, e),
      e ∙ append-nil outs,
    )
none-Ordered s t ins outs ((a, w) ∷ cs) is e run =
    let (r, run', (got, is', gone)) = pop-cons s.heap s.header a w cs is in
    let same : r ≡ (t.heap, t.header, none) = ok-injective (cc) in cc

Trace-Ordered : {ins outs : List ℕ} {s : State} → Trace ins outs s → Ordered ins outs s
Trace-Ordered (start h) = ([], record { chain = refl; tail = refl }, refl)
Trace-Ordered (pushed {ins} {outs} {s} {t} r fresh v n free run) =
    push-Ordered s t ins outs fresh v (Trace-Ordered r) n free run
Trace-Ordered (popped {ins} {outs} {s} {t} r v run) =
    let (cs, is, e) = Trace-Ordered r in some-Ordered s t ins outs v cs is e run
Trace-Ordered (found_empty {ins} {outs} {s} {t} r run) =
    let (cs, is, e) = Trace-Ordered r in (none-Ordered s t ins outs cs is e run).0

pub Trace-fifo :
    (ins outs : List ℕ) (s : State)
    → Trace ins outs s
    → (cs : Cells) × IsQueue s.heap s.header cs × (ins ≡ outs ++ values cs)
Trace-fifo ins outs s r = Trace-Ordered r

-- `pop` returns NULL only after every value that was pushed has been returned.
pub Trace-drained :
    (ins outs : List ℕ) (s t : State)
    → Trace ins outs s
    → pop s.heap s.header ≡ ok (t.heap, t.header, none)
    → ins ≡ outs
Trace-drained ins outs s t r run =
    let (cs, is, e) = Trace-Ordered r in (none-Ordered s t ins outs cs is e run).1
