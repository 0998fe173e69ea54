-- ===== src/StsQueue/Push.antt =====
-- `push` appends an element.
use secure_chat.Prelude.{
  ℕ, ◌≡◌, ◌≢◌, refl, true, false, none, some, [], ◌∷◌, ◌++◌, ◌==◌, arith, subst, Returns,
}
use secure_chat.StsQueue.{Addr, nil, Heap, put, Header, load, push}
use secure_chat.StsQueue.Segment.{
  Cells, element, Seg, last_of, IsQueue, has-last_of, not-has_of_free, has-append, last_of-append,
}

module _ (fresh : Addr) (v : ℕ) (n : fresh ≢ nil) where
  -- The heap behind both writes.
  abbrev linked : Heap → Addr → ℕ → Heap
  linked h t w = put (put h fresh (some (element nil v))) t (some (element fresh w))

  -- The element that the last cell holds.
  abbrev last_value : ℕ → Cells → ℕ
  last_value w [] = w
  last_value w ((a, x) ∷ cs) = last_value x cs

  -- The last element points at NULL.
  Seg-last :
      (h : Heap) (p a : Addr) (w : ℕ) (cs : Cells)
      → Seg h p ((a, w) ∷ cs)
      → h (last_of a cs) ≡ some (element nil (last_value w cs))
  Seg-last h p a w [] (e, m, out, (q, at, s)) = rw (← s) at
  Seg-last h p a w ((b, x) ∷ cs) (e, m, out, (q, at, s)) = Seg-last h q b x cs s

  Seg-linked :
      (h : Heap) (p a : Addr) (w : ℕ) (cs : Cells)
      → h fresh ≡ none
      → Seg h p ((a, w) ∷ cs)
      → Seg (linked h (last_of a cs) (last_value w cs)) p (((a, w) ∷ cs) ++ ((fresh, v) ∷ []))
  Seg-linked h p a w [] free (e, m, out, (q, at, s)) =
      let out' = not-has_of_free h p ((a, w) ∷ []) fresh free (e, m, out, (q, at, s)) in
      (e, m, ground arith, (fresh, ground arith, (refl, n, refl, (nil, ground arith, refl))))
  Seg-linked h p a w ((b, x) ∷ cs) free (e, m, out, (q, at, s)) =
      let out' = not-has_of_free h p ((a, w) ∷ (b, x) ∷ cs) fresh free (e, m, out, (q, at, s)) in
      (
        e,
        m,
        has-append a fresh v ((b, x) ∷ cs) out (ground arith),
        (q, ground (arith, has-last_of b x cs), Seg-linked h q b x cs free s),
      )

-- On a queue, with memory for the element, `push` does not fault and puts the value behind those
-- that are there.
pub push-append :
    (h : Heap) (q : Header) (cs : Cells) (fresh : Addr) (v : ℕ)
    → IsQueue h q cs
    → fresh ≢ nil
    → h fresh ≡ none
    → Returns (push h q fresh v) λ r. IsQueue r.0 r.1 (cs ++ ((fresh, v) ∷ []))
unfolding push load
push-append h q [] fresh v is n free =
    let not_nil : (fresh == nil) ≡ false = ground arith in
    let no_head : (q.head == nil) ≡ true = ground arith in
    (
      (put h fresh (some (element nil v)), record { head = fresh; tail = fresh }),
      rw (not_nil, no_head) refl,
      record { chain = (refl, n, refl, (nil, ground arith, refl)); tail = refl },
    )
push-append h q ((a, w) ∷ cs) fresh v is n free =
    let x = last_value fresh v n w cs in
    let last : h q.tail ≡ some (element nil x) =
      subst (λ t. h t ≡ some (element nil x)) is.tail
        (Seg-last fresh v n h q.head a w cs is.chain) in
    let at : put h fresh (some (element nil v)) q.tail ≡ some (element nil x) = ground arith in
    let not_nil : (fresh == nil) ≡ false = ground arith in
    let filled : (q.head == nil) ≡ false = ground arith in
    (
      (linked fresh v n h q.tail x, record q { tail = fresh }),
      rw (not_nil, filled) (rw at refl),
      record {
        chain =
            subst (λ t. Seg (linked fresh v n h t x) q.head (((a, w) ∷ cs) ++ ((fresh, v) ∷ [])))
              is.tail (Seg-linked fresh v n h q.head a w cs free is.chain);
        tail = last_of-append q.tail fresh v ((a, w) ∷ cs);
      },
    )
