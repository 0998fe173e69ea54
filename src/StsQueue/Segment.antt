-- ===== src/StsQueue/Segment.antt =====
-- What a header and a heap stand for: the elements of the queue, in order.
use secure_chat.Prelude.{
  ℕ, ◌≡◌, ◌≢◌, refl, ◌∙◌, Bool, true, false, ◌||◌, none, some, List, [], ◌∷◌, ◌++◌, ◌==◌, arith,
}
use secure_chat.StsQueue.{Addr, nil, Element, Heap, Header}

-- Address and value of each element.
abbrev pub Cells : Type 0
Cells = List (Addr × ℕ)

abbrev pub has : Addr → Cells → Bool
has a [] = false
has a ((p, v) ∷ cs) = a == p || has a cs

abbrev pub element : Addr → ℕ → Element
element q v = record { next = q; value = v }

-- From `p` the `next` pointers lead through distinct elements to NULL.
abbrev pub Seg : Heap → Addr → Cells → Type 0
Seg h p [] = p ≡ nil
Seg h p ((a, v) ∷ cs) =
    (p ≡ a)
    × (a ≢ nil)
    × (has a cs ≡ false)
    × ((q : Addr) × (h a ≡ some (element q v)) × Seg h q cs)

abbrev pub last_of : Addr → Cells → Addr
last_of d [] = d
last_of d ((a, v) ∷ cs) = last_of a cs

-- The header reaches the elements, and its tail is the last of them where there is one.
pub record IsQueue (h : Heap) (q : Header) (cs : Cells) : Type 0 where
  pub chain : Seg h q.head cs
  pub tail : last_of q.tail cs ≡ q.tail

abbrev pub values : Cells → List ℕ
values [] = []
values ((a, v) ∷ cs) = v ∷ values cs

pub has-last_of : (a : Addr) (v : ℕ) (cs : Cells) → has (last_of a cs) ((a, v) ∷ cs) ≡ true
has-last_of a v [] = ground arith
has-last_of a v ((b, w) ∷ cs) = ground (arith, has-last_of b w cs)

-- A segment does not see changes outside its elements.
pub Seg-frame :
    (h g : Heap) (p : Addr) (cs : Cells)
    → ((a : Addr) → has a cs ≡ true → g a ≡ h a)
    → Seg h p cs
    → Seg g p cs
Seg-frame h g p [] same s = s
Seg-frame h g p ((a, v) ∷ cs) same (e, n, out, (q, at, s)) = (
  e,
  n,
  out,
  (q, same a (ground arith) ∙ at, Seg-frame h g q cs (λ b i. same b (ground arith)) s),
)

-- An address that is not allocated is not in the segment.
pub not-has_of_free :
    (h : Heap) (p : Addr) (cs : Cells) (a : Addr) → h a ≡ none → Seg h p cs → has a cs ≡ false
not-has_of_free h p [] a free s = refl
not-has_of_free h p ((b, v) ∷ cs) a free (e, n, out, (q, at, s)) =
    ground (arith, not-has_of_free h q cs a free s)

pub has-append :
    (a b : Addr) (v : ℕ) (cs : Cells)
    → has a cs ≡ false
    → a ≢ b
    → has a (cs ++ ((b, v) ∷ [])) ≡ false
has-append a b v [] h d = ground arith
has-append a b v ((p, w) ∷ cs) h d = ground (arith, has-append a b v cs)

pub last_of-append : (d b : Addr) (v : ℕ) (cs : Cells) → last_of d (cs ++ ((b, v) ∷ [])) ≡ b
last_of-append d b v [] = refl
last_of-append d b v ((p, w) ∷ cs) = last_of-append p b v cs

pub values-append :
    (b : Addr) (v : ℕ) (cs : Cells) → values (cs ++ ((b, v) ∷ [])) ≡ values cs ++ (v ∷ [])
values-append b v [] = refl
values-append b v ((p, w) ∷ cs) = rw (values-append b v cs)
