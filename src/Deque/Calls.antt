-- ===== src/Deque/Calls.antt =====
-- The calls at the two ends of a deque of src/deque.c, against a list of its cells.
use libhx.Deque.Chain.{Cells, IsDeque, last_of-append, Avoids-split}
use libhx.Deque.Ends.{deque_of, settled, Leaves, push-cells, unshift-cells}
use libhx.Deque.Remove.{del-IsDeque}
use libhx.Deque.{Heap, Deque, push, unshift, del, pop, shift}
use libhx.Prelude.{
  ℕ, zero, suc, ◌≡◌, refl, sym, ◌∙◌, subst, false, Option, none, some, [], ◌∷◌, ◌++◌, append-nil,
  ◌==◌, if◌then◌else◌, arith,
}

-- A call at one of the ends; malloc gives the address, or 0.
pub data Step : Type 0 where
  s_push s_unshift : (fresh v : ℕ) → Step
  s_pop s_shift : Step

unfoldable pub step : Step → Deque → Option (ℕ × Deque)
unfolding push unshift pop shift
step (s_push fresh v) dq = push fresh dq v
step (s_unshift fresh v) dq = unshift fresh dq v
step s_pop dq = pop dq
step s_shift dq = shift dq

-- What a call returns for a list of cells, and the cells after it.
pub data Answers : Step → Cells → ℕ → Cells → Type 0 where
  no_memory_push : (v : ℕ) (xs : Cells) → Answers (s_push 0 v) xs 0 xs
  no_memory_unshift : (v : ℕ) (xs : Cells) → Answers (s_unshift 0 v) xs 0 xs
  pushed :
      (fresh v : ℕ) (xs : Cells)
      → (fresh == 0) ≡ false
      → Answers (s_push fresh v) xs fresh (xs ++ (fresh, v) ∷ [])
  unshifted :
      (fresh v : ℕ) (xs : Cells)
      → (fresh == 0) ≡ false
      → Answers (s_unshift fresh v) xs fresh ((fresh, v) ∷ xs)
  no_last : Answers s_pop [] 0 []
  no_first : Answers s_shift [] 0 []
  popped : (a v : ℕ) (xs : Cells) → Answers s_pop (xs ++ (a, v) ∷ []) v xs
  shifted : (a v : ℕ) (xs : Cells) → Answers s_shift ((a, v) ∷ xs) v xs

-- what malloc gives is NULL or no node
abbrev pub Fresh : Heap → Step → Type 0
Fresh h (s_push fresh v) = ((fresh == 0) ≡ false) → h fresh ≡ none
Fresh h (s_unshift fresh v) = ((fresh == 0) ≡ false) → h fresh ≡ none
Fresh h s_pop = Unit
Fresh h s_shift = Unit

abbrev pub Refines : Deque → Cells → Step → Type 0
Refines dq xs s = (ret : ℕ) × (ys : Cells) × Answers s xs ret ys × Leaves (step s dq) ret ys

null_push :
    (h : Heap) (v : ℕ) (xs : Cells)
    → IsDeque (deque_of h xs) xs
    → Refines (deque_of h xs) xs (s_push 0 v)
unfolding step push
null_push h v xs k = (0, xs, no_memory_push v xs, (deque_of h xs, refl, k))

null_unshift :
    (h : Heap) (v : ℕ) (xs : Cells)
    → IsDeque (deque_of h xs) xs
    → Refines (deque_of h xs) xs (s_unshift 0 v)
unfolding step unshift push
null_unshift h v [] k = (0, [], no_memory_unshift v [], (deque_of h [], refl, k))
null_unshift h v ((b, w) ∷ ys) k = (
  0,
  (b, w) ∷ ys,
  no_memory_unshift v ((b, w) ∷ ys),
  (deque_of h ((b, w) ∷ ys), rw (k.no_null.0, unshift) refl, k),
)

-- the last cell, if there is one
data Snoc : Cells → Type 0 where
  empty : Snoc []
  snoc : (xs : Cells) (a v : ℕ) → Snoc (xs ++ (a, v) ∷ [])

snoc-cons : (b w : ℕ) (xs : Cells) → Snoc xs → Snoc ((b, w) ∷ xs)
snoc-cons b w _ empty = snoc [] b w
snoc-cons b w _ (snoc xs a v) = snoc ((b, w) ∷ xs) a v

ending : (xs : Cells) → Snoc xs
ending [] = empty
ending ((b, w) ∷ xs) = snoc-cons b w xs (ending xs)

pop-at : (dq : Deque) (a : ℕ) → dq.last ≡ a → (a == 0) ≡ false → pop dq ≡ del dq a
unfolding pop
pop-at dq a e z =
    subst (λ x. (if x == 0 then some (0, dq) else del dq x) ≡ del dq a) (sym e) (rw z refl)

suc_nonzero : (p : ℕ) → (suc p == 0) ≡ false
suc_nonzero p = ground arith

pop-Refines :
    (h : Heap) (xs : Cells)
    → Snoc xs
    → IsDeque (deque_of h xs) xs
    → Refines (deque_of h xs) xs s_pop
unfolding step pop
pop-Refines h _ empty k = (0, [], no_last, (deque_of h [], refl, k))
pop-Refines h _ (snoc xs a v) k =
    let dq = deque_of h (xs ++ (a, v) ∷ []) in
    let (dq', e, k', _) = del-IsDeque dq xs [] a v k in
    let at_end : dq.last ≡ a = last_of-append 0 xs ((a, v) ∷ []) in
    let (_, node) = Avoids-split 0 xs ((a, v) ∷ []) k.no_null in
    (
      v,
      xs,
      popped a v xs,
      (dq', pop-at dq a at_end node.0 ∙ e, subst (IsDeque dq') (append-nil xs) k'),
    )

shift-Refines :
    (h : Heap) (xs : Cells) → IsDeque (deque_of h xs) xs → Refines (deque_of h xs) xs s_shift
unfolding step shift
shift-Refines h [] k = (0, [], no_first, (deque_of h [], refl, k))
shift-Refines h ((a, v) ∷ xs) k =
    let (dq', e, k', _) = del-IsDeque (deque_of h ((a, v) ∷ xs)) [] xs a v k in
    (v, xs, shifted a v xs, (dq', rw (k.no_null.0, shift) e, k'))

push-Refines :
    (h : Heap) (fresh v : ℕ) (xs : Cells)
    → Fresh h (s_push fresh v)
    → IsDeque (deque_of h xs) xs
    → Refines (deque_of h xs) xs (s_push fresh v)
unfolding step
push-Refines h zero v xs f k = null_push h v xs k
push-Refines h (suc p) v xs f k = (
  suc p,
  xs ++ (suc p, v) ∷ [],
  pushed (suc p) v xs (suc_nonzero p),
  push-cells h (suc p) v xs (suc_nonzero p) (f (suc_nonzero p)) k,
)

unshift-Refines :
    (h : Heap) (fresh v : ℕ) (xs : Cells)
    → Fresh h (s_unshift fresh v)
    → IsDeque (deque_of h xs) xs
    → Refines (deque_of h xs) xs (s_unshift fresh v)
unfolding step
unshift-Refines h zero v xs f k = null_unshift h v xs k
unshift-Refines h (suc p) v xs f k = (
  suc p,
  (suc p, v) ∷ xs,
  unshifted (suc p) v xs (suc_nonzero p),
  unshift-cells h (suc p) v xs (suc_nonzero p) (f (suc_nonzero p)) k,
)

cells-Refines :
    (h : Heap) (xs : Cells) (s : Step)
    → Fresh h s
    → IsDeque (deque_of h xs) xs
    → Refines (deque_of h xs) xs s
cells-Refines h xs (s_push fresh v) f k = push-Refines h fresh v xs f k
cells-Refines h xs (s_unshift fresh v) f k = unshift-Refines h fresh v xs f k
cells-Refines h xs s_pop f k = pop-Refines h xs (ending xs) k
cells-Refines h xs s_shift f k = shift-Refines h xs k

-- HXdeque_push, HXdeque_unshift, HXdeque_pop and HXdeque_shift on a valid deque, where malloc gives
-- NULL or memory that is no node, never touch memory that is not a node, return what the same call on
-- the list of the cells returns, NULL on an empty deque and without memory included, and leave a valid
-- deque of the cells after that call.
pub step-Refines :
    (dq : Deque) (xs : Cells) (s : Step) → Fresh dq.heap s → IsDeque dq xs → Refines dq xs s
step-Refines dq xs s f k =
    let e = settled dq xs k in
    subst (λ d. Refines d xs s) e
      (cells-Refines dq.heap xs s f (subst (λ d. IsDeque d xs) (sym e) k))
