-- ===== src/Deque/Whole.antt =====
-- The loops over a whole deque of src/deque.c: HXdeque_to_vec, HXdeque_find and HXdeque_genocide2.
use libhx.Deque.Chain.{Cells, head_of, Chain, Avoids, Distinct, IsDeque, Chain-write}
use libhx.Deque.{Heap, Deque, write, vec_loop, to_vec, find_loop, find, genocide_loop, genocide}
use libhx.Prelude.{
  ℕ, zero, suc, ◌≡◌, refl, ap, none, some, List, [], ◌∷◌, length, inl, inr, Bool-cases, ◌==◌,
  if◌then◌else◌, arith,
}

-- the data of the cells
abbrev pub data_of : Cells → List ℕ
data_of [] = []
data_of ((a, v) ∷ xs) = v ∷ data_of xs

-- the first cell with a datum, or NULL
abbrev pub holder : ℕ → Cells → ℕ
holder ptr [] = 0
holder ptr ((a, v) ∷ xs) = if v == ptr then a else holder ptr xs

vec_loop-data_of :
    (h : Heap) (prev : ℕ) (xs : Cells)
    → Chain h prev xs 0
    → Avoids 0 xs
    → vec_loop (suc (length xs)) h (head_of xs 0) ≡ some (data_of xs)
unfolding vec_loop
vec_loop-data_of h prev [] k real = refl
vec_loop-data_of h prev ((zero, v) ∷ xs) k real = absurd (ground (arith, real.0))
vec_loop-data_of h prev ((suc a, v) ∷ xs) k real =
    rw (k.0, vec_loop) (rw (vec_loop-data_of h (suc a) xs k.1 real.1) refl)

find_loop-holder :
    (h : Heap) (prev ptr : ℕ) (xs : Cells)
    → Chain h prev xs 0
    → Avoids 0 xs
    → find_loop (suc (length xs)) h (head_of xs 0) ptr ≡ some (holder ptr xs)
unfolding find_loop
find_loop-holder h prev ptr [] k real = refl
find_loop-holder h prev ptr ((zero, v) ∷ xs) k real = absurd (ground (arith, real.0))
find_loop-holder h prev ptr ((suc a, v) ∷ xs) k real =
    let rest = find_loop-holder h (suc a) ptr xs k.1 real.1 in
    elim (Bool-cases (v == ptr)) [
      | inl e ↦ rw (k.0, find_loop) (rw e refl)
      | inr e ↦ rw (k.0, find_loop) (rw e rest)
    ]

genocide_loop-cells :
    (h : Heap) (prev : ℕ) (xs : Cells)
    → Chain h prev xs 0
    → Distinct xs
    → Avoids 0 xs
    → genocide_loop (suc (length xs)) h (head_of xs 0) ≡ some xs
unfolding genocide_loop
genocide_loop-cells h prev [] k apart real = refl
genocide_loop-cells h prev ((zero, v) ∷ xs) k apart real = absurd (ground (arith, real.0))
genocide_loop-cells h prev ((suc a, v) ∷ xs) k apart real =
    let later = Chain-write h (suc a) none (suc a) 0 xs apart.0 k.1 in
    rw (k.0, genocide_loop)
      (rw (genocide_loop-cells (write h (suc a) none) (suc a) xs later apart.1 real.1) refl)

length-data_of : (xs : Cells) → length (data_of xs) ≡ length xs
length-data_of [] = refl
length-data_of ((a, v) ∷ xs) = ap suc (length-data_of xs)

-- On a valid deque HXdeque_to_vec writes the data of all nodes in order, as many as the vector has
-- places; HXdeque_find returns the first node with the datum, or NULL; and HXdeque_genocide2 gives each
-- datum to `xfree` and each node to free exactly once, and reads no node after it has been freed.
pub loops-cells :
    (dq : Deque) (xs : Cells) (ptr : ℕ)
    → IsDeque dq xs
    → (to_vec dq ≡ some (data_of xs))
      × (length (data_of xs) ≡ dq.items)
      × (find dq ptr ≡ some (holder ptr xs))
      × (genocide dq ≡ some xs)
unfolding to_vec find genocide
loops-cells dq xs ptr k = (
  rw (k.items, k.first) (vec_loop-data_of dq.heap 0 xs k.chain k.no_null),
  rw k.items (length-data_of xs),
  rw (k.items, k.first) (find_loop-holder dq.heap 0 ptr xs k.chain k.no_null),
  rw (k.items, k.first) (genocide_loop-cells dq.heap 0 xs k.chain k.distinct k.no_null),
)
