-- ===== src/Deque/Ends.antt =====
-- HXdeque_push and HXdeque_unshift of src/deque.c on valid deques.
use libhx.Deque.Chain.{
  Cells, head_of, last_of, node_of, IsDeque, write_here, write_there, Chain-write, last_of-append,
  Chain-join, Avoids-join, Chain-set_prev, Chain-set_next, Distinct-snoc, Avoids-free, last-Avoids,
  flip,
}
use libhx.Deque.{Node, Heap, Deque, write, update, set_next, push, unshift}
use libhx.Prelude.{
  ℕ, suc, ◌≡◌, refl, sym, ◌∙◌, false, Option, none, some, [], ◌∷◌, ◌++◌, length, length-append,
  ◌==◌, arith,
}

-- the deque that the cells in a heap determine
abbrev pub deque_of : Heap → Cells → Deque
deque_of h xs = record { first = head_of xs 0; last = last_of 0 xs; items = length xs; heap = h }

pub settled : (dq : Deque) (xs : Cells) → IsDeque dq xs → deque_of dq.heap xs ≡ dq
settled dq xs k = λ i. record {
  first = sym k.first i;
  last = sym k.last i;
  items = sym k.items i;
  heap = dq.heap;
}

-- what a call leaves
abbrev pub Leaves : Option (ℕ × Deque) → ℕ → Cells → Type 0
Leaves r ret xs = (dq : Deque) × (r ≡ some (ret, dq)) × IsDeque dq xs

length-snoc : (a v : ℕ) (xs : Cells) → suc (length xs) ≡ length (xs ++ (a, v) ∷ [])
length-snoc a v xs = omega (arith, length-append xs ((a, v) ∷ []))

pub push-cells :
    (h : Heap) (fresh v : ℕ) (xs : Cells)
    → (fresh == 0) ≡ false
    → h fresh ≡ none
    → IsDeque (deque_of h xs) xs
    → Leaves (push fresh (deque_of h xs) v) fresh (xs ++ (fresh, v) ∷ [])
unfolding push update
push-cells h fresh v [] real unused k = (
  record { first = fresh; last = fresh; items = 1; heap = write h fresh (some (node_of 0 v 0)) },
  rw (real, push) refl,
  record {
    chain = (write_here h fresh (some (node_of 0 v 0)), tt);
    first = refl;
    last = refl;
    items = refl;
    distinct = (tt, tt);
    no_null = (real, tt);
  },
)
push-cells h fresh v ((b, w) ∷ ys) real unused k =
    let new : Option Node = some (node_of 0 v (last_of b ys)) in
    let away = Avoids-free h fresh 0 0 ((b, w) ∷ ys) unused k.chain in
    let made = write h fresh new in
    let r =
      Chain-set_next made 0 0 fresh b w ys k.distinct
        (Chain-write h fresh new 0 0 ((b, w) ∷ ys) away k.chain) in
    let heap = write made (last_of b ys) (some (set_next fresh r.node)) in
    let apart : (fresh == last_of b ys) ≡ false =
      flip (last_of b ys) fresh (last-Avoids fresh b ys away.0 away.1) in
    (
      record { first = b; last = fresh; items = suc (length ((b, w) ∷ ys)); heap = heap },
      rw (real, push) (rw (k.no_null.0, push) (rw (r.found, update) refl)),
      record {
        chain = Chain-join heap 0 0 ((b, w) ∷ ys) ((fresh, v) ∷ []) r.chain (
          write_there made (last_of b ys) fresh (some (set_next fresh r.node)) apart
              ∙ write_here h fresh new,
          tt,
        );
        first = refl;
        last = sym (last_of-append b ys ((fresh, v) ∷ []));
        items = length-snoc fresh v ((b, w) ∷ ys);
        distinct = Distinct-snoc fresh v ((b, w) ∷ ys) k.distinct away;
        no_null = Avoids-join 0 ((b, w) ∷ ys) ((fresh, v) ∷ []) k.no_null (real, tt);
      },
    )

pub unshift-cells :
    (h : Heap) (fresh v : ℕ) (xs : Cells)
    → (fresh == 0) ≡ false
    → h fresh ≡ none
    → IsDeque (deque_of h xs) xs
    → Leaves (unshift fresh (deque_of h xs) v) fresh ((fresh, v) ∷ xs)
unfolding unshift update
unshift-cells h fresh v [] real unused k = push-cells h fresh v [] real unused k
unshift-cells h fresh v ((b, w) ∷ ys) real unused k =
    let new : Option Node = some (node_of b v 0) in
    let away = Avoids-free h fresh 0 0 ((b, w) ∷ ys) unused k.chain in
    let made = write h fresh new in
    let second : Option Node = some (node_of (head_of ys 0) w fresh) in
    let chain = Chain-write h fresh new 0 0 ((b, w) ∷ ys) away k.chain in
    let apart : (fresh == b) ≡ false = flip b fresh away.0 in
    (
      record {
        first = fresh;
        last = last_of b ys;
        items = suc (length ((b, w) ∷ ys));
        heap = write made b second;
      },
      rw (k.no_null.0, unshift) (rw (real, unshift) (rw (chain.0, update) refl)),
      record {
        chain = (
          write_there made b fresh second apart ∙ write_here h fresh new,
          Chain-set_prev made 0 0 fresh b w ys k.distinct.0 chain,
        );
        first = refl;
        last = refl;
        items = refl;
        distinct = (away, k.distinct);
        no_null = (real, k.no_null);
      },
    )
