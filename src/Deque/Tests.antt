-- ===== src/Deque/Tests.antt =====
-- The double-ended queue of src/deque.c on concrete nodes.
use libhx.Deque.Calls.{Refines, s_push, step-Refines}
use libhx.Deque.Chain.{Cells, node_of, IsDeque}
use libhx.Deque.Remove.{del-IsDeque}
use libhx.Deque.Whole.{loops-cells}
use libhx.Deque.{
  find, genocide, Heap, Deque, write, update, init, drop_left, drop_right, drop_node, push, unshift,
  del, pop, add_behind, move, vec_loop, to_vec,
}
use libhx.Prelude.{◌≡◌, refl, Option, none, some, [], ◌∷◌}

abbrev then_do {ℓ} : {A B : Type ℓ} → Option A → (A → Option B) → Option B
then_do none f = none
then_do (some a) f = f a

abbrev three : Option Deque
three =
    then_do (push 1 (init (λ a. none)) 10)
      (λ r. then_do (push 2 r.1 20) (λ s. then_do (unshift 3 s.1 30) (λ t. some t.1)))

run_to_vec : then_do three to_vec ≡ some (30 ∷ 10 ∷ 20 ∷ [])
unfolding to_vec vec_loop push unshift update write
run_to_vec = refl

run_pop : then_do three (λ dq. then_do (pop dq) (λ r. to_vec r.1)) ≡ some (30 ∷ 10 ∷ [])
unfolding to_vec vec_loop push unshift update write pop del drop_node drop_left drop_right
run_pop = refl

-- HXdeque_move of the last node behind the first one leaves the order right from the front
run_move : then_do three (λ dq. then_do (move dq 2 3) to_vec) ≡ some (30 ∷ 20 ∷ 10 ∷ [])
unfolding to_vec vec_loop push unshift update write move add_behind drop_node drop_left drop_right
run_move = refl

-- but the `prev` of the node behind still is the first node
run_move_prev :
    then_do three (λ dq. then_do (move dq 2 3) (λ m. then_do (m.heap 1) (λ n. some n.prev)))
    ≡ some 3
unfolding push unshift update write move add_behind drop_node drop_left drop_right
run_move_prev = refl

abbrev cells : Cells
cells = (1, 10) ∷ (2, 20) ∷ (3, 30) ∷ []

abbrev heap : Heap
heap =
    write (write (write (λ a. none) 1 (some (node_of 2 10 0))) 2 (some (node_of 3 20 1))) 3
      (some (node_of 0 30 2))

abbrev queue : Deque
queue = record { first = 1; last = 3; items = 3; heap = heap }

queue-IsDeque : IsDeque queue cells
unfolding write
queue-IsDeque = record {
  chain = (refl, (refl, (refl, tt)));
  first = refl;
  last = refl;
  items = refl;
  distinct = ((refl, (refl, tt)), ((refl, tt), (tt, tt)));
  no_null = (refl, (refl, (refl, tt)));
}

not_a_node : heap 4 ≡ none
unfolding write
not_a_node = refl

step-Refines_example : Refines queue cells (s_push 4 40)
step-Refines_example = step-Refines queue cells (s_push 4 40) (λ e. not_a_node) queue-IsDeque

del-IsDeque_example :
    (dq : Deque) × (del queue 2 ≡ some (20, dq))
    × IsDeque dq ((1, 10) ∷ (3, 30) ∷ [])
    × (dq.heap 2 ≡ none)
del-IsDeque_example = del-IsDeque queue ((1, 10) ∷ []) ((3, 30) ∷ []) 2 20 queue-IsDeque

loops-cells_example :
    (to_vec queue ≡ some (10 ∷ 20 ∷ 30 ∷ []))
    × (3 ≡ queue.items)
    × (find queue 20 ≡ some 2)
    × (genocide queue ≡ some cells)
loops-cells_example = loops-cells queue cells 20 queue-IsDeque
