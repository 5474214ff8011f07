-- ===== src/Deque.antt =====
-- The double-ended queue of src/deque.c, over an explicit heap of nodes.
--
-- A pointer to a node is a number, 0 is NULL, and `none` in the heap is memory that is not a node; a read
-- or write there is `none` as a result. All nodes have the one deque as their parent. malloc gives the
-- address `fresh`, or 0.
pub mod Calls
pub mod Chain
pub mod Whole
pub mod Ends
pub mod Remove
mod Tests
use libhx.Prelude.{
  ℕ, zero, suc, ◌+◌, ◌-◌, ◌^◌, Option, none, some, List, [], ◌∷◌, if◌then◌else◌, ◌==◌,
}

-- `struct HXdeque_node`
pub record Node : Type 0 where
  pub next : ℕ
  pub ptr : ℕ
  pub prev : ℕ

abbrev pub Heap : Type 0
Heap = ℕ → Option Node

-- `struct HXdeque`, with the heap that its nodes are in. `items` counts allocated nodes and does not
-- overflow.
pub record Deque : Type 0 where
  pub first : ℕ
  pub last : ℕ
  pub items : ℕ
  pub heap : Heap

unfoldable pub write : Heap → ℕ → Option Node → Heap
write h p c a = if a == p then c else h a

-- an assignment to a field of the node at `p`
unfoldable pub update : Deque → ℕ → (Node → Node) → Option Deque
unfolding write
update dq p f = elim (dq.heap p) [
  | none ↦ none
  | some n ↦ some (record dq { heap = write dq.heap p (some (f n)) })
]

abbrev pub set_next : ℕ → Node → Node
set_next q n = record n { next = q }

abbrev pub set_prev : ℕ → Node → Node
set_prev q n = record n { prev = q }

-- `--items` on a size_t
abbrev pub decrement : ℕ → ℕ
decrement n = if n == 0 then 2 ^ 64 - 1 else n - 1

-- `HXdeque_init`, when calloc succeeds
abbrev pub init : Heap → Deque
init h = record { first = 0; last = 0; items = 0; heap = h }

-- The two halves of `HXdeque_drop`, for `left` and `right`.
unfoldable pub drop_left : ℕ → ℕ → Deque → Option Deque
unfolding update
drop_left left right dq =
    if left == 0 then some (record dq { first = right }) else update dq left (set_next right)

unfoldable pub drop_right : ℕ → ℕ → Deque → Option Deque
unfolding update
drop_right left right dq =
    if right == 0 then some (record dq { last = left }) else update dq right (set_prev left)

-- `HXdeque_drop` for the node with the given fields
unfoldable pub drop_node : Node → Deque → Option Deque
unfolding drop_left drop_right
drop_node n dq = elim (drop_left n.prev n.next dq) [
  | none ↦ none
  | some dq' ↦ drop_right n.prev n.next dq'
]

-- `HXdeque_push`: the new node or NULL, and the deque
unfoldable pub push : ℕ → Deque → ℕ → Option (ℕ × Deque)
unfolding write update
push fresh dq ptr =
    if fresh == 0
    then some (0, dq)
    else let nd : Node = record { next = 0; ptr = ptr; prev = dq.last } in
      let made = record dq { heap = write dq.heap fresh (some nd); items = suc dq.items } in
      if dq.first == 0
      then some (fresh, record made { first = fresh; last = fresh })
      else elim (update made dq.last (set_next fresh)) [
        | none ↦ none
        | some dq' ↦ some (fresh, record dq' { last = fresh })
      ]

-- `HXdeque_unshift`
unfoldable pub unshift : ℕ → Deque → ℕ → Option (ℕ × Deque)
unfolding push write update
unshift fresh dq ptr =
    if dq.first == 0
    then push fresh dq ptr
    else if fresh == 0
    then some (0, dq)
    else let nd : Node = record { next = dq.first; ptr = ptr; prev = 0 } in
      let made = record dq { heap = write dq.heap fresh (some nd); items = suc dq.items } in
      elim (update made dq.first (set_prev fresh)) [
        | none ↦ none
        | some dq' ↦ some (fresh, record dq' { first = fresh })
      ]

-- `HXdeque_del`: the datum, and the deque without the node, which is freed
unfoldable pub del : Deque → ℕ → Option (ℕ × Deque)
unfolding drop_node write
del dq node = elim (dq.heap node) [
  | none ↦ none
  | some n ↦ elim (drop_node n dq) [
    | none ↦ none
    | some dq' ↦
        some (n.ptr, record dq' { items = decrement dq'.items; heap = write dq'.heap node none })
  ]
]

-- `HXdeque_pop` and `HXdeque_shift`
unfoldable pub pop : Deque → Option (ℕ × Deque)
unfolding del
pop dq = if dq.last == 0 then some (0, dq) else del dq dq.last

unfoldable pub shift : Deque → Option (ℕ × Deque)
unfolding del
shift dq = if dq.first == 0 then some (0, dq) else del dq dq.first

-- `HXdeque_add` for a node `nd` that is dropped, behind the node `af`
unfoldable pub add_behind : Deque → (af nd : ℕ) → Option Deque
unfolding update
add_behind dq af nd = elim (dq.heap af) [
  | none ↦ none
  | some a ↦ elim (update dq nd (λ n. record n { next = a.next; prev = af })) [
    | none ↦ none
    | some dq' ↦ elim (update dq' af (set_next nd)) [
      | none ↦ none
      | some dq'' ↦ some (if dq''.last == af then record dq'' { last = nd } else dq'')
    ]
  ]
]

-- `HXdeque_move`
unfoldable pub move : Deque → (nd af : ℕ) → Option Deque
unfolding drop_node add_behind
move dq nd af = elim (dq.heap nd) [
  | none ↦ none
  | some n ↦ elim (drop_node n dq) [ none ↦ none | some dq' ↦ add_behind dq' af nd ]
]

-- The loop of HXdeque_to_veci on fuel: the data of the nodes from `trav` on.
unfoldable pub vec_loop : ℕ → Heap → ℕ → Option (List ℕ)
vec_loop zero h trav = none
vec_loop (suc k) h zero = some []
vec_loop (suc k) h (suc trav) = elim (h (suc trav)) [
  | none ↦ none
  | some n ↦ elim (vec_loop k h n.next) [ none ↦ none | some vec ↦ some (n.ptr ∷ vec) ]
]

-- The data of `HXdeque_to_vec`, when malloc succeeds, with a round for each item and one for the end.
unfoldable pub to_vec : Deque → Option (List ℕ)
unfolding vec_loop
to_vec dq = vec_loop (suc dq.items) dq.heap dq.first

-- The loop of `HXdeque_find` on fuel: the first node with the datum, or NULL.
unfoldable pub find_loop : ℕ → Heap → (trav ptr : ℕ) → Option ℕ
find_loop zero h trav ptr = none
find_loop (suc k) h zero ptr = some 0
find_loop (suc k) h (suc trav) ptr = elim (h (suc trav)) [
  | none ↦ none
  | some n ↦ let rest = find_loop k h n.next ptr in if n.ptr == ptr then some (suc trav) else rest
]

unfoldable pub find : Deque → ℕ → Option ℕ
unfolding find_loop
find dq ptr = find_loop (suc dq.items) dq.heap dq.first ptr

-- The loop of `HXdeque_genocide2` on fuel: the nodes that are freed with the data that `xfree` gets.
-- HXdeque_free has the same loop without `xfree`.
unfoldable pub genocide_loop : ℕ → Heap → ℕ → Option (List (ℕ × ℕ))
unfolding write
genocide_loop zero h trav = none
genocide_loop (suc k) h zero = some []
genocide_loop (suc k) h (suc trav) = elim (h (suc trav)) [
  | none ↦ none
  | some n ↦ elim (genocide_loop k (write h (suc trav) none) n.next) [
    | none ↦ none
    | some freed ↦ some ((suc trav, n.ptr) ∷ freed)
  ]
]

unfoldable pub genocide : Deque → Option (List (ℕ × ℕ))
unfolding genocide_loop
genocide dq = genocide_loop (suc dq.items) dq.heap dq.first
