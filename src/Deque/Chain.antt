-- ===== src/Deque/Chain.antt =====
-- What the nodes of a deque of src/deque.c look like in the heap: chains of nodes, linked both ways.
use libhx.Deque.{Node, Heap, Deque, write, set_next}
use libhx.Prelude.{
  ℕ, ◌≡◌, refl, ap, sym, ◌∙◌, true, false, Option, none, some, List, [], ◌∷◌, ◌++◌, length, ◌==◌,
  Bool-cases, inl, inr, arith,
}

-- nodes, as their addresses and data
abbrev pub Cells : Type 0
Cells = List (ℕ × ℕ)

-- the address of the first cell, or the one behind all
abbrev pub head_of : Cells → ℕ → ℕ
head_of [] next = next
head_of ((a, v) ∷ xs) next = a

-- the address of the last cell, or the one in front of all
abbrev pub last_of : ℕ → Cells → ℕ
last_of prev [] = prev
last_of prev ((a, v) ∷ xs) = last_of a xs

abbrev pub node_of : ℕ → ℕ → ℕ → Node
node_of next v prev = record { next = next; ptr = v; prev = prev }

-- the cells lie in the heap, linked both ways, between the nodes `prev` and `next`
abbrev pub Chain : Heap → ℕ → Cells → ℕ → Type 0
Chain h prev [] next = Unit
Chain h prev ((a, v) ∷ xs) next =
    (h a ≡ some (node_of (head_of xs next) v prev)) × Chain h a xs next

-- no cell is at the address
abbrev pub Avoids : ℕ → Cells → Type 0
Avoids p [] = Unit
Avoids p ((a, v) ∷ xs) = ((a == p) ≡ false) × Avoids p xs

abbrev pub Distinct : Cells → Type 0
Distinct [] = Unit
Distinct ((a, v) ∷ xs) = Avoids a xs × Distinct xs

-- a deque with the given cells, from first to last
pub record IsDeque (dq : Deque) (xs : Cells) : Type 0 where
  pub chain : Chain dq.heap 0 xs 0
  pub first : dq.first ≡ head_of xs 0
  pub last : dq.last ≡ last_of 0 xs
  pub items : dq.items ≡ length xs
  pub distinct : Distinct xs
  pub no_null : Avoids 0 xs

pub write_here : (h : Heap) (p : ℕ) (c : Option Node) → write h p c p ≡ c
unfolding write
write_here h p c = ground arith

pub write_there : (h : Heap) (p a : ℕ) (c : Option Node) → (a == p) ≡ false → write h p c a ≡ h a
unfolding write
write_there h p a c e = rw e refl

-- a write elsewhere
pub Chain-write :
    (h : Heap) (p : ℕ) (c : Option Node) (prev next : ℕ) (xs : Cells)
    → Avoids p xs
    → Chain h prev xs next
    → Chain (write h p c) prev xs next
Chain-write h p c prev next [] away k = tt
Chain-write h p c prev next ((a, v) ∷ xs) away k =
    (write_there h p a c away.0 ∙ k.0, Chain-write h p c a next xs away.1 k.1)

pub head_of-append :
    (xs ys : Cells) (next : ℕ) → head_of (xs ++ ys) next ≡ head_of xs (head_of ys next)
head_of-append [] ys next = refl
head_of-append ((a, v) ∷ xs) ys next = refl

pub last_of-append :
    (prev : ℕ) (xs ys : Cells) → last_of prev (xs ++ ys) ≡ last_of (last_of prev xs) ys
last_of-append prev [] ys = refl
last_of-append prev ((a, v) ∷ xs) ys = last_of-append a xs ys

pub Chain-split :
    (h : Heap) (prev next : ℕ) (xs ys : Cells)
    → Chain h prev (xs ++ ys) next
    → Chain h prev xs (head_of ys next) × Chain h (last_of prev xs) ys next
Chain-split h prev next [] ys k = (tt, k)
Chain-split h prev next ((a, v) ∷ xs) ys k =
    let (front, back) = Chain-split h a next xs ys k.1 in
    ((k.0 ∙ ap (λ q. some (node_of q v prev)) (head_of-append xs ys next), front), back)

pub Chain-join :
    (h : Heap) (prev next : ℕ) (xs ys : Cells)
    → Chain h prev xs (head_of ys next)
    → Chain h (last_of prev xs) ys next
    → Chain h prev (xs ++ ys) next
Chain-join h prev next [] ys front back = back
Chain-join h prev next ((a, v) ∷ xs) ys front back = (
  front.0 ∙ ap (λ q. some (node_of q v prev)) (sym (head_of-append xs ys next)),
  Chain-join h a next xs ys front.1 back,
)

pub Avoids-split : (p : ℕ) (xs ys : Cells) → Avoids p (xs ++ ys) → Avoids p xs × Avoids p ys
Avoids-split p [] ys k = (tt, k)
Avoids-split p ((a, v) ∷ xs) ys k =
    let (front, back) = Avoids-split p xs ys k.1 in ((k.0, front), back)

pub Avoids-join : (p : ℕ) (xs ys : Cells) → Avoids p xs → Avoids p ys → Avoids p (xs ++ ys)
Avoids-join p [] ys front back = back
Avoids-join p ((a, v) ∷ xs) ys front back = (front.0, Avoids-join p xs ys front.1 back)

-- the last address is not one that is avoided
pub last-Avoids :
    (p a : ℕ) (xs : Cells) → (a == p) ≡ false → Avoids p xs → (last_of a xs == p) ≡ false
last-Avoids p a [] e k = e
last-Avoids p a ((b, w) ∷ xs) e k = last-Avoids p b xs k.0 k.1

pub flip : (a b : ℕ) → (a == b) ≡ false → (b == a) ≡ false
flip a b e = ground (arith, e)

-- The first cell of a chain gets a new `prev`.
pub Chain-set_prev :
    (h : Heap) (prev next q a v : ℕ) (xs : Cells)
    → Avoids a xs
    → Chain h prev ((a, v) ∷ xs) next
    → Chain (write h a (some (node_of (head_of xs next) v q))) q ((a, v) ∷ xs) next
Chain-set_prev h prev next q a v xs away k = (
  write_here h a (some (node_of (head_of xs next) v q)),
  Chain-write h a (some (node_of (head_of xs next) v q)) a next xs away k.1,
)

-- what the last cell of a chain holds, and the chain after it gets a new `next`
pub record Relinked (h : Heap) (prev q a v : ℕ) (xs : Cells) : Type 0 where
  pub node : Node
  pub found : h (last_of a xs) ≡ some node
  pub chain : Chain (write h (last_of a xs) (some (set_next q node))) prev ((a, v) ∷ xs) q

pub Chain-set_next :
    (h : Heap) (prev next q a v : ℕ) (xs : Cells)
    → Distinct ((a, v) ∷ xs)
    → Chain h prev ((a, v) ∷ xs) next
    → Relinked h prev q a v xs
Chain-set_next h prev next q a v [] apart k = record {
  node = node_of next v prev;
  found = k.0;
  chain = (write_here h a (some (node_of q v prev)), tt);
}
Chain-set_next h prev next q a v ((b, w) ∷ xs) apart k =
    let r = Chain-set_next h a next q b w xs apart.1 k.1 in
    let other : (a == last_of b xs) ≡ false =
      flip (last_of b xs) a (last-Avoids a b xs apart.0.0 apart.0.1) in
    record {
      node = r.node;
      found = r.found;
      chain = (write_there h (last_of b xs) a (some (set_next q r.node)) other ∙ k.0, r.chain);
    }

-- the parts of distinct cells have no address in common
pub Distinct-split : (xs ys : Cells) → Distinct (xs ++ ys) → Distinct xs × Distinct ys
Distinct-split [] ys k = (tt, k)
Distinct-split ((a, v) ∷ xs) ys k =
    let (front, back) = Distinct-split xs ys k.1 in (((Avoids-split a xs ys k.0).0, front), back)

pub Distinct-last :
    (a v : ℕ) (xs ys : Cells) → Distinct ((a, v) ∷ (xs ++ ys)) → Avoids (last_of a xs) ys
Distinct-last a v [] ys k = k.0
Distinct-last a v ((b, w) ∷ xs) ys k = Distinct-last b w xs ys k.1

pub Distinct-without :
    (a v : ℕ) (xs ys : Cells)
    → Distinct (xs ++ (a, v) ∷ ys)
    → Distinct (xs ++ ys) × Avoids a (xs ++ ys)
Distinct-without a v [] ys k = (k.1, k.0)
Distinct-without a v ((b, w) ∷ xs) ys k =
    let (apart, away) = Distinct-without a v xs ys k.1 in
    let (front, back) = Avoids-split b xs ((a, v) ∷ ys) k.0 in
    ((Avoids-join b xs ys front back.1, apart), (flip a b back.0, away))

pub Distinct-snoc :
    (a v : ℕ) (xs : Cells) → Distinct xs → Avoids a xs → Distinct (xs ++ (a, v) ∷ [])
Distinct-snoc a v [] k away = (tt, tt)
Distinct-snoc a v ((b, w) ∷ xs) k away =
    (Avoids-join b xs ((a, v) ∷ []) k.0 (flip b a away.0, tt), Distinct-snoc a v xs k.1 away.1)

-- memory that is not a node is at no cell
pub Avoids-free :
    (h : Heap) (p prev next : ℕ) (xs : Cells) → h p ≡ none → Chain h prev xs next → Avoids p xs
Avoids-free h p prev next [] f k = tt
Avoids-free h p prev next ((a, v) ∷ xs) f k = (other, Avoids-free h p a next xs f k.1)
  where
    apart : (a == p) ≡ true → (a == p) ≡ false
    apart e =
        let same : a ≡ p = ground (arith, e) in
        let clash : some (node_of (head_of xs next) v prev) ≡ none = sym k.0 ∙ ap h same ∙ f in
        absurd (ground (arith, clash))

    other : (a == p) ≡ false
    other = elim (Bool-cases (a == p)) [ inl e ↦ apart e | inr e ↦ e ]
