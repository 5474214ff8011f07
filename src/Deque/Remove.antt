-- ===== src/Deque/Remove.antt =====
-- HXdeque_del, HXdeque_pop and HXdeque_shift of src/deque.c on valid deques.
use libhx.Deque.Chain.{
  Cells, head_of, last_of, node_of, Chain, Avoids, Distinct, IsDeque, Chain-write, head_of-append,
  last_of-append, Chain-split, Chain-join, Avoids-split, Avoids-join, last-Avoids, Chain-set_prev,
  Chain-set_next, Distinct-last, Distinct-without, Distinct-split, write_here,
}
use libhx.Deque.{Deque, write, update, set_next, decrement, drop_left, drop_right, drop_node, del}
use libhx.Prelude.{
  ℕ, suc, ◌≡◌, refl, ap, sym, ◌∙◌, false, none, some, [], ◌∷◌, ◌++◌, length, length-append, ◌==◌,
  arith,
}

-- The deque after one half of HXdeque_drop: the cells `ys` are in front of `q`, and `zs` behind `p`.
record Halves (dq dq' : Deque) (ys zs : Cells) (q p : ℕ) : Type 0 where
  pub front : Chain dq'.heap 0 ys q
  pub back : Chain dq'.heap p zs 0
  pub items : dq'.items ≡ dq.items

left-dropped :
    (dq : Deque) (ys zs : Cells) (a q p : ℕ)
    → Chain dq.heap 0 ys a
    → Chain dq.heap p zs 0
    → Distinct (ys ++ zs)
    → Avoids 0 ys
    → dq.first ≡ head_of ys a
    → (dq' : Deque) × (drop_left (last_of 0 ys) q dq ≡ some dq')
      × Halves dq dq' ys zs q p
      × (dq'.first ≡ head_of ys q)
      × (dq'.last ≡ dq.last)
unfolding drop_left update
left-dropped dq [] zs a q p front back apart real first =
    (record dq { first = q }, refl, record { front = tt; back = back; items = refl }, refl, refl)
left-dropped dq ((b, w) ∷ ys) zs a q p front back apart real first =
    let r = Chain-set_next dq.heap 0 a q b w ys (Distinct-split ((b, w) ∷ ys) zs apart).0 front in
    let heap = write dq.heap (last_of b ys) (some (set_next q r.node)) in
    let node : (last_of b ys == 0) ≡ false = last-Avoids 0 b ys real.0 real.1 in
    (
      record dq { heap = heap },
      rw (node, drop_left) (rw (r.found, update) refl),
      record {
        front = r.chain;
        back =
            Chain-write dq.heap (last_of b ys) (some (set_next q r.node)) p 0 zs
              (Distinct-last b w ys zs apart) back;
        items = refl;
      },
      first,
      refl,
    )

right-dropped :
    (dq : Deque) (ys zs : Cells) (p left : ℕ)
    → Chain dq.heap 0 ys (head_of zs 0)
    → Chain dq.heap p zs 0
    → Distinct (ys ++ zs)
    → Avoids 0 zs
    → dq.last ≡ last_of p zs
    → (dq' : Deque) × (drop_right left (head_of zs 0) dq ≡ some dq')
      × Halves dq dq' ys zs (head_of zs 0) left
      × (dq'.first ≡ dq.first)
      × (dq'.last ≡ last_of left zs)
unfolding drop_right update
right-dropped dq ys [] p left front back apart real last =
    (record dq { last = left }, refl, record { front = front; back = tt; items = refl }, refl, refl)
right-dropped dq ys ((c, u) ∷ zs) p left front back apart real last =
    let heap = write dq.heap c (some (node_of (head_of zs 0) u left)) in
    let away = (Avoids-split c ys zs (Distinct-without c u ys zs apart).1).0 in
    (
      record dq { heap = heap },
      rw (real.0, drop_right) (rw (back.0, update) refl),
      record {
        front = Chain-write dq.heap c (some (node_of (head_of zs 0) u left)) 0 c ys away front;
        back =
            Chain-set_prev dq.heap p 0 left c u zs
              (Avoids-split c ys zs (Distinct-without c u ys zs apart).1).1 back;
        items = refl;
      },
      refl,
      last,
    )

decremented : (n : ℕ) → decrement (suc n) ≡ n
decremented n = ground arith

-- HXdeque_del of any node of a valid deque returns the node's datum and leaves a valid deque of the
-- other nodes, in the same order; the node is freed.
pub del-IsDeque :
    (dq : Deque) (ys zs : Cells) (a v : ℕ)
    → IsDeque dq (ys ++ (a, v) ∷ zs)
    → (dq' : Deque) × (del dq a ≡ some (v, dq')) × IsDeque dq' (ys ++ zs) × (dq'.heap a ≡ none)
unfolding del drop_node
del-IsDeque dq ys zs a v k =
    let (front, back) = Chain-split dq.heap 0 0 ys ((a, v) ∷ zs) k.chain in
    let (apart, away) = Distinct-without a v ys zs k.distinct in
    let (real, real') = Avoids-split 0 ys ((a, v) ∷ zs) k.no_null in
    let (dq1, e1, h1, first1, last1) =
      left-dropped dq ys zs a (head_of zs 0) a front back.1 apart real
        (k.first ∙ head_of-append ys ((a, v) ∷ zs) 0) in
    let (dq2, e2, h2, first2, last2) =
      right-dropped dq1 ys zs a (last_of 0 ys) h1.front h1.back apart real'.1
        (last1 ∙ k.last ∙ last_of-append 0 ys ((a, v) ∷ zs)) in
    let (away_front, away_back) = Avoids-split a ys zs away in
    let count : dq2.items ≡ suc (length (ys ++ zs)) =
      ground
        (arith, h2.items, h1.items, k.items, length-append ys ((a, v) ∷ zs), length-append ys zs) in
    (
      record dq2 { items = decrement dq2.items; heap = write dq2.heap a none },
      rw (back.0, del) (rw (e1, drop_node) (rw e2 refl)),
      record {
        chain =
            Chain-join (write dq2.heap a none) 0 0 ys zs
              (Chain-write dq2.heap a none 0 (head_of zs 0) ys away_front h2.front)
              (Chain-write dq2.heap a none (last_of 0 ys) 0 zs away_back h2.back);
        first = first2 ∙ first1 ∙ sym (head_of-append ys zs 0);
        last = last2 ∙ sym (last_of-append 0 ys zs);
        items = ap decrement count ∙ decremented (length (ys ++ zs));
        distinct = apart;
        no_null = Avoids-join 0 ys zs real real'.1;
      },
      write_here dq2.heap a none,
    )
