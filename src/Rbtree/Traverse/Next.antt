-- ===== src/Rbtree/Traverse/Next.antt =====
-- HXrbtrav_next of src/map.c: it goes to the following entry.
use libhx.Ops.{MapOps, key_failed, IsLawful}
use libhx.Prelude.{
  ℕ, ◌≡◌, refl, ap, sym, ◌∙◌, subst, false, if_both, none, some, List, [], ◌∷◌, ◌++◌, append_assoc,
}
use libhx.Rbtree.Inorder.{IsNode}
use libhx.Rbtree.Traverse.Order.{from_node, pending, pending-dive}
use libhx.Rbtree.Traverse.{
  Trav, at, dive, set_checkpoint, checkpoint_node, dtrav, arrive, climb, next_from, next, entry_of,
}
use libhx.Rbtree.{Dir, left, right, Tree, leaf, node, Rbtree, sub, keysvalues}

-- the top of a path is no right turn
abbrev pub IsReady : List (Dir × List Dir) → Type 0
IsReady [] = Unit
IsReady ((left, way) ∷ path) = Unit
IsReady ((right, way) ∷ path) = ⊥

module _ {ℓ} {K V : Type ℓ} where
  -- the left turns of a path are at nodes
  abbrev pub IsPath : Tree K V → List (Dir × List Dir) → Type 0
  IsPath root [] = Unit
  IsPath root ((left, way) ∷ path) = IsNode (at root way) × IsPath root path
  IsPath root ((right, way) ∷ path) = IsPath root path

  -- The way leads to a node with the given key and datum, with `rest` behind it.
  pub record IsAt (root : Tree K V) (way : List Dir) (path : List (Dir × List Dir)) (e : K × V)
      (m : List (K × V)) : Type ℓ where
    pub done : List (K × V)
    pub behind : Tree K V
    pub entry : entry_of (at root way) ≡ some e
    pub subtree : sub (at root way) right ≡ behind
    pub nodes : IsPath root path
    pub rest : keysvalues behind ++ pending root path ≡ m
    pub split : keysvalues root ≡ done ++ e ∷ m

  -- The traverser is at the first of the entries `m`, which are the last ones of the tree; or it is
  -- at no node and there are none.
  pub data Arrived (root : Tree K V) : List (K × V) → Trav K → Type ℓ where
    ended : {trav : Trav K} → trav.current ≡ none → Arrived root [] trav
    arrived :
        {e : K × V} {m : List (K × V)} {trav : Trav K} (way : List Dir)
        → trav.current ≡ some way
        → trav.checkpoint ≡ some e.0
        → trav.dangling ≡ false
        → IsAt root way trav.path e m
        → Arrived root (e ∷ m) trav

  pub dive-IsPath :
      (root t : Tree K V) (way : List Dir) (path : List (Dir × List Dir))
      → at root way ≡ t
      → IsPath root path
      → IsPath root (dive t way path)
  unfolding dive at
  dive-IsPath root leaf way path e h = h
  dive-IsPath root (node c l k v r) way path e h =
      dive-IsPath root l (left ∷ way) ((left, way) ∷ path) (rw e) (subst IsNode (sym e) tt, h)

  pub dive-IsReady :
      (t : Tree K V) (way : List Dir) (path : List (Dir × List Dir))
      → IsReady path
      → IsReady (dive t way path)
  unfolding dive
  dive-IsReady leaf way path h = h
  dive-IsReady (node c l k v r) way path h = dive-IsReady l (left ∷ way) ((left, way) ∷ path) tt

module _ {ℓ} {K V : Type ℓ} (o : MapOps K V) (law : IsLawful o)
    (memory : (k : K) → key_failed o k ≡ false) where
  pub arrive-climb :
      (t : Rbtree K V) (trav : Trav K) (path : List (Dir × List Dir))
      → IsReady path
      → climb o t trav path ≡ arrive o t trav path
  unfolding climb arrive
  arrive-climb t trav [] h = refl
  arrive-climb t trav ((left, way) ∷ path) h = refl
  arrive-climb t trav ((right, way) ∷ path) h = absurd h

  -- the checkpoint is the key, and the rest of the traverser stays
  Marked : Trav K → K → Trav K → Type ℓ
  Marked trav key trav' =
      (trav'.checkpoint ≡ some key)
      × (trav'.dangling ≡ false)
      × (trav'.current ≡ trav.current)
      × (trav'.path ≡ trav.path)
      × (trav'.tid ≡ trav.tid)

  set_checkpoint-Marked :
      (flags : ℕ) (trav : Trav K) (key : K) → Marked trav key (set_checkpoint o flags trav key)
  unfolding set_checkpoint Marked
  set_checkpoint-Marked flags trav key =
      if_both (Marked trav key) (dtrav flags)
        (λ h. (ap some (law.clone_key key (memory key)), refl, refl, refl, refl))
        (λ h. (refl, refl, refl, refl, refl))

  arrive-Arrived :
      (t : Rbtree K V) (trav : Trav K) (way : List Dir) (path : List (Dir × List Dir))
      (x : Tree K V) (done : List (K × V))
      → at t.root way ≡ x
      → IsNode x
      → IsPath t.root path
      → keysvalues t.root ≡ done ++ from_node x (pending t.root path)
      → Arrived t.root
          (from_node x (pending t.root path))
          (checkpoint_node o t.flags (record trav { current = some way; path = path }) x)
  unfolding Marked
  arrive-Arrived t trav way path leaf done e h p s = absurd h
  arrive-Arrived t trav way path (node c l k v r) done e h p s =
      let (mark, live, current, kept, tid) =
        set_checkpoint-Marked t.flags (record trav { current = some way; path = path }) k in
      arrived way current mark live (
        subst (λ q. IsAt t.root way q (k, v) (keysvalues r ++ pending t.root path)) (sym kept)
          (record {
            done = done;
            behind = r;
            entry = ap entry_of e;
            subtree = ap (λ y. sub y right) e;
            nodes = p;
            rest = refl;
            split = s;
          }))

  -- walking up from a path goes to the first entry that the path leaves
  pub climb-Arrived :
      (t : Rbtree K V) (trav : Trav K) (path : List (Dir × List Dir)) (done : List (K × V))
      → IsPath t.root path
      → keysvalues t.root ≡ done ++ pending t.root path
      → Arrived t.root (pending t.root path) (climb o t trav path)
  unfolding climb arrive pending
  climb-Arrived t trav [] done p s = ended refl
  climb-Arrived t trav ((left, way) ∷ path) done p s =
      arrive-Arrived t trav way path (at t.root way) done refl p.0 p.1 s
  climb-Arrived t trav ((right, way) ∷ path) done p s = climb-Arrived t trav path done p s

  next_from-Arrived :
      (t : Rbtree K V) (trav : Trav K) (way : List Dir) (e : K × V) (m : List (K × V))
      (x : Tree K V)
      → sub (at t.root way) right ≡ x
      → IsAt t.root way trav.path e m
      → Arrived t.root m (next_from o t trav way x)
  unfolding next_from pending at keysvalues
  next_from-Arrived t trav way e m leaf q h =
      let sub_rest : pending t.root trav.path ≡ m =
        ap (λ y. keysvalues y ++ pending t.root trav.path) (sym q ∙ h.subtree) ∙ h.rest in
      subst (λ n. Arrived t.root n (climb o t trav trav.path)) sub_rest
        (climb-Arrived t trav trav.path (h.done ++ e ∷ []) h.nodes (
          h.split
          ∙ ap (λ n. h.done ++ e ∷ n) (sym sub_rest)
          ∙ sym (append_assoc h.done (e ∷ []) _)))
  next_from-Arrived t trav way e m (node c l k v r) q h =
      let path : List (Dir × List Dir) = (right, way) ∷ trav.path in
      let deep = dive (node c l k v r) (right ∷ way) path in
      let same : pending t.root deep ≡ m =
        pending-dive t.root (node c l k v r) (right ∷ way) path q
        ∙ ap (λ y. keysvalues y ++ pending t.root trav.path) (sym q ∙ h.subtree)
        ∙ h.rest in
      subst (λ n. Arrived t.root n (arrive o t trav deep)) same
        (subst (Arrived t.root (pending t.root deep))
          (arrive-climb t trav deep
            (dive-IsReady l (left ∷ right ∷ way) ((left, right ∷ way) ∷ path) tt))
          (climb-Arrived t trav deep (h.done ++ e ∷ [])
            (dive-IsPath t.root (node c l k v r) (right ∷ way) path q h.nodes)
            (h.split
              ∙ ap (λ n. h.done ++ e ∷ n) (sym same)
              ∙ sym (append_assoc h.done (e ∷ []) _))))

  -- From an entry, HXrbtrav_next goes to the one that follows.
  pub next-Arrived :
      (t : Rbtree K V) (trav : Trav K) (e : K × V) (m : List (K × V))
      → Arrived t.root (e ∷ m) trav
      → Arrived t.root m (next o t trav)
  unfolding next
  next-Arrived t trav e m (arrived way current mark live h) =
      rw (current, next) (next_from-Arrived t trav way e m (sub (at t.root way) right) refl h)
