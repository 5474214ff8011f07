-- ===== src/Rbtree/Traverse/Rewalk.antt =====
-- HXrbtrav_rewalk of src/map.c: it finds the first entry behind the checkpoint.
use libhx.Ops.{MapOps, key_failed, IsLawful, Ordering-cases}
use libhx.Prelude.{
  ℕ, ◌≡◌, refl, ap, sym, ◌∙◌, subst, Bool, true, false, inl, inr, none, some, List, [], ◌∷◌, ◌++◌,
  append_assoc, append-nil,
}
use libhx.Rbtree.Inorder.{IsNode}
use libhx.Rbtree.Sorted.{All-append, All-imp, Below, Above, IsSorted, IsSorted-split}
use libhx.Rbtree.Traverse.Next.{
  IsPath, IsReady, Arrived, ended, arrived, dive-IsPath, dive-IsReady, arrive-climb, climb-Arrived,
  next-Arrived,
}
use libhx.Rbtree.Traverse.Order.{from_node, pending, pending-dive, later, later-Below, later-Above}
use libhx.Rbtree.Traverse.{Trav, at, dive, seek, arrive, resume, rewalk, next, search_from}
use libhx.Rbtree.{Dir, left, right, Tree, leaf, node, Rbtree, keysvalues}

module _ {ℓ} {K V : Type ℓ} (o : MapOps K V) where
  -- what the search leaves: from the key on if it was found, else behind the key
  pub data Left (key : K) : Bool → List (K × V) → Type ℓ where
    hit : (e : K × V) (m : List (K × V)) → e.0 ≡ key → Above o key m → Left key true (e ∷ m)
    miss : (m : List (K × V)) → Above o key m → Left key false m

  pub record Sought (root : Tree K V) (key : K) (found : Bool) (path : List (Dir × List Dir))
      : Type ℓ where
    pub ready : IsReady path
    pub nodes : IsPath root path
    pub done : List (K × V)
    pub split : keysvalues root ≡ done ++ pending root path
    pub below : Below o key done
    pub rest : Left key found (pending root path)

  module _ (law : IsLawful o) where
    seek-Sought :
        (root : Tree K V) (key : K) (t : Tree K V) (way : List Dir)
        (path newpath : List (Dir × List Dir)) (done : List (K × V))
        → at root way ≡ t
        → IsSorted o (keysvalues t)
        → IsPath root path
        → IsReady newpath
        → IsPath root newpath
        → pending root path ≡ pending root newpath
        → keysvalues root ≡ done ++ (keysvalues t ++ pending root newpath)
        → Below o key done
        → Above o key (pending root newpath)
        → Sought root key (seek o key t way path newpath).0 (seek o key t way path newpath).1
    unfolding seek pending at keysvalues
    seek-Sought root key leaf way path newpath done e s p ready q same split b a = record {
      ready = ready;
      nodes = q;
      done = done;
      split = split;
      below = b;
      rest = miss (pending root newpath) a;
    }
    seek-Sought root key (node c l k v r) way path newpath done e s p ready q same split b a =
        let (sl, bl, ar, sr) = IsSorted-split o law (keysvalues l) k v (keysvalues r) s in
        let behind = keysvalues r ++ pending root newpath in
        let here : from_node (at root way) (pending root newpath) ≡ (k, v) ∷ behind =
          ap (λ x. from_node x (pending root newpath)) e in
        let here' : from_node (at root way) (pending root path) ≡ (k, v) ∷ behind =
          ap (λ m. from_node (at root way) m) same ∙ here in
        let split_at : keysvalues root ≡ (done ++ keysvalues l) ++ ((k, v) ∷ behind) =
          split
          ∙ ap (λ m. done ++ m) (append_assoc (keysvalues l) ((k, v) ∷ keysvalues r) _)
          ∙ sym (append_assoc done (keysvalues l) ((k, v) ∷ behind)) in
        elim (Ordering-cases (o.k_compare key k)) [
          | inl less ↦
              rw (less, seek)
                (seek-Sought root key l (left ∷ way) ((left, way) ∷ path) ((left, way) ∷ newpath)
                  done (rw e) sl (subst IsNode (sym e) tt, p) tt (subst IsNode (sym e) tt, q)
                  (here' ∙ sym here)
                  (split_at
                    ∙ append_assoc done (keysvalues l) ((k, v) ∷ behind)
                    ∙ ap (λ m. done ++ (keysvalues l ++ m)) (sym here))
                  b
                  (subst (Above o key) (sym here) (
                    less,
                    All-append _ (keysvalues r) _
                        (All-imp (λ z h. law.lt_trans key k z less h) _ ar) a,
                  )))
          | inr (inl found) ↦
              let same_key = law.eq_of_compare key k found in
              rw (found, seek)
                (record {
                  ready = tt;
                  nodes = (subst IsNode (sym e) tt, p);
                  done = done ++ keysvalues l;
                  split = split_at ∙ ap (λ m. (done ++ keysvalues l) ++ m) (sym here');
                  below = All-append _ done (keysvalues l) b (rw same_key bl);
                  rest = subst (Left key true) (sym here') (
                      hit (k, v) behind (sym same_key)
                        (All-append _ (keysvalues r) _ (rw same_key ar) a));
                })
          | inr (inr greater) ↦
              let less = law.lt_of_gt key k greater in
              rw (greater, seek)
                (seek-Sought root key r (right ∷ way) ((right, way) ∷ path) newpath
                  ((done ++ keysvalues l) ++ (k, v) ∷ []) (rw e) sr p ready q same
                  (split_at ∙ sym (append_assoc (done ++ keysvalues l) ((k, v) ∷ []) behind))
                  (All-append _ (done ++ keysvalues l) _
                    (All-append _ done (keysvalues l) b
                      (All-imp (λ z h. law.lt_trans z k key h less) _ bl))
                    (less, tt))
                  a)
        ]

    later_here :
        (key : K) (e : K × V) (m : List (K × V))
        → e.0 ≡ key
        → Above o key m
        → later o key (e ∷ m) ≡ m
    unfolding later
    later_here key e m same a =
        rw (ap (o.k_compare key) same ∙ law.compare_refl key, later) (later-Above o law key m a)

    module _ (memory : (k : K) → key_failed o k ≡ false) where
      Arrived-tid :
          (root : Tree K V) (m : List (K × V)) (trav : Trav K) (tid : ℕ)
          → Arrived root m trav
          → Arrived root m (record trav { tid = tid })
      Arrived-tid root m trav tid (ended c) = ended c
      Arrived-tid root m trav tid (arrived way c k q h) = arrived way c k q h

      arrive_at_path :
          (t : Rbtree K V) (trav : Trav K) (path : List (Dir × List Dir)) (done : List (K × V))
          → IsReady path
          → IsPath t.root path
          → keysvalues t.root ≡ done ++ pending t.root path
          → Arrived t.root (pending t.root path) (record (arrive o t trav path) { tid = t.tid })
      arrive_at_path t trav path done ready p s =
          Arrived-tid t.root (pending t.root path) (arrive o t trav path) t.tid (
            subst (Arrived t.root (pending t.root path))
              (arrive-climb o law memory t trav path ready)
              (climb-Arrived o law memory t trav path done p s))

      resume-Arrived :
          (t : Rbtree K V) (trav : Trav K) (key : K) (found : Bool) (path : List (Dir × List Dir))
          → Sought t.root key found path
          → Arrived t.root (later o key (keysvalues t.root)) (resume o t trav (found, path))
      unfolding resume
      resume-Arrived t trav key found path h =
          let start = arrive_at_path t trav path h.done h.ready h.nodes h.split in
          let all : later o key (keysvalues t.root) ≡ later o key (pending t.root path) =
            ap (later o key) h.split ∙ later-Below o law key h.done _ h.below in
          subst (λ m. Arrived t.root m (resume o t trav (found, path))) (sym all)
            (go found (pending t.root path) h.rest start)
        where
          go :
              (b : Bool) (m : List (K × V))
              → Left key b m
              → Arrived t.root m (record (arrive o t trav path) { tid = t.tid })
              → Arrived t.root (later o key m) (resume o t trav (b, path))
          go b m (hit e n same a) start =
              subst
                (λ x. Arrived t.root x (next o t (record (arrive o t trav path) { tid = t.tid })))
                (sym (later_here key e n same a)) (next-Arrived o law memory t _ e n start)
          go b m (miss n a) start =
              subst (λ x. Arrived t.root x (record (arrive o t trav path) { tid = t.tid }))
                (sym (later-Above o law key n a)) start

      -- From a checkpoint, whatever became of its node, HXrbtrav_rewalk goes to the first entry with
      -- a greater key.
      pub rewalk-later :
          (t : Rbtree K V) (trav : Trav K) (way : List Dir) (key : K)
          → IsSorted o (keysvalues t.root)
          → trav.current ≡ some way
          → trav.checkpoint ≡ some key
          → Arrived t.root (later o key (keysvalues t.root)) (rewalk o t trav)
      unfolding rewalk search_from resume pending at
      rewalk-later t trav way key s c k =
          subst (Arrived t.root (later o key (keysvalues t.root)))
            (ap (λ x. resume o t trav (search_from o t x)) (sym k)
              ∙ ap
                  (λ x. elim x as (λ _. Trav K) [
                    | none ↦ resume o t trav (false, dive t.root [] [])
                    | some w ↦ resume o t trav (search_from o t trav.checkpoint)
                  ])
                  (sym c))
            (resume-Arrived t trav key _ _ (
              seek-Sought t.root key t.root [] [] [] [] refl s tt tt tt refl
                (sym (append-nil (keysvalues t.root))) tt tt))

      -- Without a current node, HXrbtrav_rewalk goes to the first entry.
      pub rewalk-first :
          (t : Rbtree K V) (trav : Trav K)
          → trav.current ≡ none
          → Arrived t.root (keysvalues t.root) (rewalk o t trav)
      unfolding rewalk resume pending at
      rewalk-first t trav c =
          let all = pending-dive t.root t.root [] [] refl ∙ append-nil (keysvalues t.root) in
          rw (c, rewalk)
            (subst
              (λ m. Arrived t.root m (record (arrive o t trav (dive t.root [] [])) { tid = t.tid }))
              all
              (arrive_at_path t trav (dive t.root [] []) [] (dive-IsReady t.root [] [] tt)
                (dive-IsPath t.root t.root [] [] refl tt) (sym all)))
