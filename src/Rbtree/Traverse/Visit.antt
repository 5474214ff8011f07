-- ===== src/Rbtree/Traverse/Visit.antt =====
-- HXrbtree_traverse of src/map.c: what one call delivers, and a loop of calls.
use libhx.Ops.{MapOps, key_failed, IsLawful}
use libhx.Prelude.{
  ℕ, suc, ◌≡◌, ◌≢◌, refl, ap, sym, ◌∙◌, subst, Bool, true, false, not, ◌&&◌, ◌||◌, inl, inr,
  Bool-cases, if_both, if◌then◌else◌, ◌==◌, Option, none, some, List, [], ◌∷◌, length, arith,
}
use libhx.Rbtree.Sorted.{IsSorted}
use libhx.Rbtree.Traverse.Next.{Arrived, ended, arrived, next-Arrived}
use libhx.Rbtree.Traverse.Order.{later, later-split, head_of}
use libhx.Rbtree.Traverse.Rewalk.{rewalk-later, rewalk-first}
use libhx.Rbtree.Traverse.{
  Trav, trav_init, at, dive, set_checkpoint, checkpoint_node, dtrav, arrive, climb, next_from, next,
  resume, search_from, rewalk, advance, current_entry, reads_freed, traverse, visit, is_null,
}
use libhx.Rbtree.{Dir, left, right, Tree, leaf, node, Rbtree, sub, keysvalues}

module _ {ℓ} {K V : Type ℓ} (o : MapOps K V) where
  -- A call read no freed memory, returned the first of the entries `m`, and left the traverser there.
  pub record Delivers (t : Rbtree K V) (m : List (K × V)) (r : Option (Option (K × V) × Trav K))
      : Type ℓ where
    pub after : Trav K
    pub result : r ≡ some (head_of m, after)
    pub position : Arrived t.root m after
    pub tid : after.tid ≡ t.tid

  -- The traverser last returned the entry with the key `key`: its checkpoint has that key and can be
  -- read, and if the transaction ID is still the same, it is at that entry.
  pub record Follows (t : Rbtree K V) (trav : Trav K) (key : K) : Type ℓ where
    pub way : List Dir
    pub current : trav.current ≡ some way
    pub mark : trav.checkpoint ≡ some key
    pub live : trav.dangling ≡ false
    pub synced :
        trav.tid ≡ t.tid → (v : V) × (m : List (K × V)) × Arrived t.root ((key, v) ∷ m) trav

  -- what a call leaves is followed by the next call, in the same tree or in one with another ID
  pub Delivers-Follows :
      (t : Rbtree K V) (e : K × V) (m : List (K × V)) (r : Option (Option (K × V) × Trav K))
      → (d : Delivers t (e ∷ m) r) → Follows t d.after e.0
  Delivers-Follows t e m r d = go d.after d.position
    where
      go : (trav : Trav K) → Arrived t.root (e ∷ m) trav → Follows t trav e.0
      go trav (arrived way c k q h) = record {
        way = way;
        current = c;
        mark = k;
        live = q;
        synced = λ s. (e.1, m, arrived way c k q h);
      }

  pub Follows-changed :
      (t t' : Rbtree K V) (trav : Trav K) (key : K)
      → Follows t trav key
      → trav.tid ≢ t'.tid
      → Follows t' trav key
  Follows-changed t t' trav key f h = record {
    way = f.way;
    current = f.current;
    mark = f.mark;
    live = f.live;
    synced = λ e. absurd (h e);
  }

  HasTid : ℕ → Trav K → Type 0
  HasTid n trav = trav.tid ≡ n

  checkpoint_node-tid :
      (flags : ℕ) (trav : Trav K) (x : Tree K V) → (checkpoint_node o flags trav x).tid ≡ trav.tid
  unfolding set_checkpoint HasTid
  checkpoint_node-tid flags trav leaf = refl
  checkpoint_node-tid flags trav (node c l k v r) =
      if_both (HasTid trav.tid) (dtrav flags) (λ h. refl) (λ h. refl)

  arrive-tid :
      (t : Rbtree K V) (trav : Trav K) (path : List (Dir × List Dir))
      → (arrive o t trav path).tid ≡ trav.tid
  unfolding arrive
  arrive-tid t trav [] = refl
  arrive-tid t trav ((d, way) ∷ path) = checkpoint_node-tid t.flags _ (at t.root way)

  climb-tid :
      (t : Rbtree K V) (trav : Trav K) (path : List (Dir × List Dir))
      → (climb o t trav path).tid ≡ trav.tid
  unfolding climb
  climb-tid t trav [] = refl
  climb-tid t trav ((left, way) ∷ path) = arrive-tid t trav ((left, way) ∷ path)
  climb-tid t trav ((right, way) ∷ path) = climb-tid t trav path

  next_from-tid :
      (t : Rbtree K V) (trav : Trav K) (way : List Dir) (x : Tree K V)
      → (next_from o t trav way x).tid ≡ trav.tid
  unfolding next_from
  next_from-tid t trav way leaf = climb-tid t trav trav.path
  next_from-tid t trav way (node c l k v r) = arrive-tid t trav (dive (node c l k v r) _ _)

  next-tid : (t : Rbtree K V) (trav : Trav K) → (next o t trav).tid ≡ trav.tid
  unfolding next
  next-tid t trav = go trav.current
    where
      go :
          (c : Option (List Dir))
          → (elim c as (λ _. Trav K) [
            | none ↦ trav
            | some way ↦ next_from o t trav way (sub (at t.root way) right)
          ]).tid
            ≡ trav.tid
      go none = refl
      go (some way) = next_from-tid t trav way (sub (at t.root way) right)

  resume-tid :
      (t : Rbtree K V) (trav : Trav K) (r : Bool × List (Dir × List Dir))
      → (resume o t trav r).tid ≡ t.tid
  unfolding resume HasTid
  resume-tid t trav (b, path) =
      if_both (HasTid t.tid) b (λ h. next-tid t (record (arrive o t trav path) { tid = t.tid }))
        (λ h. refl)

  rewalk-tid : (t : Rbtree K V) (trav : Trav K) → (rewalk o t trav).tid ≡ t.tid
  unfolding rewalk
  rewalk-tid t trav = go trav.current
    where
      go :
          (c : Option (List Dir))
          → (elim c as (λ _. Trav K) [
            | none ↦ resume o t trav (false, dive t.root [] [])
            | some w ↦ resume o t trav (search_from o t trav.checkpoint)
          ]).tid
            ≡ t.tid
      go none = resume-tid t trav (false, dive t.root [] [])
      go (some w) = resume-tid t trav (search_from o t trav.checkpoint)

  Arrived-current :
      (t : Rbtree K V) (m : List (K × V)) (trav : Trav K)
      → Arrived t.root m trav
      → current_entry o t trav ≡ head_of m
  unfolding current_entry
  Arrived-current t m trav (ended c) = rw c
  Arrived-current t m trav (arrived way c k q h) = rw (c, h.entry)

  delivered :
      (t : Rbtree K V) (trav : Trav K) (m : List (K × V))
      → reads_freed o t trav ≡ false
      → Arrived t.root m (advance o t trav)
      → (advance o t trav).tid ≡ t.tid
      → Delivers t m (traverse o t trav)
  unfolding traverse
  delivered t trav m calm a e = record {
    after = advance o t trav;
    result =
        rw (calm, traverse)
          (ap (λ x. some (x, advance o t trav)) (Arrived-current t m (advance o t trav) a));
    position = a;
    tid = e;
  }

  module _ (law : IsLawful o) (memory : (k : K) → key_failed o k ≡ false) where
    -- A call of HXrbtree_traverse on a traverser that last returned the entry with some key returns
    -- the first entry with a greater key of the tree as it is now, NULL if there is none, and leaves
    -- the traverser there; this holds whether or not the tree has changed in between, if a change
    -- since then shows in the transaction ID and has not freed the checkpoint. The keys are sorted, and
    -- no copy of a key fails.
    pub traverse-later :
        (t : Rbtree K V) (trav : Trav K) (key : K)
        → IsSorted o (keysvalues t.root)
        → Follows t trav key
        → Delivers t (later o key (keysvalues t.root)) (traverse o t trav)
    unfolding advance
    traverse-later t trav key s f = elim (Bool-cases (trav.tid == t.tid)) [
      | inl same ↦
          let e : trav.tid ≡ t.tid = ground arith in
          let (v, m, a) = f.synced e in
          let skip : advance o t trav ≡ next o t trav = rw (same, f.current, advance) in
          delivered t trav _ (ground (arith, f.live))
            (subst (Arrived t.root (later o key (keysvalues t.root))) (sym skip) (
              subst (λ n. Arrived t.root n (next o t trav)) (sym (behind m v a))
                (next-Arrived o law memory t trav (key, v) m a)))
            (ap (λ x. x.tid) skip ∙ next-tid t trav ∙ e)
      | inr differ ↦
          let again : advance o t trav ≡ rewalk o t trav = rw (differ, advance) in
          delivered t trav _ (ground (arith, f.live))
            (subst (Arrived t.root (later o key (keysvalues t.root))) (sym again)
              (rewalk-later o law memory t trav f.way key s f.current f.mark))
            (ap (λ x. x.tid) again ∙ rewalk-tid t trav)
    ]
      where
        behind :
            (m : List (K × V)) (v : V)
            → Arrived t.root ((key, v) ∷ m) trav
            → later o key (keysvalues t.root) ≡ m
        behind m v (arrived way c k q h) =
            ap (later o key) h.split
            ∙ later-split o law h.done key v m (subst (IsSorted o) h.split s)

    -- without a current node, as at first, a call returns the first entry
    pub traverse-first :
        (t : Rbtree K V) (trav : Trav K)
        → trav.current ≡ none
        → Delivers t (keysvalues t.root) (traverse o t trav)
    unfolding advance
    traverse-first t trav c =
        let again : advance o t trav ≡ rewalk o t trav =
          ap (λ x. if not (trav.tid == t.tid) || is_null x then rewalk o t trav else next o t trav)
            c
          ∙ go (trav.tid == t.tid) in
        delivered t trav _ (at_start trav.current c)
          (subst (Arrived t.root (keysvalues t.root)) (sym again)
            (rewalk-first o law memory t trav c))
          (ap (λ x. x.tid) again ∙ rewalk-tid t trav)
      where
        at_start :
            (x : Option (List Dir))
            → x ≡ none
            → (not (trav.tid == t.tid) && (not (is_null x) && trav.dangling)) ≡ false
        at_start none e = ground arith
        at_start (some way) e = absurd cc

        go :
            (b : Bool)
            → (if not b || is_null none then rewalk o t trav else next o t trav) ≡ rewalk o t trav
        go true = refl
        go false = refl

    -- the call after the one that delivered the first of some entries delivers the following ones
    traverse-next :
        (t : Rbtree K V) (trav : Trav K) (e : K × V) (m : List (K × V))
        → Arrived t.root (e ∷ m) trav
        → trav.tid ≡ t.tid
        → Delivers t m (traverse o t trav)
    unfolding advance
    traverse-next t trav e m (arrived way c k q h) same =
        let skip : advance o t trav ≡ next o t trav = ground (arith, c) in
        delivered t trav m (ground (arith, q))
          (subst (Arrived t.root m) (sym skip)
            (next-Arrived o law memory t trav e m (arrived way c k q h)))
          (ap (λ x. x.tid) skip ∙ next-tid t trav ∙ same)

    visit-Delivers :
        (t : Rbtree K V) (trav : Trav K) (m : List (K × V))
        → Delivers t m (traverse o t trav)
        → visit o (suc (length m)) t trav ≡ some m
    unfolding visit
    visit-Delivers t trav [] d = rw (d.result, visit) refl
    visit-Delivers t trav (e ∷ m) d =
        let rest = visit-Delivers t d.after m (traverse-next t d.after e m d.position d.tid) in
        rw (d.result, visit) (rw (rest, visit) refl)

    -- A loop that calls HXrbtree_traverse on a new traverser until it returns NULL ends after one
    -- call more than the tree has entries, and has then seen every entry once, in the order of
    -- HXrbtree_keysvalues. No copy of a key fails.
    pub visit-keysvalues :
        (t : Rbtree K V) (flags : ℕ)
        → visit o (suc (length (keysvalues t.root))) t (trav_init flags) ≡ some (keysvalues t.root)
    unfolding trav_init
    visit-keysvalues t flags =
        visit-Delivers t (trav_init flags) (keysvalues t.root)
          (traverse-first t (trav_init flags) refl)
