-- ===== src/Rbtree/Traverse/Change.antt =====
-- HXrbtree_traverse of src/map.c after a deletion: the composition with HXrbtree_del.
use libhx.Ops.{MapOps, key_failed, IsLawful, uint_mod}
use libhx.Prelude.{
  ◌+◌, ◌%◌, ◌<◌, ◌≡◌, refl, sym, subst, true, false, not, ◌&&◌, if◌then◌else◌, Option, none, some,
  [], arith,
}
use libhx.Rbtree.Remove.Refine.{del-Deletes}
use libhx.Rbtree.Remove.{Deleted, del, del_at, del_done, kept, unlink}
use libhx.Rbtree.Sorted.{erase}
use libhx.Rbtree.Traverse.Order.{later}
use libhx.Rbtree.Traverse.Visit.{Follows, Follows-changed, Delivers, traverse-later}
use libhx.Rbtree.Traverse.{Trav, dtrav, is_eq, after_del, traverse}
use libhx.Rbtree.Valid.{IsValid}
use libhx.Rbtree.{Tree, leaf, node, Rbtree, Walk, absent, present, descend, find, keysvalues}

module _ {ℓ} {K V : Type ℓ} (o : MapOps K V) where
  -- a deletion that finds nothing leaves the tree, and any other one changes the transaction ID
  data Bumped (t : Rbtree K V) : Rbtree K V → Type ℓ where
    same : Bumped t t
    bumped : {t' : Rbtree K V} → t'.tid ≡ (t.tid + 1) % uint_mod → Bumped t t'

  abbrev AllBumped : Rbtree K V → Option (Deleted K V) → Type ℓ
  AllBumped t none = Unit
  AllBumped t (some d) = Bumped t d.tree

  unlinked-Bumped :
      (t : Rbtree K V) (k : K) (v : V) (u : Option (Tree K V))
      → AllBumped t (elim u as (λ _. Option (Deleted K V)) [
        | none ↦ none
        | some root ↦ some (del_done o t k v root)
      ])
  unlinked-Bumped t k v none = tt
  unlinked-Bumped t k v (some root) = bumped refl

  del_at-Bumped : (t : Rbtree K V) (w : Walk K V) → AllBumped t (del_at o t w)
  unfolding del_at
  del_at-Bumped t (absent path) = same
  del_at-Bumped t (present path c l k v r) = unlinked-Bumped t k v (unlink path c l k v r)

  del-Bumped : (t : Rbtree K V) (key : K) → AllBumped t (del o t key)
  unfolding del
  del-Bumped t key = go t.root
    where
      go :
          (root : Tree K V)
          → AllBumped t (elim root as (λ _. Option (Deleted K V)) [
            | leaf ↦ some (record { value = none; errno = kept; tree = t; released = [] })
            | node c l k v r ↦ del_at o t (descend o key [] t.root)
          ])
      go leaf = same
      go (node c l k v r) = del_at-Bumped t (descend o key [] t.root)

  Bumped-Follows :
      (t t' : Rbtree K V) (trav : Trav K) (key : K)
      → t.tid < uint_mod
      → trav.tid ≡ t.tid
      → Follows o t trav key
      → Bumped t t'
      → Follows o t' trav key
  Bumped-Follows t t' trav key small e f same = f
  Bumped-Follows t t' trav key small e f (bumped next) =
      Follows-changed o t t' trav key f (λ x. omega (arith, x, next, e, small))

  -- The checkpoint is still there after the deletion of `gone`: keys are not freed, or the flag bit is
  -- set for which the checkpoint is a copy, or it is the key of another node.
  pub data IsKept (t : Rbtree K V) (key gone : K) : Type 0 where
    not_freed : o.k_free ≡ false → IsKept t key gone
    copied : dtrav t.flags ≡ true → IsKept t key gone
    another : is_eq (o.k_compare key gone) ≡ false → IsKept t key gone

  after_del-IsKept :
      (t : Rbtree K V) (trav : Trav K) (key gone : K)
      → trav.checkpoint ≡ some key
      → IsKept t key gone
      → after_del o t gone trav ≡ trav
  unfolding after_del
  after_del-IsKept t trav key gone mark spare = go (find o t.root gone)
    where
      spared :
          IsKept t key gone
          → (o.k_free && (not (dtrav t.flags) && is_eq (o.k_compare key gone))) ≡ false
      spared (not_freed h) = ground (arith, h)
      spared (copied h) = ground (arith, h)
      spared (another h) = ground (arith, h)

      seen :
          (c : Option K)
          → c ≡ some key
          → elim c as (λ _. Trav K) [
            | none ↦ trav
            | some k ↦
                if o.k_free && (not (dtrav t.flags) && is_eq (o.k_compare k gone))
                then record trav { dangling = true }
                else trav
          ]
            ≡ trav
      seen c e =
          subst
            (λ x.
              elim x as (λ _. Trav K) [
                | none ↦ trav
                | some k ↦
                    if o.k_free && (not (dtrav t.flags) && is_eq (o.k_compare k gone))
                    then record trav { dangling = true }
                    else trav
              ]
              ≡ trav)
            (sym e) (rw (spared spare) refl)

      go :
          (r : Option (K × V))
          → elim r as (λ _. Trav K) [
            | none ↦ trav
            | some e ↦ elim trav.checkpoint as (λ _. Trav K) [
              | none ↦ trav
              | some k ↦
                  if o.k_free && (not (dtrav t.flags) && is_eq (o.k_compare k gone))
                  then record trav { dangling = true }
                  else trav
            ]
          ]
            ≡ trav
      go none = refl
      go (some e) = seen trav.checkpoint mark

  -- HXrbtree_traverse after HXrbtree_del has deleted some key, the traverser's own or another one,
  -- since its last call: the deletion ends, and the call reads no freed memory and returns the first of
  -- the remaining entries whose key is greater than that of the entry returned last, or NULL. The tree is
  -- valid, its transaction ID is the one the traverser saw, no copy of a key fails, and the checkpoint is
  -- kept (keys are not freed, or the flag bit is set for which the checkpoint is a copy, or the deleted
  -- key is another one).
  pub traverse-del :
      (law : IsLawful o) (memory : (k : K) → key_failed o k ≡ false) (t : Rbtree K V)
      (trav : Trav K) (key gone : K)
      → IsValid o t
      → t.tid < uint_mod
      → trav.tid ≡ t.tid
      → Follows o t trav key
      → IsKept t key gone
      → (d : Deleted K V) × (del o t gone ≡ some d)
        × Delivers o d.tree
            (later o key (erase o (keysvalues t.root) gone))
            (traverse o d.tree (after_del o t gone trav))
  traverse-del law memory t trav key gone h small e f spare =
      let (d, run, r) = del-Deletes o law t gone h in
      let before = traverse-later o law memory d.tree trav key r.valid.sorted (
        Bumped-Follows t d.tree trav key small e f (subst (AllBumped t) run (del-Bumped t gone))) in
      (
        d,
        run,
        subst
            (λ x.
              Delivers o d.tree (later o key (erase o (keysvalues t.root) gone))
                (traverse o d.tree x))
            (sym (after_del-IsKept t trav key gone f.mark spare))
            (subst (λ m. Delivers o d.tree (later o key m) (traverse o d.tree trav)) r.entries
              before),
      )
