-- ===== src/Rbtree/Traverse/Order.antt =====
-- What a position of the traverser of src/map.c leaves to visit, in the list of entries.
use Prim.Native.Nat.Ordering.{lt, eq, gt}
use libhx.Ops.{MapOps, IsLawful}
use libhx.Prelude.{
  ◌≡◌, refl, ap, sym, ◌∙◌, Option, none, some, List, [], ◌∷◌, ◌++◌, append_assoc, arith,
}
use libhx.Rbtree.Sorted.{Below, Above, IsSorted, IsSorted-split}
use libhx.Rbtree.Traverse.{at, dive}
use libhx.Rbtree.{Dir, left, right, Tree, leaf, node, keysvalues}

abbrev pub head_of {κ} : {A : Type κ} → List A → Option A
head_of [] = none
head_of (e ∷ m) = some e

module _ {ℓ} {K V : Type ℓ} where
  -- the entries at and behind a node, without its left subtree
  abbrev pub from_node : Tree K V → List (K × V) → List (K × V)
  from_node leaf m = m
  from_node (node c l k v r) m = (k, v) ∷ (keysvalues r ++ m)

  -- the entries that a path leaves: at each left turn the node and its right subtree
  unfoldable pub pending : Tree K V → List (Dir × List Dir) → List (K × V)
  unfolding at
  pending root [] = []
  pending root ((left, way) ∷ path) = from_node (at root way) (pending root path)
  pending root ((right, way) ∷ path) = pending root path

  -- the loop to the left leaves the whole subtree
  pub pending-dive :
      (root t : Tree K V) (way : List Dir) (path : List (Dir × List Dir))
      → at root way ≡ t
      → pending root (dive t way path) ≡ keysvalues t ++ pending root path
  unfolding pending dive at keysvalues
  pending-dive root leaf way path e = refl
  pending-dive root (node c l k v r) way path e =
      pending-dive root l (left ∷ way) ((left, way) ∷ path) (rw e)
      ∙ ap (λ x. keysvalues l ++ from_node x (pending root path)) e
      ∙ sym (append_assoc (keysvalues l) ((k, v) ∷ keysvalues r) (pending root path))

module _ {ℓ} {K V : Type ℓ} (o : MapOps K V) where
  -- the entries with greater keys
  unfoldable pub later : K → List (K × V) → List (K × V)
  later key [] = []
  later key (e ∷ m) = elim (o.k_compare key e.0) [
    | lt ↦ e ∷ later key m
    | eq ↦ later key m
    | gt ↦ later key m
  ]

  module _ (law : IsLawful o) where
    pub later-Below :
        (key : K) (a b : List (K × V)) → Below o key a → later key (a ++ b) ≡ later key b
    unfolding later
    later-Below key [] b p = refl
    later-Below key (e ∷ a) b p = ground (arith, law.gt_of_lt e.0 key p.0, later-Below key a b p.1)

    pub later-Above : (key : K) (b : List (K × V)) → Above o key b → later key b ≡ b
    unfolding later
    later-Above key [] p = refl
    later-Above key (e ∷ b) p = ground (arith, later-Above key b p.1)

    -- in sorted entries, those behind an entry are those with greater keys
    pub later-split :
        (a : List (K × V)) (k : K) (v : V) (b : List (K × V))
        → IsSorted o (a ++ (k, v) ∷ b)
        → later k (a ++ (k, v) ∷ b) ≡ b
    unfolding later
    later-split a k v b s =
        let (sa, ba, ab, sb) = IsSorted-split o law a k v b s in
        later-Below k a ((k, v) ∷ b) ba ∙ rw (law.compare_refl k, later) (later-Above k b ab)
