-- ===== src/Rbtree/Sorted.antt =====
-- The abstract view of an ordered map: its entries as a list in key order, and what lookup and
-- insertion mean there.
use Prim.Native.Nat.Ordering.{lt, eq, gt}
use libhx.Ops.{
  MapOps, IsLawful, eexist, enomem, clone_errno, Ret, done, fail, key_failed, data_failed,
}
use libhx.Prelude.{
  ◌≡◌, refl, ap, ◌∙◌, Bool, not, Option, none, some, List, [], ◌∷◌, ◌++◌, if◌then◌else◌, arith,
}

module _ {ℓ} {K V : Type ℓ} where
  -- every key of the entries satisfies `P`
  abbrev pub All {κ} : (K → Type κ) → List (K × V) → Type κ
  All P [] = Unit
  All P (e ∷ m) = P e.0 × All P m

  pub All-append {κ} : (P : K → Type κ) (a b : List (K × V)) → All P a → All P b → All P (a ++ b)
  All-append P [] b p q = q
  All-append P (e ∷ a) b p q = (p.0, All-append P a b p.1 q)

  pub All-split {κ} : (P : K → Type κ) (a b : List (K × V)) → All P (a ++ b) → All P a × All P b
  All-split P [] b p = (tt, p)
  All-split P (e ∷ a) b p = let (x, y) = All-split P a b p.1 in ((p.0, x), y)

  pub All-imp {κ μ} :
      {P : K → Type κ} {Q : K → Type μ}
      → ((k : K) → P k → Q k)
      → (m : List (K × V)) → All P m
      → All Q m
  All-imp f [] p = tt
  All-imp f (e ∷ m) p = (f e.0 p.0, All-imp f m p.1)

module _ {ℓ} {K V : Type ℓ} (o : MapOps K V) where
  abbrev pub Less : K → K → Type 0
  Less a b = o.k_compare a b ≡ lt

  abbrev pub Below : K → List (K × V) → Type 0
  Below k m = All (λ x. Less x k) m

  abbrev pub Above : K → List (K × V) → Type 0
  Above k m = All (λ x. Less k x) m

  -- the keys ascend strictly
  abbrev pub IsSorted : List (K × V) → Type 0
  IsSorted [] = Unit
  IsSorted (e ∷ m) = Above e.0 m × IsSorted m

  -- the entry with the key
  unfoldable pub lookup : List (K × V) → K → Option (K × V)
  lookup [] key = none
  lookup (e ∷ m) key = elim (o.k_compare key e.0) [
    | lt ↦ lookup m key
    | eq ↦ some e
    | gt ↦ lookup m key
  ]

  -- sets the datum of the key, keeping the order
  unfoldable pub insert : List (K × V) → K → V → List (K × V)
  insert [] key v = (key, v) ∷ []
  insert (e ∷ m) key v = elim (o.k_compare key e.0) [
    | lt ↦ (key, v) ∷ e ∷ m
    | eq ↦ (e.0, v) ∷ m
    | gt ↦ e ∷ insert m key v
  ]

  -- drops the entry with the key
  unfoldable pub erase : List (K × V) → K → List (K × V)
  erase [] key = []
  erase (e ∷ m) key = elim (o.k_compare key e.0) [
    | lt ↦ e ∷ erase m key
    | eq ↦ m
    | gt ↦ e ∷ erase m key
  ]

  -- `HXmap_add` on an ordered map, with a test `refuse` for a key that is there
  unfoldable pub add_entries : Bool → Bool → List (K × V) → K → V → Ret × List (K × V)
  add_entries memory refuse m key value = elim (lookup m key) [
    | some e ↦
        if refuse
        then (fail eexist, m)
        else if data_failed o value
        then (fail clone_errno, m)
        else (done, insert m key (o.d_clone value))
    | none ↦
        if not memory
        then (fail enomem, m)
        else if key_failed o key
        then (fail clone_errno, m)
        else if data_failed o value
        then (fail clone_errno, m)
        else (done, insert m key (o.d_clone value))
  ]

  module _ (law : IsLawful o) where
    pub IsSorted-split :
        (a : List (K × V)) (k : K) (v : V) (b : List (K × V))
        → IsSorted (a ++ (k, v) ∷ b)
        → IsSorted a × Below k a × Above k b × IsSorted b
    IsSorted-split [] k v b s = (tt, tt, s.0, s.1)
    IsSorted-split (e ∷ a) k v b s =
        let (p, q, r, t) = IsSorted-split a k v b s.1 in
        let (x, y) = All-split (λ z. Less e.0 z) a ((k, v) ∷ b) s.0 in ((x, p), (y.0, q), r, t)

    pub lookup-Below :
        (key : K) (a b : List (K × V)) → Below key a → lookup (a ++ b) key ≡ lookup b key
    unfolding lookup
    lookup-Below key [] b p = refl
    lookup-Below key (e ∷ a) b p =
        ground (arith, law.gt_of_lt e.0 key p.0, lookup-Below key a b p.1)

    pub lookup-Above : (key : K) (b : List (K × V)) → Above key b → lookup b key ≡ none
    unfolding lookup
    lookup-Above key [] p = refl
    lookup-Above key (e ∷ b) p = ground (arith, lookup-Above key b p.1)

    pub insert-Below :
        (key : K) (v : V) (a b : List (K × V))
        → Below key a
        → insert (a ++ b) key v ≡ a ++ insert b key v
    unfolding insert
    insert-Below key v [] b p = refl
    insert-Below key v (e ∷ a) b p =
        ground (arith, law.gt_of_lt e.0 key p.0, insert-Below key v a b p.1)

    pub insert-Above :
        (key : K) (v : V) (b : List (K × V)) → Above key b → insert b key v ≡ (key, v) ∷ b
    unfolding insert
    insert-Above key v [] p = refl
    insert-Above key v (e ∷ b) p = ground arith

    -- insertion keeps any bound that the new key meets
    All-insert {κ} :
        (P : K → Type κ) (m : List (K × V)) (key : K) (v : V)
        → P key
        → All P m
        → All P (insert m key v)
    unfolding insert
    All-insert P [] key v p a = (p, tt)
    All-insert P (e ∷ m) key v p a = ground (arith, All-insert P m key v p a.1)

    pub insert-IsSorted :
        (m : List (K × V)) (key : K) (v : V) → IsSorted m → IsSorted (insert m key v)
    unfolding insert
    insert-IsSorted [] key v s = (tt, tt)
    insert-IsSorted (e ∷ m) key v s = ground (
      arith,
      insert-IsSorted m key v s.1,
      All-insert (λ z. Less e.0 z) m key v,
      law.lt_of_gt key e.0,
      λ (h : Less key e.0). All-imp (λ z q. law.lt_trans key e.0 z h q) m s.0,
    )

    -- a lookup in entries split at a key goes to one side
    pub lookup_left :
        (key : K) (a : List (K × V)) (k : K) (v : V) (b : List (K × V))
        → Above k b
        → Less key k
        → lookup (a ++ (k, v) ∷ b) key ≡ lookup a key
    unfolding lookup
    lookup_left key [] k v b p h =
        rw h (lookup-Above key b (All-imp (λ z q. law.lt_trans key k z h q) b p))
    lookup_left key (e ∷ a) k v b p h = ground (arith, lookup_left key a k v b p h)

    pub lookup_mid :
        (key : K) (a : List (K × V)) (k : K) (v : V) (b : List (K × V))
        → Below k a
        → o.k_compare key k ≡ eq
        → lookup (a ++ (k, v) ∷ b) key ≡ some (k, v)
    unfolding lookup
    lookup_mid key a k v b p h =
        let same = law.eq_of_compare key k h in
        rw (same, lookup-Below k a ((k, v) ∷ b) p) (rw (law.compare_refl k, lookup))

    pub lookup_right :
        (key : K) (a : List (K × V)) (k : K) (v : V) (b : List (K × V))
        → Below k a
        → o.k_compare key k ≡ gt
        → lookup (a ++ (k, v) ∷ b) key ≡ lookup b key
    unfolding lookup
    lookup_right key a k v b p h =
        let less = law.lt_of_gt key k h in
        rw (lookup-Below key a ((k, v) ∷ b) (All-imp (λ z q. law.lt_trans z k key q less) a p))
          (rw (h, lookup))

    pub insert_mid :
        (a : List (K × V)) (k : K) (v w : V) (b : List (K × V))
        → Below k a
        → insert (a ++ (k, v) ∷ b) k w ≡ a ++ (k, w) ∷ b
    unfolding insert
    insert_mid a k v w b p =
        insert-Below k w a ((k, v) ∷ b) p ∙ ap (λ m. a ++ m) (rw (law.compare_refl k, insert))
