-- ===== src/Rbtree/Foreach.antt =====
-- The walks over all nodes of the tree in src/map.c: HXrbtree_qfe and HXrbtree_free_dive.
use mathlib.Core.List.{Perm, perm_middle, foldl, flat_map}
use mathlib.Core.List.Perm
use libhx.Ops.{Release, free_key, free_data}
use libhx.Prelude.{
  ◌≡◌, refl, sym, ap, ◌∙◌, true, false, List, [], ◌∷◌, ◌++◌, append_assoc, append-nil,
}
use libhx.Rbtree.{Tree, leaf, node, keysvalues, qfe, free_dive}

append-perm_comm {ℓ} : {A : Type ℓ} (a b : List A) → Perm (a ++ b) (b ++ a)
append-perm_comm [] b = rw (append-nil b) (Perm.refl b)
append-perm_comm (x ∷ a) b =
    Perm.trans (Perm.cons x (append-perm_comm a b)) (Perm.symm (perm_middle b a))

module _ {ℓ} {K V : Type ℓ} where
  foldl-append {κ} :
      {S : Type κ} (step : S → K × V → S) (s : S) (a b : List (K × V))
      → foldl step s (a ++ b) ≡ foldl step (foldl step s a) b
  foldl-append step s [] b = refl
  foldl-append step s (e ∷ a) b = foldl-append step (step s e) a b

  -- with a callback that always asks to continue, HXrbtree_qfe visits every entry once, in key
  -- order
  pub qfe-foldl {κ} :
      {S : Type κ} (step : S → K × V → S) (t : Tree K V) (s : S)
      → qfe (λ e u. (true, step u e)) t s ≡ foldl step s (keysvalues t)
  unfolding qfe keysvalues
  qfe-foldl step leaf s = refl
  qfe-foldl step (node c l k v r) s =
      qfe-foldl step r (step (qfe (λ e u. (true, step u e)) l s) (k, v))
      ∙ ap (λ u. foldl step (step u (k, v)) (keysvalues r)) (qfe-foldl step l s)
      ∙ sym (foldl-append step s (keysvalues l) ((k, v) ∷ keysvalues r))

  -- the nodes from the leftmost one up to the root
  pub left_spine : Tree K V → List (K × V)
  left_spine leaf = []
  left_spine (node c l k v r) = left_spine l ++ (k, v) ∷ []

  -- with a callback that asks to stop at once, HXrbtree_qfe still calls it for each node from the
  -- leftmost one up to the root
  pub qfe-left_spine :
      (t : Tree K V) (seen : List (K × V))
      → qfe (λ e u. (false, u ++ e ∷ [])) t seen ≡ seen ++ left_spine t
  unfolding qfe left_spine
  qfe-left_spine leaf seen = sym (append-nil seen)
  qfe-left_spine (node c l k v r) seen =
      ap (λ u. u ++ (k, v) ∷ []) (qfe-left_spine l seen)
      ∙ append_assoc seen (left_spine l) ((k, v) ∷ [])

  -- what freeing one node releases
  abbrev pub releases : K × V → List (Release K V)
  releases e = free_key e.0 ∷ free_data e.1 ∷ []

  pub flat_map-append :
      (a b : List (K × V)) → flat_map releases (a ++ b) ≡ flat_map releases a ++ flat_map releases b
  unfolding flat_map
  flat_map-append [] b = refl
  flat_map-append (e ∷ a) b = ap (λ m. releases e ++ m) (flat_map-append a b)

  -- freeing the tree releases the key and the datum of every node once, and nothing else
  pub free_dive-perm :
      (t : Tree K V) → Perm (free_dive true true t) (flat_map releases (keysvalues t))
  unfolding free_dive keysvalues flat_map
  free_dive-perm leaf = Perm.refl []
  free_dive-perm (node c l k v r) = rw (flat_map-append (keysvalues l) ((k, v) ∷ keysvalues r)) (
      Perm.append (free_dive-perm l) (
        Perm.trans (append-perm_comm (free_dive true true r) (releases (k, v)))
          (Perm.append_left (releases (k, v)) (free_dive-perm r))))
