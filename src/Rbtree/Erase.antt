-- ===== src/Rbtree/Erase.antt =====
-- Dropping an entry from the sorted entries of an ordered map.
use libhx.Ops.{MapOps, IsLawful}
use libhx.Prelude.{◌+◌, ◌≡◌, refl, ap, ◌∙◌, some, List, [], ◌∷◌, ◌++◌, length, arith}
use libhx.Rbtree.Sorted.{All, Less, Below, Above, IsSorted, lookup, erase}

module _ {ℓ} {K V : Type ℓ} (o : MapOps K V) (law : IsLawful o) where
  erase-Below :
      (key : K) (a b : List (K × V)) → Below o key a → erase o (a ++ b) key ≡ a ++ erase o b key
  unfolding erase
  erase-Below key [] b p = refl
  erase-Below key (e ∷ a) b p = ground (arith, law.gt_of_lt e.0 key p.0, erase-Below key a b p.1)

  erase-Above : (key : K) (b : List (K × V)) → Above o key b → erase o b key ≡ b
  unfolding erase
  erase-Above key [] p = refl
  erase-Above key (e ∷ b) p = ground (arith, erase-Above key b p.1)

  pub erase_mid :
      (a : List (K × V)) (k : K) (v : V) (b : List (K × V))
      → Below o k a
      → erase o (a ++ (k, v) ∷ b) k ≡ a ++ b
  unfolding erase
  erase_mid a k v b p =
      erase-Below k a ((k, v) ∷ b) p ∙ ap (λ m. a ++ m) (rw (law.compare_refl k, erase))

  pub erase_around :
      (key : K) (a b : List (K × V)) → Below o key a → Above o key b → erase o (a ++ b) key ≡ a ++ b
  erase_around key a b p q = erase-Below key a b p ∙ ap (λ m. a ++ m) (erase-Above key b q)

  All-erase {μ} : (P : K → Type μ) (m : List (K × V)) (key : K) → All P m → All P (erase o m key)
  unfolding erase
  All-erase P [] key a = tt
  All-erase P (e ∷ m) key a = ground (arith, All-erase P m key a.1)

  pub erase-IsSorted : (m : List (K × V)) (key : K) → IsSorted o m → IsSorted o (erase o m key)
  unfolding erase
  erase-IsSorted [] key s = tt
  erase-IsSorted (e ∷ m) key s =
      ground (arith, erase-IsSorted m key s.1, All-erase (λ z. Less o e.0 z) m key s.0)

  -- an entry that is found is the only one to go
  pub length-erase :
      (m : List (K × V)) (key : K) (e : K × V)
      → lookup o m key ≡ some e
      → length (erase o m key) + 1 ≡ length m
  unfolding erase lookup
  length-erase [] key e h = cc
  length-erase (x ∷ m) key e h = ground (arith, length-erase m key e)
