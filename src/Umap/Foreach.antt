-- ===== src/Umap/Foreach.antt =====
-- HXumap_qfe, HXumap_keysvalues and HXumap_free of src/map.c: the walks over all buckets.
use mathlib.Core.List.{flat_map}
use libhx.Prelude.{
  ◌≡◌, refl, ap, sym, ◌∙◌, Bool, true, false, inl, inr, Bool-cases, if◌then◌else◌, List, [], ◌∷◌,
  ◌++◌,
}
use libhx.Rbtree.Foreach.{releases, flat_map-append}
use libhx.Umap.{keysvalues, free_bucket, free_buckets, qfe_bucket, qfe_buckets}

module _ {ℓ ℓ'} {K V : Type ℓ} {S : Type ℓ'} (fn : S → K × V → S × Bool) where
  qfe_bucket-append :
      (s : S) (a b : List (K × V))
      → qfe_bucket fn s (a ++ b) ≡ (
          if (qfe_bucket fn s a).1
          then qfe_bucket fn (qfe_bucket fn s a).0 b
          else ((qfe_bucket fn s a).0, false))
  unfolding qfe_bucket
  qfe_bucket-append s [] b = refl
  qfe_bucket-append s (e ∷ a) b = elim (Bool-cases ((fn s e).1)) [
    | inl t ↦ rw t (qfe_bucket-append ((fn s e).0) a b)
    | inr f ↦ rw f
  ]

  -- The callback runs on the entries in the order of HXumap_keysvalues up to the first one at which
  -- it asks to stop, and on none after that, in whatever bucket that was.
  pub qfe_buckets-keysvalues :
      (s : S) (bs : List (List (K × V))) → qfe_buckets fn s bs ≡ qfe_bucket fn s (keysvalues bs)
  unfolding qfe_buckets keysvalues qfe_bucket
  qfe_buckets-keysvalues s [] = refl
  qfe_buckets-keysvalues s (b ∷ bs) =
      ap (λ r. if (qfe_bucket fn s b).1 then r else ((qfe_bucket fn s b).0, false))
        (qfe_buckets-keysvalues ((qfe_bucket fn s b).0) bs)
      ∙ sym (qfe_bucket-append s b (keysvalues bs))

module _ {ℓ} {K V : Type ℓ} where
  free_bucket-flat_map : (b : List (K × V)) → free_bucket true true b ≡ flat_map releases b
  unfolding free_bucket flat_map
  free_bucket-flat_map [] = refl
  free_bucket-flat_map (e ∷ b) = ap (λ m. releases e ++ m) (free_bucket-flat_map b)

  -- Freeing a hash map with both free functions releases the key and the datum of each entry of
  -- HXumap_keysvalues once, in that order, and nothing else.
  pub free_buckets-flat_map :
      (bs : List (List (K × V))) → free_buckets true true bs ≡ flat_map releases (keysvalues bs)
  unfolding free_buckets keysvalues flat_map
  free_buckets-flat_map [] = refl
  free_buckets-flat_map (b ∷ bs) =
      ap (λ m. m ++ free_buckets true true bs) (free_bucket-flat_map b)
      ∙ ap (λ m. flat_map releases b ++ m) (free_buckets-flat_map bs)
      ∙ sym (flat_map-append b (keysvalues bs))
