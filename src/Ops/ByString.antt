-- ===== src/Ops/ByString.antt =====
-- The operations that HXmap_ops_setup of src/map.c chooses for HXMAP_SCKEY and HXMAP_SCDATA: strcmp,
-- HX_strdup, free and HXhash_djb2, on strings of bytes. A string that is there is never NULL.
use Prim.Native.Nat.Ordering.{lt, eq, gt}
use Prim.Native.Nat.{Ordering, compare}
use libhx.Hash.{djb2}
use libhx.Ops.{MapOps, IsLawful}
use libhx.Prelude.{ℕ, ◌≡◌, refl, true, false, List, [], ◌∷◌, arith}

-- the sign of strcmp
unfoldable pub strcmp : List ℕ → List ℕ → Ordering
strcmp [] [] = eq
strcmp [] (d ∷ t) = lt
strcmp (c ∷ s) [] = gt
strcmp (c ∷ s) (d ∷ t) = elim (compare c d) [ lt ↦ lt | eq ↦ strcmp s t | gt ↦ gt ]

unfoldable pub by_string : MapOps (List ℕ) (List ℕ)
unfolding strcmp djb2
by_string = record {
  k_compare = strcmp;
  k_clone = λ k. k;
  k_is_null = λ k. false;
  k_free = true;
  d_clone = λ v. v;
  d_is_null = λ v. false;
  d_free = true;
  k_hash = djb2;
}

strcmp_refl : (a : List ℕ) → strcmp a a ≡ eq
unfolding strcmp
strcmp_refl [] = refl
strcmp_refl (c ∷ s) = ground (arith, strcmp_refl s)

eq_of_strcmp : (a b : List ℕ) → strcmp a b ≡ eq → a ≡ b
unfolding strcmp
eq_of_strcmp [] [] h = refl
eq_of_strcmp [] (d ∷ t) h = absurd (ground (arith, h))
eq_of_strcmp (c ∷ s) [] h = absurd (ground (arith, h))
eq_of_strcmp (c ∷ s) (d ∷ t) h = ground (arith, h, eq_of_strcmp s t)

lt_of_strcmp : (a b : List ℕ) → strcmp a b ≡ gt → strcmp b a ≡ lt
unfolding strcmp
lt_of_strcmp [] [] h = absurd (ground (arith, h))
lt_of_strcmp [] (d ∷ t) h = absurd (ground (arith, h))
lt_of_strcmp (c ∷ s) [] h = refl
lt_of_strcmp (c ∷ s) (d ∷ t) h = ground (arith, h, lt_of_strcmp s t)

gt_of_strcmp : (a b : List ℕ) → strcmp a b ≡ lt → strcmp b a ≡ gt
unfolding strcmp
gt_of_strcmp [] [] h = absurd (ground (arith, h))
gt_of_strcmp [] (d ∷ t) h = refl
gt_of_strcmp (c ∷ s) [] h = absurd (ground (arith, h))
gt_of_strcmp (c ∷ s) (d ∷ t) h = ground (arith, h, gt_of_strcmp s t)

strcmp_trans : (a b c : List ℕ) → strcmp a b ≡ lt → strcmp b c ≡ lt → strcmp a c ≡ lt
unfolding strcmp
strcmp_trans [] [] c h k = absurd (ground (arith, h))
strcmp_trans [] (y ∷ t) [] h k = absurd (ground (arith, k))
strcmp_trans [] (y ∷ t) (z ∷ u) h k = refl
strcmp_trans (x ∷ s) [] c h k = absurd (ground (arith, h))
strcmp_trans (x ∷ s) (y ∷ t) [] h k = absurd (ground (arith, k))
strcmp_trans (x ∷ s) (y ∷ t) (z ∷ u) h k = ground (arith, h, k, strcmp_trans s t u)

-- strcmp is a total order
pub by_string-IsLawful : IsLawful by_string
unfolding by_string
by_string-IsLawful = record {
  compare_refl = strcmp_refl;
  eq_of_compare = eq_of_strcmp;
  lt_of_gt = lt_of_strcmp;
  gt_of_lt = gt_of_strcmp;
  lt_trans = strcmp_trans;
  clone_key = λ k h. refl;
}
