-- ===== src/Umap/Valid.antt =====
-- The invariant of the hash map of src/map.c, and HXumap_layout under it.
use libhx.Ops.{MapOps, IsLawful}
use libhx.Prelude.{
  ℕ, ◌<◌, ◌≡◌, refl, ap, sym, ◌∙◌, subst, true, List, [], length, get_or, replicate, ltb, all_below,
  all_below-at, arith,
}
use native.Mathlib.Nat.{mod-lt}
use libhx.Umap.Buckets.{or_else, length-replicate, find_in-replicate, length-replicate-keysvalues}
use libhx.Umap.Placed.{
  Placed, Placed-replicate, Tidy, Tidy-replicate, Distinct-keysvalues, find_in-Placed,
}
use libhx.Umap.Rehash.{
  move-keysvalues, find_in-move_bucket, length-move_bucket, length-keysvalues_move,
  Placed-move_bucket, Tidy-move_bucket, AllNew-replicate,
}
use libhx.Umap.{
  Umap, prime, bk_idx, min_load_at, max_load_at, keysvalues, find_in, find, move, move_bucket,
  laid_out, init,
}

module _ {ℓ} {K V : Type ℓ} (o : MapOps K V) where
  -- The table has the size of its power, each entry is in the bucket of its hash, no key occurs
  -- twice, the item counter counts the entries, and the load limits are those of the power.
  pub record IsValid (m : Umap K V) : Type ℓ where
    pub power : m.power < 28
    pub shape : length m.buckets ≡ prime m.power
    pub placed : Placed (bk_idx o (prime m.power)) 0 m.buckets
    pub tidy : Tidy o m.buckets
    pub counted : m.items ≡ length (keysvalues m.buckets)
    pub min_load : m.min_load ≡ min_load_at m.power
    pub max_load : m.max_load ≡ max_load_at m.power

  -- another layout of the same entries
  pub record Relaid (m m' : Umap K V) : Type ℓ where
    pub valid : IsValid m'
    pub same : (q : K) → find o m' q ≡ find o m q
    pub items : m'.items ≡ m.items
    pub flags : m'.flags ≡ m.flags

  pub bk_idx-lt : (n : ℕ) (k : K) → 0 < n → bk_idx o n k < n
  unfolding bk_idx
  bk_idx-lt n k h = mod-lt (o.k_hash k) h

  pub prime-pos : (p : ℕ) → p < 28 → 0 < prime p
  unfolding all_below prime
  prime-pos p l =
      let positive : ltb 0 (prime p) ≡ true = all_below-at 28 (λ i. ltb 0 (prime i)) p refl l in
      ground arith

  -- a lookup in all entries
  pub find-keysvalues :
      (law : IsLawful o) (m : Umap K V) (q : K)
      → IsValid m
      → find o m q ≡ find_in o (keysvalues m.buckets) q
  unfolding find
  find-keysvalues law m q v =
      sym (find_in-Placed o law (bk_idx o (prime m.power)) 0 _ m.buckets q v.placed (omega arith))

  -- a new layout keeps the entries, what each lookup finds and the invariant
  pub laid_out-Relaid :
      (law : IsLawful o) (m : Umap K V) (power : ℕ)
      → IsValid m
      → power < 28
      → Relaid m (laid_out o m power)
  unfolding laid_out find
  laid_out-Relaid law m power v l = record {
    valid = record {
      power = l;
      shape = ap length moved ∙ length-move_bucket o idx law n lt start es ∙ size;
      placed =
          subst (Placed idx 0) (sym moved)
            (Placed-move_bucket o idx law n lt start es (Placed-replicate V idx 0 n));
      tidy = subst (Tidy o) (sym moved) (
          Tidy-move_bucket o idx law n lt start es size (Tidy-replicate o n)
            (Distinct-keysvalues o law (bk_idx o (prime m.power)) 0 m.buckets v.placed v.tidy)
            (AllNew-replicate o idx n es));
      counted = omega (
        arith,
        v.counted,
        ap (λ bs. length (keysvalues bs)) moved
            ∙ length-keysvalues_move o idx law n lt start es size,
        length-replicate-keysvalues o n,
      );
      min_load = refl;
      max_load = refl;
    };
    same = λ q.
        ap (λ bs. find_in o (get_or bs (idx q) []) q) moved
        ∙ find_in-move_bucket o idx law n lt start es q size
        ∙ ap (λ x. or_else x (find_in o es q)) (find_in-replicate o n (idx q) q)
        ∙ sym (find-keysvalues law m q v);
    items = refl;
    flags = refl;
  }
    where
      n : ℕ
      n = prime power

      idx : K → ℕ
      idx = bk_idx o n

      lt : (k : K) → idx k < n
      lt k = bk_idx-lt n k (prime-pos power l)

      start : List (List (K × V))
      start = replicate n []

      es : List (K × V)
      es = keysvalues m.buckets

      size : length start ≡ n
      size = length-replicate n []

      moved : move o idx start m.buckets ≡ move_bucket o idx start es
      moved = move-keysvalues o idx start m.buckets

  pub init-IsValid : (flags : ℕ) → IsValid (init o flags)
  unfolding init
  init-IsValid flags = record {
    power = omega arith;
    shape = length-replicate {A = List (K × V)} (prime 0) [];
    placed = Placed-replicate V (bk_idx o (prime 0)) 0 (prime 0);
    tidy = Tidy-replicate o (prime 0);
    counted = sym (length-replicate-keysvalues o (prime 0));
    min_load = refl;
    max_load = refl;
  }
