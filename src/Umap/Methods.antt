-- ===== src/Umap/Methods.antt =====
-- The steps of HXumap_add and HXumap_del of src/map.c: each keeps the invariant, and changes the view
-- of the map at one key.
use libhx.Ops.{MapOps, IsLawful}
use libhx.Prelude.{
  ℕ, ◌+◌, ◌-◌, ◌<◌, ◌≡◌, refl, ap, sym, ◌∙◌, subst, Bool, true, false, ◌&&◌, if_both, Option, none,
  some, List, [], ◌∷◌, ◌++◌, length, length-append, get_or, ltb, leb, arith,
}
use libhx.Umap.Buckets.{
  get_or-update_bucket, length-update_bucket, length-keysvalues, length-unlink_in, length-set_in,
  length-bucket,
}
use libhx.Umap.Change.{
  change, Distinct-unlink_in, Distinct-set_in, find_in-append_change, find_in-unlink_change,
  find_in-set_change, update_bucket-change,
}
use libhx.Umap.Placed.{
  AllAt, Placed-update, AllAt-append, AllAt-unlink_in, AllAt-set_in, Distinct, Distinct-append,
  Tidy-update, Tidy-at,
}
use libhx.Umap.Valid.{IsValid, Relaid, laid_out-Relaid, bk_idx-lt, prime-pos}
use libhx.Umap.{
  Umap, prime, bk_idx, update_bucket, find_in, unlink_in, set_in, find, layout, resize, shrink,
  hash_primes,
}

module _ {ℓ} {K V : Type ℓ} (o : MapOps K V) where
  -- a valid map that shows a change of another map's view
  pub record Changed (e : K × V) (new : Option (K × V)) (m m' : Umap K V) : Type ℓ where
    pub valid : IsValid o m'
    pub view : (q : K) → find o m' q ≡ change o e new (find o m) q

  bucket : Umap K V → K → List (K × V)
  bucket m k = get_or m.buckets (bk_idx o (prime m.power) k) []

  module _ (law : IsLawful o) where
    -- a change of the bucket of a key
    bucket-Changed :
        (m : Umap K V) (e : K × V) (new : Option (K × V)) (f : List (K × V) → List (K × V))
        (n t : ℕ)
        → IsValid o m
        → ((idx : K → ℕ) (i : ℕ) (b : List (K × V))
            → idx e.0 ≡ i
            → AllAt idx i b
            → AllAt idx i (f b))
        → (Distinct o (bucket m e.0) → Distinct o (f (bucket m e.0)))
        → ((q : K) → find_in o (f (bucket m e.0)) q ≡ change o e new (find_in o (bucket m e.0)) q)
        → n + length (bucket m e.0) ≡ m.items + length (f (bucket m e.0))
        → Changed e new m (record m {
          buckets = update_bucket (bk_idx o (prime m.power) e.0) f m.buckets;
          items = n;
          tid = t;
        })
    unfolding bucket find
    bucket-Changed m e new f n t v place distinct view count =
        let idx = bk_idx o (prime m.power) in
        let inside : idx e.0 < length m.buckets =
          subst (λ k. idx e.0 < k) (sym v.shape)
            (bk_idx-lt o _ e.0 (prime-pos o m.power v.power)) in
        record {
          valid = record {
            power = v.power;
            shape = length-update_bucket (idx e.0) f m.buckets ∙ v.shape;
            placed =
                Placed-update idx 0 (idx e.0) f m.buckets
                  (λ b a. place idx (0 + idx e.0) b (omega arith) a) v.placed;
            tidy = Tidy-update o (idx e.0) f m.buckets distinct v.tidy;
            counted = omega (
              arith,
              count,
              v.counted,
              length-keysvalues (idx e.0) f m.buckets,
              ap length (get_or-update_bucket (idx e.0) f m.buckets inside),
            );
            min_load = v.min_load;
            max_load = v.max_load;
          };
          view = λ q. update_bucket-change o law idx e new f m.buckets q inside (view q);
        }

    -- a map that a layout leaves, when there is one
    abbrev pub RelaidIf : Umap K V → Option (Umap K V) → Type ℓ
    RelaidIf m none = Unit
    RelaidIf m (some m') = Relaid o m m'

    Relaid-refl : (m : Umap K V) → IsValid o m → Relaid o m m
    Relaid-refl m v = record { valid = v; same = λ q. refl; items = refl; flags = refl }

    layout-RelaidIf :
        (memory : Bool) (m : Umap K V) (power : ℕ)
        → IsValid o m
        → power < 28
        → RelaidIf m (layout o memory m power)
    unfolding layout
    layout-RelaidIf false m power v l = tt
    layout-RelaidIf true m power v l = laid_out-Relaid o law m power v l

    pub resize-RelaidIf :
        (memory : Bool) (m : Umap K V) → IsValid o m → RelaidIf m (resize o memory m)
    unfolding resize
    resize-RelaidIf memory m v =
        if_both (RelaidIf m) (leb m.max_load m.items && ltb m.power (length hash_primes - 1))
          (λ t. layout-RelaidIf memory m (m.power + 1) v (ground arith))
          (λ f.
            if_both (RelaidIf m) (ltb m.items m.min_load && ltb 0 m.power)
              (λ t. layout-RelaidIf memory m (m.power - 1) v (omega (arith, v.power)))
              (λ g. Relaid-refl m v))

    pub shrink-Relaid :
        (memory : Bool) (m : Umap K V) → IsValid o m → Relaid o m (shrink o memory m)
    unfolding shrink
    shrink-Relaid memory m v =
        if_both (Relaid o m) (ltb m.items m.min_load && ltb 0 m.power)
          (λ t.
            kept (layout o memory m (m.power - 1))
              (layout-RelaidIf memory m (m.power - 1) v (omega (arith, v.power))))
          (λ g. Relaid-refl m v)
      where
        kept :
            (r : Option (Umap K V))
            → RelaidIf m r
            → Relaid o m (elim r as (λ _. Umap K V) [ none ↦ m | some m' ↦ m' ])
        kept none h = Relaid-refl m v
        kept (some m') h = h

    -- a new entry behind its bucket
    pub insert-Changed :
        (m : Umap K V) (e : K × V)
        → IsValid o m
        → find o m e.0 ≡ none
        → Changed e (some e) m (record m {
          buckets = update_bucket (bk_idx o (prime m.power) e.0) (λ b. b ++ e ∷ []) m.buckets;
          items = m.items + 1;
        })
    unfolding find bucket
    insert-Changed m e v h =
        bucket-Changed m e (some e) (λ b. b ++ e ∷ []) (m.items + 1) m.tid v
          (λ idx i b at a. AllAt-append idx i b e at a)
          (λ d. Distinct-append o law (bucket m e.0) e d h)
          (λ q. find_in-append_change o law (bucket m e.0) e q h)
          (omega (arith, length-append {ℓ} (bucket m e.0) (e ∷ [])))

    pub unlink-Changed :
        (m : Umap K V) (e : K × V) (t : ℕ)
        → IsValid o m
        → find o m e.0 ≡ some e
        → Changed e none m (record m {
          buckets = update_bucket (bk_idx o (prime m.power) e.0) (unlink_in o e.0) m.buckets;
          items = m.items - 1;
          tid = t;
        })
    unfolding find bucket
    unlink-Changed m e t v h =
        bucket-Changed m e none (unlink_in o e.0) (m.items - 1) t v
          (λ idx i b at a. AllAt-unlink_in idx o i e.0 b a)
          (λ d. Distinct-unlink_in o e.0 (bucket m e.0) d)
          (λ q.
            find_in-unlink_change o law (bucket m e.0) e q
              (Tidy-at o (bk_idx o (prime m.power) e.0) m.buckets v.tidy) h)
          (omega (
            arith,
            v.counted,
            length-bucket (bk_idx o (prime m.power) e.0) m.buckets,
            length-unlink_in o e.0 (bucket m e.0) e h,
          ))

    pub set-Changed :
        (m : Umap K V) (k : K) (w : V) (e : K × V)
        → IsValid o m
        → find o m k ≡ some e
        → Changed
            (k, w)
            (some (k, w))
            m
            (record m {
              buckets = update_bucket (bk_idx o (prime m.power) k) (set_in o k w) m.buckets;
            })
    unfolding find bucket
    set-Changed m k w e v h =
        bucket-Changed m (k, w) (some (k, w)) (set_in o k w) m.items m.tid v
          (λ idx i b at a. AllAt-set_in idx o i k w b a)
          (λ d. Distinct-set_in o law k w (bucket m k) d)
          (λ q. find_in-set_change o law (bucket m k) k w e q h)
          (omega (arith, length-set_in o k w (bucket m k)))
