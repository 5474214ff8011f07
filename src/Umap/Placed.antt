-- ===== src/Umap/Placed.antt =====
-- Entries in the right bucket of the hash map of src/map.c, and keys that occur once in a bucket.
use libhx.Ops.{MapOps, IsLawful}
use libhx.Prelude.{
  ℕ, zero, suc, ◌+◌, ◌<◌, ◌≡◌, ◌≢◌, refl, ap, ◌∙◌, subst, true, false, inl, inr, Bool-cases,
  if_both, none, List, [], ◌∷◌, ◌++◌, get_or, replicate, arith,
}
use libhx.Umap.Buckets.{or_else, or_else-none, find_in-append}
use libhx.Umap.{update_bucket, keysvalues, is_at, find_in, unlink_in, set_in}

module _ {ℓ} {K V : Type ℓ} (idx : K → ℕ) where
  -- all entries have this index
  abbrev pub AllAt : ℕ → List (K × V) → Type 0
  AllAt i [] = Unit
  AllAt i (e ∷ b) = (idx e.0 ≡ i) × AllAt i b

  -- each entry has the index of its bucket; the first bucket is number `i`
  abbrev pub Placed : ℕ → List (List (K × V)) → Type 0
  Placed i [] = Unit
  Placed i (b ∷ bs) = AllAt i b × Placed (suc i) bs

  pub Placed-update :
      (i j : ℕ) (f : List (K × V) → List (K × V)) (bs : List (List (K × V)))
      → ((b : List (K × V)) → AllAt (i + j) b → AllAt (i + j) (f b))
      → Placed i bs
      → Placed i (update_bucket j f bs)
  unfolding update_bucket
  Placed-update i j f [] g p = tt
  Placed-update i zero f (b ∷ bs) g (p, q) =
      (subst (λ n. AllAt n (f b)) (omega arith) (g b (subst (λ n. AllAt n b) (omega arith) p)), q)
  Placed-update i (suc j) f (b ∷ bs) g (p, q) = (
    p,
    Placed-update (suc i) j f bs
        (λ c a.
          subst (λ n. AllAt n (f c)) (omega arith) (g c (subst (λ n. AllAt n c) (omega arith) a)))
        q,
  )

  pub AllAt-append :
      (i : ℕ) (b : List (K × V)) (e : K × V) → idx e.0 ≡ i → AllAt i b → AllAt i (b ++ e ∷ [])
  AllAt-append i [] e h p = (h, tt)
  AllAt-append i (x ∷ b) e h (p, q) = (p, AllAt-append i b e h q)

  pub AllAt-unlink_in :
      (o : MapOps K V) (i : ℕ) (k : K) (b : List (K × V)) → AllAt i b → AllAt i (unlink_in o k b)
  unfolding unlink_in
  AllAt-unlink_in o i k [] p = tt
  AllAt-unlink_in o i k (x ∷ b) (p, q) =
      if_both (AllAt i) (is_at o k x) (λ h. q) (λ h. (p, AllAt-unlink_in o i k b q))

  pub AllAt-set_in :
      (o : MapOps K V) (i : ℕ) (k : K) (v : V) (b : List (K × V))
      → AllAt i b
      → AllAt i (set_in o k v b)
  unfolding set_in
  AllAt-set_in o i k v [] p = tt
  AllAt-set_in o i k v (x ∷ b) (p, q) =
      if_both (AllAt i) (is_at o k x) (λ h. (p, q)) (λ h. (p, AllAt-set_in o i k v b q))

pub Placed-replicate {ℓ} :
    {K : Type ℓ} (V : Type ℓ) (idx : K → ℕ) (i n : ℕ) → Placed {V = V} idx i (replicate n [])
Placed-replicate V idx i zero = tt
Placed-replicate V idx i (suc n) = (tt, Placed-replicate V idx (suc i) n)

module _ {ℓ} {K V : Type ℓ} (o : MapOps K V) where
  -- no key occurs twice
  abbrev pub Distinct : List (K × V) → Type ℓ
  Distinct [] = Unit
  Distinct (e ∷ b) = (find_in o b e.0 ≡ none) × Distinct b

  abbrev pub Tidy : List (List (K × V)) → Type ℓ
  Tidy [] = Unit
  Tidy (b ∷ bs) = Distinct b × Tidy bs

  pub Tidy-update :
      (j : ℕ) (f : List (K × V) → List (K × V)) (bs : List (List (K × V)))
      → (Distinct (get_or bs j []) → Distinct (f (get_or bs j [])))
      → Tidy bs
      → Tidy (update_bucket j f bs)
  unfolding update_bucket
  Tidy-update j f [] g t = tt
  Tidy-update zero f (b ∷ bs) g (t, u) = (g t, u)
  Tidy-update (suc j) f (b ∷ bs) g (t, u) = (t, Tidy-update j f bs g u)

  pub Tidy-at : (j : ℕ) (bs : List (List (K × V))) → Tidy bs → Distinct (get_or bs j [])
  Tidy-at j [] t = tt
  Tidy-at zero (b ∷ bs) (t, u) = t
  Tidy-at (suc j) (b ∷ bs) (t, u) = Tidy-at j bs u

  pub Tidy-replicate : (n : ℕ) → Tidy (replicate n [])
  Tidy-replicate zero = tt
  Tidy-replicate (suc n) = (tt, Tidy-replicate n)

  module _ (law : IsLawful o) where
    pub is_at_refl : (e : K × V) → is_at o e.0 e ≡ true
    unfolding is_at
    is_at_refl e = rw (is_at, law.compare_refl e.0)

    pub is_at-key : (k : K) (e : K × V) → is_at o k e ≡ true → k ≡ e.0
    unfolding is_at
    is_at-key k e h = ground (arith, law.eq_of_compare k e.0)

    -- a key is not found where its bucket is another
    pub find_in-AllAt :
        (idx : K → ℕ) (i : ℕ) (b : List (K × V)) (q : K)
        → AllAt idx i b
        → idx q ≢ i
        → find_in o b q ≡ none
    unfolding find_in
    find_in-AllAt idx i [] q a d = refl
    find_in-AllAt idx i (e ∷ b) q (p, a) d = elim (Bool-cases (is_at o q e)) [
      | inl h ↦ absurd (d (ap idx (is_at-key q e h) ∙ p))
      | inr h ↦ rw h (find_in-AllAt idx i b q a d)
    ]

    -- in placed buckets, only the bucket of the key matters
    pub find_in-Placed_below :
        (idx : K → ℕ) (i : ℕ) (bs : List (List (K × V))) (q : K)
        → Placed idx i bs
        → idx q < i
        → find_in o (keysvalues bs) q ≡ none
    unfolding keysvalues find_in
    find_in-Placed_below idx i [] q p l = refl
    find_in-Placed_below idx i (b ∷ bs) q (a, p) l =
        find_in-append o b (keysvalues bs) q
        ∙ rw (find_in-AllAt idx i b q a (λ e. omega arith))
            (find_in-Placed_below idx (suc i) bs q p (omega arith))

    pub find_in-Placed :
        (idx : K → ℕ) (i j : ℕ) (bs : List (List (K × V))) (q : K)
        → Placed idx i bs
        → idx q ≡ i + j
        → find_in o (keysvalues bs) q ≡ find_in o (get_or bs j []) q
    unfolding keysvalues
    find_in-Placed idx i j [] q p e = refl
    find_in-Placed idx i zero (b ∷ bs) q (a, p) e =
        find_in-append o b (keysvalues bs) q
        ∙ ap (or_else (find_in o b q)) (find_in-Placed_below idx (suc i) bs q p (omega arith))
        ∙ or_else-none o (find_in o b q)
    find_in-Placed idx i (suc j) (b ∷ bs) q (a, p) e =
        find_in-append o b (keysvalues bs) q
        ∙ ap (λ x. or_else x (find_in o (keysvalues bs) q))
            (find_in-AllAt idx i b q a (λ e'. omega arith))
        ∙ find_in-Placed idx (suc i) j bs q p (omega arith)

    -- a key that is not found is not the key of an entry
    pub is_at-none :
        (x e : K × V) (b : List (K × V)) → find_in o (x ∷ b) e.0 ≡ none → is_at o x.0 e ≡ false
    unfolding find_in
    is_at-none x e b h = elim (Bool-cases (is_at o x.0 e)) [
      | inl t ↦
          let found : is_at o e.0 x ≡ true =
            subst (λ k. is_at o k x ≡ true) (is_at-key x.0 e t) (is_at_refl x) in
          ground arith
      | inr f ↦ f
    ]

    pub Distinct-append :
        (b : List (K × V)) (e : K × V)
        → Distinct b
        → find_in o b e.0 ≡ none
        → Distinct (b ++ e ∷ [])
    unfolding find_in
    Distinct-append [] e d h = (refl, tt)
    Distinct-append (x ∷ b) e (h', d) h = (
      find_in-append o b (e ∷ []) x.0 ∙ rw (h', is_at-none x e b h),
      Distinct-append b e d (ground arith),
    )

    Distinct-bucket :
        (idx : K → ℕ) (i : ℕ) (a : List (K × V)) (bs : List (List (K × V)))
        → AllAt idx i a
        → Distinct a
        → Placed idx (suc i) bs
        → Distinct (keysvalues bs)
        → Distinct (a ++ keysvalues bs)
    Distinct-bucket idx i [] bs p d q k = k
    Distinct-bucket idx i (e ∷ a) bs (at, p) (h, d) q k = (
      find_in-append o a (keysvalues bs) e.0
          ∙ rw (h, find_in-Placed_below idx (suc i) bs e.0 q (omega arith)),
      Distinct-bucket idx i a bs p d q k,
    )

    -- no key occurs twice in the map
    pub Distinct-keysvalues :
        (idx : K → ℕ) (i : ℕ) (bs : List (List (K × V)))
        → Placed idx i bs
        → Tidy bs
        → Distinct (keysvalues bs)
    unfolding keysvalues
    Distinct-keysvalues idx i [] p t = tt
    Distinct-keysvalues idx i (b ∷ bs) (a, p) (d, t) =
        Distinct-bucket idx i b bs a d p (Distinct-keysvalues idx (suc i) bs p t)
