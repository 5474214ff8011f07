-- ===== src/Umap/Buckets.antt =====
-- Buckets of the hash map of src/map.c: what a lookup finds in lists of entries, and which entries
-- a bucket may hold.
use libhx.Ops.{MapOps}
use libhx.Prelude.{
  ℕ, zero, suc, ◌+◌, ◌<◌, ◌≤◌, ◌≡◌, ◌≢◌, refl, ap, Option, none, some, List, [], ◌∷◌, ◌++◌, length,
  length-append, get_or, replicate, arith,
}
use libhx.Umap.{update_bucket, keysvalues, find_in, unlink_in, set_in}

abbrev pub or_else {ℓ} : {A : Type ℓ} → Option A → Option A → Option A
or_else none y = y
or_else (some a) y = some a

module _ {ℓ} {A : Type ℓ} where
  pub get_or-update_bucket :
      (i : ℕ) (f : List A → List A) (bs : List (List A))
      → i < length bs
      → get_or (update_bucket i f bs) i [] ≡ f (get_or bs i [])
  unfolding update_bucket
  get_or-update_bucket i f [] l = absurd (omega arith)
  get_or-update_bucket zero f (b ∷ bs) l = refl
  get_or-update_bucket (suc i) f (b ∷ bs) l = get_or-update_bucket i f bs (omega arith)

  pub get_or-update_other :
      (i j : ℕ) (f : List A → List A) (bs : List (List A))
      → i ≢ j
      → get_or (update_bucket i f bs) j [] ≡ get_or bs j []
  unfolding update_bucket
  get_or-update_other i j f [] d = refl
  get_or-update_other zero zero f (b ∷ bs) d = absurd (d refl)
  get_or-update_other zero (suc j) f (b ∷ bs) d = refl
  get_or-update_other (suc i) zero f (b ∷ bs) d = refl
  get_or-update_other (suc i) (suc j) f (b ∷ bs) d =
      get_or-update_other i j f bs (λ e. d (ap suc e))

  pub length-update_bucket :
      (i : ℕ) (f : List A → List A) (bs : List (List A)) → length (update_bucket i f bs) ≡ length bs
  unfolding update_bucket
  length-update_bucket i f [] = refl
  length-update_bucket zero f (b ∷ bs) = refl
  length-update_bucket (suc i) f (b ∷ bs) = omega (arith, length-update_bucket i f bs)

  pub length-replicate : (n : ℕ) (a : A) → length (replicate n a) ≡ n
  length-replicate zero a = refl
  length-replicate (suc n) a = omega (arith, length-replicate n a)

module _ {ℓ} {K V : Type ℓ} where
  -- the count of all entries follows the change of one bucket
  pub length-keysvalues :
      (i : ℕ) (f : List (K × V) → List (K × V)) (bs : List (List (K × V)))
      → length (keysvalues (update_bucket i f bs)) + length (get_or bs i [])
        ≡ length (keysvalues bs) + length (get_or (update_bucket i f bs) i [])
  unfolding update_bucket keysvalues
  length-keysvalues i f [] = refl
  length-keysvalues zero f (b ∷ bs) =
      omega (arith, length-append {ℓ} (f b) (keysvalues bs), length-append {ℓ} b (keysvalues bs))
  length-keysvalues (suc i) f (b ∷ bs) = omega (
    arith,
    length-keysvalues i f bs,
    length-append {ℓ} b (keysvalues bs),
    length-append {ℓ} b (keysvalues (update_bucket i f bs)),
  )

  pub length-bucket :
      (i : ℕ) (bs : List (List (K × V))) → length (get_or bs i []) ≤ length (keysvalues bs)
  unfolding keysvalues
  length-bucket i [] = omega arith
  length-bucket zero (b ∷ bs) = omega (arith, length-append {ℓ} b (keysvalues bs))
  length-bucket (suc i) (b ∷ bs) =
      omega (arith, length-bucket i bs, length-append {ℓ} b (keysvalues bs))

module _ {ℓ} {K V : Type ℓ} (o : MapOps K V) where
  pub find_in-append :
      (a b : List (K × V)) (q : K) → find_in o (a ++ b) q ≡ or_else (find_in o a q) (find_in o b q)
  unfolding find_in
  find_in-append [] b q = refl
  find_in-append (e ∷ a) b q = ground (arith, find_in-append a b q)

  pub or_else-none : (x : Option (K × V)) → or_else x none ≡ x
  or_else-none none = refl
  or_else-none (some e) = refl

  pub or_else_assoc : (x y z : Option (K × V)) → or_else (or_else x y) z ≡ or_else x (or_else y z)
  or_else_assoc none y z = refl
  or_else_assoc (some e) y z = refl

  pub find_in-replicate : (n i : ℕ) (q : K) → find_in o (get_or (replicate n []) i []) q ≡ none
  unfolding find_in
  find_in-replicate zero i q = refl
  find_in-replicate (suc n) zero q = refl
  find_in-replicate (suc n) (suc i) q = find_in-replicate n i q

  pub length-unlink_in :
      (q : K) (b : List (K × V)) (e : K × V)
      → find_in o b q ≡ some e
      → length (unlink_in o q b) + 1 ≡ length b
  unfolding find_in unlink_in
  length-unlink_in q [] e h = cc
  length-unlink_in q (x ∷ b) e h = ground (arith, length-unlink_in q b e)

  pub length-set_in : (q : K) (v : V) (b : List (K × V)) → length (set_in o q v b) ≡ length b
  unfolding set_in
  length-set_in q v [] = refl
  length-set_in q v (x ∷ b) = ground (arith, length-set_in q v b)

  pub length-replicate-keysvalues :
      (n : ℕ) → length (keysvalues {K = K} {V = V} (replicate n [])) ≡ 0
  unfolding keysvalues
  length-replicate-keysvalues zero = refl
  length-replicate-keysvalues (suc n) = length-replicate-keysvalues n
