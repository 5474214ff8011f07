-- ===== src/Umap/Traverse/Visit.antt =====
-- HXumap_traverse of src/map.c against the entries in the order of HXumap_keysvalues.
use libhx.Prelude.{
  ℕ, zero, suc, ◌+◌, ◌<◌, ◌≤◌, ◌≡◌, ◌≢◌, refl, ap, sym, ◌∙◌, subst, Bool, true, false, not, inl,
  inr, Bool-cases, some, List, [], ◌∷◌, ◌++◌, length, get_or, get_elem?, drop, if◌then◌else◌, ltb,
  leb, ◌==◌, arith,
}
use libhx.Umap.Traverse.{
  link, Trav, Found, no_entry, entry, trav_init, is_list_head, bucket_at, next_in, entry_in,
  entry_at, skip, buckets_behind, traverse, visit,
}
use libhx.Umap.{Umap, prime, keysvalues}

drop-get_elem? {ℓ} :
    {A : Type ℓ} (i : ℕ) (xs : List A)
    → i < length xs
    → (x : A) × (get_elem? xs i ≡ some x) × (drop i xs ≡ x ∷ drop (suc i) xs)
drop-get_elem? i [] h = absurd (omega arith)
drop-get_elem? zero (x ∷ xs) h = (x, refl, refl)
drop-get_elem? (suc i) (x ∷ xs) h = drop-get_elem? i xs (omega arith)

drop-end {ℓ} : {A : Type ℓ} (i : ℕ) (xs : List A) → length xs ≤ i → drop i xs ≡ []
drop-end zero [] h = refl
drop-end zero (x ∷ xs) h = absurd (omega arith)
drop-end (suc i) [] h = refl
drop-end (suc i) (x ∷ xs) h = drop-end i xs (omega arith)

if_true {ℓ} : {A : Type ℓ} {c : Bool} {x : A} (y : A) → c ≡ true → (if c then x else y) ≡ x
if_true y e = rw e

if_false {ℓ} : {A : Type ℓ} {c : Bool} (x : A) {y : A} → c ≡ false → (if c then x else y) ≡ y
if_false x e = rw e

list_head : (t : Trav) → t.head ≡ link t.bk_current 0 → is_list_head t.head t.bk_current ≡ true
list_head t h = ap (λ x. is_list_head x t.bk_current) h ∙ ground arith

inner :
    (t : Trav) (i : ℕ)
    → t.head ≡ link t.bk_current (suc i)
    → is_list_head t.head t.bk_current ≡ false
inner t i h = ap (λ x. is_list_head x t.bk_current) h

module _ {ℓ} {K V : Type ℓ} where
  keysvalues-drop :
      (b : ℕ) (bs : List (List (K × V)))
      → keysvalues (drop b bs) ≡ get_or bs b [] ++ keysvalues (drop (suc b) bs)
  unfolding keysvalues
  keysvalues-drop zero [] = refl
  keysvalues-drop (suc b) [] = refl
  keysvalues-drop zero (x ∷ bs) = refl
  keysvalues-drop (suc b) (x ∷ bs) = keysvalues-drop b bs

  -- the entries from a position on, and in the buckets behind it
  abbrev pub from : Umap K V → ℕ → ℕ → List (K × V)
  from m b zero = keysvalues (drop (suc b) m.buckets)
  from m b (suc i) = drop i (bucket_at m b) ++ keysvalues (drop (suc b) m.buckets)

  from-next_in :
      (m : Umap K V) (b p : ℕ)
      → from m b (next_in (bucket_at m b) p)
        ≡ drop p (bucket_at m b) ++ keysvalues (drop (suc b) m.buckets)
  unfolding next_in
  from-next_in m b p = elim (Bool-cases (ltb p (length (bucket_at m b)))) [
    | inl t ↦ rw t refl
    | inr f ↦ rw (f, drop-end p (bucket_at m b) (ground arith)) refl
  ]

  -- The call returned the first of some entries and left the traverser at it; or there are none, and
  -- it returned NULL.
  pub data Stands (m : Umap K V) : List (K × V) → Found K V × Trav → Type ℓ where
    ended : (t : Trav) → Stands m [] (no_entry, t)
    stands :
        (e : K × V) (es : List (K × V)) (t : Trav) (i : ℕ)
        → t.head ≡ link t.bk_current (suc i)
        → t.tid ≡ m.tid
        → t.bk_current < length m.buckets
        → drop (suc i) (bucket_at m t.bk_current) ++ keysvalues (drop (suc t.bk_current) m.buckets)
          ≡ es
        → Stands m (e ∷ es) (entry e, t)

  -- a position in a bucket that there is
  Fits : Umap K V → Trav → ℕ → Type 0
  Fits m t p =
      (t.head ≡ link t.bk_current p)
      × (t.tid ≡ m.tid)
      × (t.bk_current < length m.buckets)
      × (p ≤ length (bucket_at m t.bk_current))

  here-Stands :
      (m : Umap K V) (t : Trav) (i : ℕ)
      → Fits m t (suc i)
      → Stands m (from m t.bk_current (suc i)) (entry_at m t.head, t)
  unfolding entry_at Fits
  here-Stands m t i (h, tid, b, p) =
      let (e, found, split) = drop-get_elem? i (bucket_at m t.bk_current) (omega arith) in
      subst (λ r. Stands m r (entry_at m t.head, t))
        (ap (λ y. y ++ keysvalues (drop (suc t.bk_current) m.buckets)) (sym split))
        (subst
          (λ r.
            Stands m
              (e
                ∷ (drop (suc i) (bucket_at m t.bk_current)
                    ++ keysvalues (drop (suc t.bk_current) m.buckets)))
              (r, t))
          (sym (ap (entry_at m) h ∙ ap entry_in found)) (stands e _ t i h tid b refl))

  -- what such a call returns
  abbrev first_of : List (K × V) → Found K V
  first_of [] = no_entry
  first_of (e ∷ es) = entry e

  returned :
      (m : Umap K V) (t : Trav) (es : List (K × V))
      → Stands m es (traverse m t)
      → (traverse m t).0 ≡ first_of es
  returned m t es h = go es (traverse m t) h
    where
      go : (n : List (K × V)) (r : Found K V × Trav) → Stands m n r → r.0 ≡ first_of n
      go n r (ended t') = refl
      go n r (stands e es' t' i h tid b rest) = refl

  next_in-le : (b : List (K × V)) (p : ℕ) → next_in b p ≤ length b
  unfolding next_in
  next_in-le b p = ground arith

  skip-Stands :
      (m : Umap K V) (n : ℕ) (t : Trav) (p : ℕ)
      → Fits m t p
      → n + suc t.bk_current ≡ length m.buckets
      → Stands m (from m t.bk_current p) (skip m n t)
  unfolding skip Fits keysvalues
  skip-Stands m zero t zero (h, tid, b, q) e =
      rw (drop-end (suc t.bk_current) m.buckets (omega (arith, e)))
        (subst (Stands m []) (sym (if_true _ (list_head t h))) (ended _))
  skip-Stands m zero t (suc i) (h, tid, b, q) e =
      subst (Stands m (from m t.bk_current (suc i))) (sym (if_false _ (inner t i h)))
        (here-Stands m t i (h, tid, b, q))
  skip-Stands m (suc n) t zero (h, tid, b, q) e =
      let c = suc t.bk_current in
      let next = next_in (bucket_at m c) 0 in
      let t' : Trav = record t { bk_current = c; head = link c next } in
      subst (Stands m (from m t.bk_current zero)) (sym (if_true _ (list_head t h))) (
        subst (λ r. Stands m r (skip m n t'))
          (from-next_in m c 0 ∙ sym (keysvalues-drop c m.buckets))
          (skip-Stands m n t' next (refl, tid, omega (arith, e), next_in-le (bucket_at m c) 0)
            (omega (arith, e))))
  skip-Stands m (suc n) t (suc i) (h, tid, b, q) e =
      subst (Stands m (from m t.bk_current (suc i))) (sym (if_false _ (inner t i h)))
        (here-Stands m t i (h, tid, b, q))

  -- A call on a traverser that has just been made returns the first entry.
  pub traverse-first :
      (m : Umap K V) (flags : ℕ)
      → length m.buckets ≡ prime m.power
      → 0 < length m.buckets
      → Stands m (keysvalues m.buckets) (traverse m (trav_init m flags))
  unfolding traverse trav_init Fits
  traverse-first m flags e some_bucket =
      let next = next_in (bucket_at m 0) 0 in
      let t : Trav = record (trav_init m flags) { head = link 0 next } in
      subst (λ r. Stands m r (skip m (buckets_behind m 0) t))
        (from-next_in m 0 0 ∙ sym (keysvalues-drop 0 m.buckets))
        (skip-Stands m (buckets_behind m 0) t next
          (refl, refl, some_bucket, next_in-le (bucket_at m 0) 0) (omega (arith, e)))

  -- A call with the transaction ID unchanged returns the entry that follows.
  traverse-next :
      (m : Umap K V) (e : K × V) (es : List (K × V)) (r : Found K V × Trav)
      → length m.buckets ≡ prime m.power
      → Stands m (e ∷ es) r
      → Stands m es (traverse m r.1)
  unfolding traverse Fits
  traverse-next m e es (found, t) size (stands e' es' t' i h tid b rest) =
      let c = t.bk_current in
      let next = next_in (bucket_at m c) (suc i) in
      let t' : Trav = record t { head = link c next } in
      subst (λ x. Stands m es x) (sym (go t i h tid))
        (subst (λ x. Stands m x (skip m (buckets_behind m c) t')) (from-next_in m c (suc i) ∙ rest)
          (skip-Stands m (buckets_behind m c) t' next
            (refl, tid, b, next_in-le (bucket_at m c) (suc i)) (omega (arith, b, size))))
    where
      go :
          (s : Trav) (j : ℕ)
          → s.head ≡ link s.bk_current (suc j)
          → s.tid ≡ m.tid
          → traverse m s
            ≡ skip m
                (buckets_behind m s.bk_current)
                (record s { head = link s.bk_current (next_in (bucket_at m s.bk_current) (suc j)) })
      go s j hd td =
          let same : not (s.tid == m.tid) ≡ false = ground arith in
          rw (hd, traverse) (if_false _ same)

  -- A call after the transaction ID has changed, if the table still has the current bucket, returns
  -- the first entry of the buckets behind that one.
  pub traverse-changed :
      (m : Umap K V) (t : Trav) (c p : ℕ)
      → length m.buckets ≡ prime m.power
      → t.head ≡ link c p
      → t.tid ≢ m.tid
      → t.bk_current < length m.buckets
      → Stands m (keysvalues (drop (suc t.bk_current) m.buckets)) (traverse m t)
  unfolding traverse Fits
  traverse-changed m t c p size h changed b =
      let t' : Trav = record t { head = link t.bk_current 0; tid = m.tid } in
      let differs : not (t.tid == m.tid) ≡ true = ground arith in
      let inside : leb (prime m.power) t.bk_current ≡ false = ground (arith, b, size) in
      rw (h, traverse)
        (subst (Stands m (keysvalues (drop (suc t.bk_current) m.buckets)))
          (sym (if_true _ differs ∙ if_false _ inside))
          (skip-Stands m (buckets_behind m t.bk_current) t' 0 (refl, refl, b, omega arith)
            (omega (arith, b, size))))

  visit-Stands :
      (m : Umap K V) (t : Trav) (es : List (K × V))
      → length m.buckets ≡ prime m.power
      → Stands m es (traverse m t)
      → visit (suc (length es)) m t ≡ some es
  unfolding visit
  visit-Stands m t [] size h = rw (returned m t [] h, visit)
  visit-Stands m t (e ∷ es) size h =
      let rest =
        visit-Stands m (traverse m t).1 es size (traverse-next m e es (traverse m t) size h) in
      rw (returned m t (e ∷ es) h, rest, visit)

  -- A loop that calls HXumap_traverse on a new traverser until it returns NULL ends after one call
  -- more than the map has entries, and has then seen every entry once, in the order of
  -- HXumap_keysvalues. The map is not changed meanwhile, and its table has the size of its power.
  pub visit-buckets :
      (m : Umap K V) (flags : ℕ)
      → length m.buckets ≡ prime m.power
      → 0 < length m.buckets
      → visit (suc (length (keysvalues m.buckets))) m (trav_init m flags)
        ≡ some (keysvalues m.buckets)
  visit-buckets m flags size b =
      visit-Stands m (trav_init m flags) (keysvalues m.buckets) size (traverse-first m flags size b)
