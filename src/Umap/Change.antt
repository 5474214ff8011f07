-- ===== src/Umap/Change.antt =====
-- The changes that HXumap_add and HXumap_del of src/map.c make in one bucket, and what lookups find
-- after them.
use mathlib.Core.Option.{some-injective}
use libhx.Ops.{MapOps, IsLawful}
use libhx.Prelude.{
  ℕ, ◌<◌, ◌≡◌, ◌≢◌, refl, ap, sym, ◌∙◌, subst, true, false, inl, inr, Bool-cases, if_both,
  if◌then◌else◌, Option, none, some, List, [], ◌∷◌, ◌++◌, length, get_or, ◌==◌, arith,
}
use libhx.Umap.Buckets.{or_else-none, find_in-append, get_or-update_bucket, get_or-update_other}
use libhx.Umap.Placed.{Distinct, is_at_refl, is_at-key}
use libhx.Umap.{update_bucket, is_at, find_in, unlink_in, set_in}

module _ {ℓ} {K V : Type ℓ} (o : MapOps K V) where
  -- a view of a map, changed at the key of an entry
  unfoldable pub change : K × V → Option (K × V) → (K → Option (K × V)) → K → Option (K × V)
  change e new view q = if is_at o q e then new else view q

  -- keys that are not there stay away
  find_in-unlink_none :
      (k q : K) (b : List (K × V)) → find_in o b q ≡ none → find_in o (unlink_in o k b) q ≡ none
  unfolding find_in unlink_in
  find_in-unlink_none k q [] h = refl
  find_in-unlink_none k q (x ∷ b) h = ground (arith, find_in-unlink_none k q b)

  pub Distinct-unlink_in : (k : K) (b : List (K × V)) → Distinct o b → Distinct o (unlink_in o k b)
  unfolding unlink_in
  Distinct-unlink_in k [] d = tt
  Distinct-unlink_in k (x ∷ b) (h, d) =
      if_both (Distinct o) (is_at o k x) (λ t. d)
        (λ f. (find_in-unlink_none k x.0 b h, Distinct-unlink_in k b d))

  module _ (law : IsLawful o) where
    is_at-same : (q : K) (k : K) (v w : V) → is_at o q (k, v) ≡ is_at o q (k, w)
    unfolding is_at
    is_at-same q k v w = refl

    is_at-flip : (x e : K × V) → is_at o e.0 x ≡ false → is_at o x.0 e ≡ false
    is_at-flip x e f = elim (Bool-cases (is_at o x.0 e)) [
      | inl t ↦
          let back : is_at o e.0 x ≡ true =
            subst (λ k. is_at o k x ≡ true) (is_at-key o law x.0 e t) (is_at_refl o law x) in
          cc
      | inr f' ↦ f'
    ]

    is_at-via : (q : K) (x e : K × V) → is_at o q x ≡ true → is_at o q e ≡ is_at o x.0 e
    is_at-via q x e t = ap (λ k. is_at o k e) (is_at-key o law q x t)

    is_at-apart : (idx : K → ℕ) (q : K) (e : K × V) → idx e.0 ≢ idx q → is_at o q e ≡ false
    is_at-apart idx q e d = elim (Bool-cases (is_at o q e)) [
      | inl t ↦ absurd (d (sym (ap idx (is_at-key o law q e t))))
      | inr f ↦ f
    ]

    pub is_at-other : (q : K) (e : K × V) → q ≢ e.0 → is_at o q e ≡ false
    is_at-other q e d = elim (Bool-cases (is_at o q e)) [
      | inl t ↦ absurd (d (is_at-key o law q e t))
      | inr f ↦ f
    ]

    -- what is found has the key
    pub find_in-key : (b : List (K × V)) (q : K) (e : K × V) → find_in o b q ≡ some e → q ≡ e.0
    unfolding find_in
    find_in-key [] q e h = cc
    find_in-key (x ∷ b) q e h = elim (Bool-cases (is_at o q x)) [
      | inl t ↦ is_at-key o law q x t ∙ ap (λ y. y.0) (some-injective x e (ground arith))
      | inr f ↦ find_in-key b q e (ground arith)
    ]

    find_in-set_none :
        (k q : K) (v : V) (b : List (K × V))
        → find_in o b q ≡ none
        → find_in o (set_in o k v b) q ≡ none
    unfolding find_in set_in
    find_in-set_none k q v [] h = refl
    find_in-set_none k q v (x ∷ b) h =
        ground (arith, find_in-set_none k q v b, is_at-same q x.0 x.1 v)

    pub Distinct-set_in :
        (k : K) (v : V) (b : List (K × V)) → Distinct o b → Distinct o (set_in o k v b)
    unfolding set_in
    Distinct-set_in k v [] d = tt
    Distinct-set_in k v (x ∷ b) (h, d) =
        if_both (Distinct o) (is_at o k x) (λ t. (h, d))
          (λ f. (find_in-set_none k x.0 v b h, Distinct-set_in k v b d))

    -- an entry behind the others
    pub find_in-append_change :
        (b : List (K × V)) (e : K × V) (q : K)
        → find_in o b e.0 ≡ none
        → find_in o (b ++ e ∷ []) q ≡ change e (some e) (find_in o b) q
    unfolding find_in change
    find_in-append_change b e q h = elim (Bool-cases (is_at o q e)) [
      | inl t ↦
          let gone : find_in o b q ≡ none =
            subst (λ k. find_in o b k ≡ none) (sym (is_at-key o law q e t)) h in
          find_in-append o b (e ∷ []) q ∙ rw (gone, t)
      | inr f ↦ find_in-append o b (e ∷ []) q ∙ rw f (or_else-none o _)
    ]

    -- the entry of a key taken out
    pub find_in-unlink_change :
        (b : List (K × V)) (e : K × V) (q : K)
        → Distinct o b
        → find_in o b e.0 ≡ some e
        → find_in o (unlink_in o e.0 b) q ≡ change e none (find_in o b) q
    unfolding find_in unlink_in change
    find_in-unlink_change [] e q d h = cc
    find_in-unlink_change (x ∷ b) e q (x_new, d) h = elim (Bool-cases (is_at o e.0 x)) [
      | inl t ↦
          let at : x ≡ e = some-injective x e (ground arith) in
          rw t (elim (Bool-cases (is_at o q e)) [
            | inl u ↦
                let gone : find_in o b q ≡ none =
                  subst (λ k. find_in o b k ≡ none) (ap (λ y. y.0) at ∙ sym (is_at-key o law q e u))
                    x_new in
                ground arith
            | inr f ↦ rw (at, f)
          ])
      | inr f ↦ rw f (elim (Bool-cases (is_at o q x)) [
        | inl u ↦ rw (u, is_at-via q x e u, is_at-flip x e f)
        | inr g ↦ rw g (find_in-unlink_change b e q d (ground arith))
      ])
    ]

    -- the datum of a key replaced
    pub find_in-set_change :
        (b : List (K × V)) (k : K) (v : V) (e : K × V) (q : K)
        → find_in o b k ≡ some e
        → find_in o (set_in o k v b) q ≡ change (k, v) (some (k, v)) (find_in o b) q
    unfolding find_in set_in change
    find_in-set_change [] k v e q h = cc
    find_in-set_change (x ∷ b) k v e q h = elim (Bool-cases (is_at o k x)) [
      | inl t ↦ rw t (
          subst
            (λ y. (if is_at o q (y, v) then some (y, v) else find_in o b q) ≡ (
              if is_at o q (k, v)
              then some (k, v)
              else if is_at o q (y, x.1)
              then some (y, x.1)
              else find_in o b q))
            (is_at-key o law k x t) (ground (arith, is_at-same q k x.1 v)))
      | inr f ↦ rw f (elim (Bool-cases (is_at o q x)) [
        | inl u ↦ rw (u, is_at-via q x (k, v) u, is_at-flip x (k, v) f)
        | inr g ↦ rw g (find_in-set_change b k v e q (ground arith))
      ])
    ]

    -- a change of one bucket is that change of the map
    pub update_bucket-change :
        (idx : K → ℕ) (e : K × V) (new : Option (K × V)) (f : List (K × V) → List (K × V))
        (bs : List (List (K × V))) (q : K)
        → idx e.0 < length bs
        → (find_in o (f (get_or bs (idx e.0) [])) q
            ≡ change e new (find_in o (get_or bs (idx e.0) [])) q)
        → find_in o (get_or (update_bucket (idx e.0) f bs) (idx q) []) q
          ≡ change e new (λ k. find_in o (get_or bs (idx k) []) k) q
    unfolding change
    update_bucket-change idx e new f bs q l h = elim (Bool-cases (idx e.0 == idx q)) [
      | inl t ↦
          let at : idx e.0 ≡ idx q = ground arith in
          ap (λ j. find_in o (get_or (update_bucket (idx e.0) f bs) j []) q) (sym at)
          ∙ ap (λ b. find_in o b q) (get_or-update_bucket (idx e.0) f bs l)
          ∙ h
          ∙ ap (λ j. if is_at o q e then new else find_in o (get_or bs j []) q) at
      | inr f' ↦
          let apart : idx e.0 ≢ idx q = (λ same. ground arith) in
          ap (λ b. find_in o b q) (get_or-update_other (idx e.0) (idx q) f bs apart)
          ∙ ap (λ c. if c then new else find_in o (get_or bs (idx q) []) q)
              (sym (is_at-apart idx q e apart))
    ]
