-- ===== src/Umap/Rehash.antt =====
-- HXumap_move of src/map.c: moving the entries to other buckets loses and doubles none.
use libhx.Ops.{MapOps, IsLawful}
use libhx.Prelude.{
  ℕ, ◌+◌, ◌<◌, ◌≡◌, ◌≢◌, refl, ap, sym, ◌∙◌, subst, inl, inr, Bool-cases, none, List, [], ◌∷◌, ◌++◌,
  length, length-append, get_or, replicate, ◌==◌, arith,
}
use libhx.Umap.Buckets.{
  or_else, or_else-none, or_else_assoc, find_in-append, get_or-update_bucket, get_or-update_other,
  length-update_bucket, length-keysvalues, find_in-replicate,
}
use libhx.Umap.Placed.{
  Placed, Placed-update, AllAt-append, Distinct, Tidy, Tidy-update, is_at-none, Distinct-append,
  find_in-AllAt,
}
use libhx.Umap.{update_bucket, keysvalues, find_in, add_tail, move_bucket, move}

module _ {ℓ} {K V : Type ℓ} (o : MapOps K V) (idx : K → ℕ) where
  move_bucket-append :
      (bs : List (List (K × V))) (a b : List (K × V))
      → move_bucket o idx (move_bucket o idx bs a) b ≡ move_bucket o idx bs (a ++ b)
  unfolding move_bucket
  move_bucket-append bs [] b = refl
  move_bucket-append bs (e ∷ a) b = move_bucket-append (add_tail o idx bs e) a b

  -- moving buckets is moving all their entries
  pub move-keysvalues :
      (bs old : List (List (K × V))) → move o idx bs old ≡ move_bucket o idx bs (keysvalues old)
  unfolding move keysvalues move_bucket
  move-keysvalues bs [] = refl
  move-keysvalues bs (b ∷ old) =
      move-keysvalues (move_bucket o idx bs b) old ∙ move_bucket-append bs b (keysvalues old)

  -- each key is not in the buckets yet
  abbrev pub AllNew : List (List (K × V)) → List (K × V) → Type ℓ
  AllNew bs [] = Unit
  AllNew bs (e ∷ es) = (find_in o (get_or bs (idx e.0) []) e.0 ≡ none) × AllNew bs es

  module _ (law : IsLawful o) (n : ℕ) (bounded : (k : K) → idx k < n) where
    -- a lookup after one more entry
    find_in-add_tail :
        (bs : List (List (K × V))) (e : K × V) (q : K)
        → length bs ≡ n
        → find_in o (get_or (add_tail o idx bs e) (idx q) []) q
          ≡ or_else (find_in o (get_or bs (idx q) []) q) (find_in o (e ∷ []) q)
    unfolding add_tail
    find_in-add_tail bs e q l = elim (Bool-cases (idx e.0 == idx q)) [
      | inl h ↦
          let at : idx e.0 ≡ idx q = ground arith in
          ap (λ j. find_in o (get_or (update_bucket (idx e.0) (λ b. b ++ e ∷ []) bs) j []) q)
            (sym at)
          ∙ ap (λ b. find_in o b q)
              (get_or-update_bucket (idx e.0) _ bs (subst (λ m. idx e.0 < m) (sym l) (bounded e.0)))
          ∙ find_in-append o (get_or bs (idx e.0) []) (e ∷ []) q
          ∙ ap (λ j. or_else (find_in o (get_or bs j []) q) (find_in o (e ∷ []) q)) at
      | inr h ↦
          let apart : idx e.0 ≢ idx q = (λ same. ground arith) in
          ap (λ b. find_in o b q) (get_or-update_other (idx e.0) (idx q) _ bs apart)
          ∙ sym (or_else-none o _)
          ∙ ap (or_else (find_in o (get_or bs (idx q) []) q)) (
              sym (
                find_in-AllAt o law idx (idx e.0) (e ∷ []) q (refl, tt) (λ same. apart (sym same))))
    ]

    length-add_tail :
        (bs : List (List (K × V))) (e : K × V) → length (add_tail o idx bs e) ≡ length bs
    unfolding add_tail
    length-add_tail bs e = length-update_bucket (idx e.0) (λ b. b ++ e ∷ []) bs

    -- a lookup after a move finds the new entries behind the old ones
    pub find_in-move_bucket :
        (bs : List (List (K × V))) (es : List (K × V)) (q : K)
        → length bs ≡ n
        → find_in o (get_or (move_bucket o idx bs es) (idx q) []) q
          ≡ or_else (find_in o (get_or bs (idx q) []) q) (find_in o es q)
    unfolding move_bucket find_in
    find_in-move_bucket bs [] q l = sym (or_else-none o _)
    find_in-move_bucket bs (e ∷ es) q l =
        find_in-move_bucket (add_tail o idx bs e) es q (length-add_tail bs e ∙ l)
        ∙ ap (λ x. or_else x (find_in o es q)) (find_in-add_tail bs e q l)
        ∙ or_else_assoc o _ (find_in o (e ∷ []) q) (find_in o es q)
        ∙ ap (or_else (find_in o (get_or bs (idx q) []) q)) (sym (find_in-append o (e ∷ []) es q))

    pub length-move_bucket :
        (bs : List (List (K × V))) (es : List (K × V))
        → length (move_bucket o idx bs es) ≡ length bs
    unfolding move_bucket
    length-move_bucket bs [] = refl
    length-move_bucket bs (e ∷ es) =
        length-move_bucket (add_tail o idx bs e) es ∙ length-add_tail bs e

    -- the entries of the move and those that were there
    pub length-keysvalues_move :
        (bs : List (List (K × V))) (es : List (K × V))
        → length bs ≡ n
        → length (keysvalues (move_bucket o idx bs es)) ≡ length (keysvalues bs) + length es
    unfolding move_bucket add_tail
    length-keysvalues_move bs [] l = omega arith
    length-keysvalues_move bs (e ∷ es) l =
        let one =
          length-keysvalues (idx e.0) (λ b. b ++ e ∷ []) bs
          ∙ ap (λ b. length (keysvalues bs) + length b)
              (get_or-update_bucket (idx e.0) (λ b. b ++ e ∷ []) bs
                (subst (λ m. idx e.0 < m) (sym l) (bounded e.0))) in
        omega (
          arith,
          one,
          length-append {ℓ} (get_or bs (idx e.0) []) (e ∷ []),
          length-keysvalues_move (add_tail o idx bs e) es (length-add_tail bs e ∙ l),
        )

    pub Placed-move_bucket :
        (bs : List (List (K × V))) (es : List (K × V))
        → Placed idx 0 bs
        → Placed idx 0 (move_bucket o idx bs es)
    unfolding move_bucket add_tail
    Placed-move_bucket bs [] p = p
    Placed-move_bucket bs (e ∷ es) p = Placed-move_bucket (add_tail o idx bs e) es (
        Placed-update idx 0 (idx e.0) _ bs
          (λ b a. AllAt-append idx (0 + idx e.0) b e (omega arith) a) p)

    Tidy-add_tail :
        (bs : List (List (K × V))) (e : K × V)
        → find_in o (get_or bs (idx e.0) []) e.0 ≡ none
        → Tidy o bs
        → Tidy o (add_tail o idx bs e)
    unfolding add_tail
    Tidy-add_tail bs e h t =
        Tidy-update o (idx e.0) _ bs (λ d. Distinct-append o law (get_or bs (idx e.0) []) e d h) t

    AllNew-add_tail :
        (bs : List (List (K × V))) (e : K × V) (es : List (K × V))
        → length bs ≡ n
        → find_in o es e.0 ≡ none
        → AllNew bs es
        → AllNew (add_tail o idx bs e) es
    unfolding find_in
    AllNew-add_tail bs e [] l h a = tt
    AllNew-add_tail bs e (x ∷ es) l h (x_new, a) = (
      find_in-add_tail bs e x.0 l ∙ rw (x_new, is_at-none o law x e es h),
      AllNew-add_tail bs e es l (ground arith) a,
    )

    -- moving distinct keys that are not there yet keeps each bucket's keys distinct
    pub Tidy-move_bucket :
        (bs : List (List (K × V))) (es : List (K × V))
        → length bs ≡ n
        → Tidy o bs
        → Distinct o es
        → AllNew bs es
        → Tidy o (move_bucket o idx bs es)
    unfolding move_bucket
    Tidy-move_bucket bs [] l t d a = t
    Tidy-move_bucket bs (e ∷ es) l t (h, d) (e_new, a) =
        Tidy-move_bucket (add_tail o idx bs e) es (length-add_tail bs e ∙ l)
          (Tidy-add_tail bs e e_new t) d (AllNew-add_tail bs e es l h a)

  pub AllNew-replicate : (n : ℕ) (es : List (K × V)) → AllNew (replicate n []) es
  AllNew-replicate n [] = tt
  AllNew-replicate n (e ∷ es) = (find_in-replicate o n (idx e.0) e.0, AllNew-replicate n es)
