-- ===== src/Rbtree/Remove/Entries.antt =====
-- The deletion of src/map.c on the entries in key order: taking a node out drops its entry alone,
-- and HXrbtree_dmov keeps the entries.
use mathlib.Core.Option.{some-injective}
use libhx.Prelude.{
  ℕ, zero, suc, ◌+◌, ◌≡◌, refl, sym, ap, ◌∙◌, false, inl, inr, Bool-cases, ◌&&◌, List, [], ◌∷◌,
  ◌++◌, append_assoc, append-nil, Option, some, length,
}
use libhx.Rbtree.Inorder.{
  before, after, lists, keysvalues-zip, keysvalues-set_color, zip_congr, IsNode,
}
use libhx.Rbtree.Remove.{
  leftmost, detach, Round, stop, next, dmov_case5, dmov_case6, dmov_black, dmov_sibling, dmov_round,
  dmov, black_sub, unlink,
}
use libhx.Rbtree.{
  Dir, left, right, other, Color, red, black, Tree, leaf, node, Frame, frame, sub, is_red, plug,
  zip, keysvalues,
}

regroup {ℓ} :
    {A : Type ℓ} (a b r s m : List A) (x : A)
    → r ≡ x ∷ s
    → (a ++ (b ++ x ∷ [])) ++ (s ++ m) ≡ (a ++ b) ++ (r ++ m)
regroup a b r s m x e = rw e (simp lists)

module _ {ℓ} {K V : Type ℓ} where
  zip-append : (a b : List (Frame K V)) (t : Tree K V) → zip (a ++ b) t ≡ zip b (zip a t)
  unfolding zip
  zip-append [] b t = refl
  zip-append (f ∷ a) b t = zip-append a b (plug f t)

  -- the leftmost node heads the entries, and the rest is what is left without it
  leftmost-keysvalues :
      (turns : List (Frame K V)) (c : Color) (l : Tree K V) (k : K) (v : V) (r : Tree K V)
      → before turns ≡ []
      → let io = leftmost turns c l k v r in
        (before io.turns ≡ [])
        × (keysvalues (node c l k v r) ++ after turns
            ≡ (io.key, io.datum) ∷ (keysvalues io.right_sub ++ after io.turns))
  unfolding leftmost keysvalues before after
  leftmost-keysvalues turns c leaf k v r h = (h, refl)
  leftmost-keysvalues turns c (node lc ll lk lv lr) k v r h =
      let (e, f) = leftmost-keysvalues (frame left c k v r ∷ turns) lc ll lk lv lr h in
      (e, append_assoc (keysvalues (node lc ll lk lv lr)) ((k, v) ∷ keysvalues r) (after turns) ∙ f)

  leftmost_head :
      (c : Color) (l : Tree K V) (k : K) (v : V) (r : Tree K V)
      → let io = leftmost [] c l k v r in
        keysvalues (node c l k v r) ≡ (io.key, io.datum) ∷ keysvalues (zip io.turns io.right_sub)
  unfolding before after
  leftmost_head c l k v r =
      let io = leftmost [] c l k v r in
      let (e, f) = leftmost-keysvalues [] c l k v r refl in
      sym (append-nil _)
      ∙ f
      ∙ ap (λ m. (io.key, io.datum) ∷ m)
          (sym (
            keysvalues-zip io.turns io.right_sub
            ∙ ap (λ m. m ++ (keysvalues io.right_sub ++ after io.turns)) e))

  -- a node that is taken out leaves the entries around it
  pub keysvalues-detach :
      (path : List (Frame K V)) (c : Color) (l : Tree K V) (k : K) (v : V) (r : Tree K V)
      → let gap = detach path c l k v r in
        keysvalues (zip gap.path gap.below)
        ≡ (before path ++ keysvalues l) ++ (keysvalues r ++ after path)
  unfolding detach keysvalues before after
  keysvalues-detach path c l k v leaf = keysvalues-zip path l ∙ simp lists
  keysvalues-detach path c leaf k v (node rc rl rk rv rr) =
      keysvalues-zip path (node rc rl rk rv rr) ∙ simp lists
  keysvalues-detach path c (node lc ll lk lv lr) k v (node rc rl rk rv rr) =
      let io = leftmost [] rc rl rk rv rr in
      let l' : Tree K V = node lc ll lk lv lr in
      let (e, f) = leftmost-keysvalues [] rc rl rk rv rr refl in
      ap keysvalues (zip-append io.turns (frame right c io.key io.datum l' ∷ path) io.right_sub)
      ∙ keysvalues-zip (frame right c io.key io.datum l' ∷ path) (zip io.turns io.right_sub)
      ∙ regroup (before path) (keysvalues l') (keysvalues (node rc rl rk rv rr))
          (keysvalues (zip io.turns io.right_sub)) (after path) (io.key, io.datum)
          (leftmost_head rc rl rk rv rr)

  -- what a round of the loop leaves has the entries that it found
  abbrev pub Keeps : Tree K V → Round K V → Type ℓ
  Keeps t (stop t') = keysvalues t' ≡ keysvalues t
  Keeps t (next path x) = keysvalues (zip path x) ≡ keysvalues t

  -- with a red child at `w`, case 5 keeps the entries, and is not NULL
  case5-keysvalues :
      (lr : Dir) (w : Tree K V)
      → black_sub w lr && black_sub w (other lr) ≡ false
      → (keysvalues (dmov_case5 lr w) ≡ keysvalues w) × IsNode (dmov_case5 lr w)
  unfolding keysvalues
  case5-keysvalues lr leaf h = cc
  case5-keysvalues left (node c l k v (node red rl rk rv rr)) h = (refl, tt)
  case5-keysvalues left (node c (node red ll lk lv lr) k v leaf) h = (simp lists, tt)
  case5-keysvalues left (node c (node red ll lk lv lr) k v (node black rl rk rv rr)) h =
      (simp lists, tt)
  case5-keysvalues left (node c leaf k v leaf) h = cc
  case5-keysvalues left (node c leaf k v (node black rl rk rv rr)) h = cc
  case5-keysvalues left (node c (node black ll lk lv lr) k v leaf) h = cc
  case5-keysvalues left (node c (node black ll lk lv lr) k v (node black rl rk rv rr)) h = cc
  case5-keysvalues right (node c (node red ll lk lv lr) k v r) h = (refl, tt)
  case5-keysvalues right (node c leaf k v (node red rl rk rv rr)) h = (simp lists, tt)
  case5-keysvalues right (node c (node black ll lk lv lr) k v (node red rl rk rv rr)) h =
      (simp lists, tt)
  case5-keysvalues right (node c leaf k v leaf) h = cc
  case5-keysvalues right (node c leaf k v (node black rl rk rv rr)) h = cc
  case5-keysvalues right (node c (node black ll lk lv lr) k v leaf) h = cc
  case5-keysvalues right (node c (node black ll lk lv lr) k v (node black rl rk rv rr)) h = cc

  case6-keysvalues :
      (lr : Dir) (c : Color) (k : K) (v : V) (w x : Tree K V)
      → IsNode w
      → keysvalues (dmov_case6 lr c k v w x) ≡ keysvalues (plug (frame lr c k v w) x)
  unfolding keysvalues
  case6-keysvalues lr c k v leaf x h = absurd h
  case6-keysvalues left c k v (node wc wl wk wv wr) x h =
      rw (keysvalues-set_color wr black) (simp lists)
  case6-keysvalues right c k v (node wc wl wk wv wr) x h =
      rw (keysvalues-set_color wl black) (simp lists)

  sibling_congr :
      (lr : Dir) (c c' : Color) (k : K) (v : V) (w w' x : Tree K V)
      → keysvalues w' ≡ keysvalues w
      → keysvalues (plug (frame lr c' k v w') x) ≡ keysvalues (plug (frame lr c k v w) x)
  unfolding keysvalues
  sibling_congr left c c' k v w w' x e = rw e
  sibling_congr right c c' k v w w' x e = rw e

  black-Keeps :
      (lr : Dir) (c : Color) (k : K) (v : V) (w : Tree K V) (path : List (Frame K V)) (x : Tree K V)
      → Keeps (zip (frame lr c k v w ∷ path) x) (dmov_black lr c k v w path x)
  unfolding dmov_black zip
  black-Keeps lr c k v w path x = elim (Bool-cases (black_sub w lr && black_sub w (other lr))) [
    | inl none_red ↦
        rw none_red
          (zip_congr path _ _ (sibling_congr lr c c k v w _ x (keysvalues-set_color w red)))
    | inr some_red ↦
        let (e, n) = case5-keysvalues lr w some_red in
        rw some_red (
          zip_congr path _ _ (
            case6-keysvalues lr c k v (dmov_case5 lr w) x n
            ∙ sibling_congr lr c c k v w (dmov_case5 lr w) x e))
  ]

  -- the rotation of case 2
  case2-keysvalues :
      (lr : Dir) (c : Color) (k : K) (v : V) (wl : Tree K V) (wk : K) (wv : V) (wr x : Tree K V)
      → let w : Tree K V = node red wl wk wv wr in
        keysvalues
          (plug (frame lr black wk wv (sub w (other lr))) (plug (frame lr red k v (sub w lr)) x))
        ≡ keysvalues (plug (frame lr c k v w) x)
  unfolding keysvalues
  case2-keysvalues left c k v wl wk wv wr x = simp lists
  case2-keysvalues right c k v wl wk wv wr x = simp lists

  Keeps-congr :
      (s t : Tree K V) (r : Round K V) → keysvalues s ≡ keysvalues t → Keeps s r → Keeps t r
  Keeps-congr s t (stop u) e h = h ∙ e
  Keeps-congr s t (next path x) e h = h ∙ e

  sibling-Keeps :
      (lr : Dir) (c : Color) (k : K) (v : V) (w : Tree K V) (path : List (Frame K V)) (x : Tree K V)
      → Keeps (zip (frame lr c k v w ∷ path) x) (dmov_sibling lr c k v w path x)
  unfolding dmov_sibling zip
  sibling-Keeps lr c k v leaf path x = black-Keeps lr c k v leaf path x
  sibling-Keeps lr c k v (node black wl wk wv wr) path x =
      black-Keeps lr c k v (node black wl wk wv wr) path x
  sibling-Keeps lr c k v (node red wl wk wv wr) path x =
      let w : Tree K V = node red wl wk wv wr in
      let lower : Frame K V = frame lr black wk wv (sub w (other lr)) in
      Keeps-congr (zip (frame lr red k v (sub w lr) ∷ lower ∷ path) x)
        (zip (frame lr c k v w ∷ path) x) (dmov_black lr red k v (sub w lr) (lower ∷ path) x)
        (zip_congr path _ _ (case2-keysvalues lr c k v wl wk wv wr x))
        (black-Keeps lr red k v (sub w lr) (lower ∷ path) x)

  pub round-Keeps :
      (path : List (Frame K V)) (x : Tree K V) → Keeps (zip path x) (dmov_round path x)
  unfolding dmov_round zip
  round-Keeps [] x = elim (Bool-cases (is_red x)) [
    | inl r ↦ rw r (keysvalues-set_color x black)
    | inr b ↦ rw b
  ]
  round-Keeps (frame lr c k v w ∷ path) x = elim (Bool-cases (is_red x)) [
    | inl r ↦ rw r (zip_congr (frame lr c k v w ∷ path) _ x (keysvalues-set_color x black))
    | inr b ↦ rw b (sibling-Keeps lr c k v w path x)
  ]

  pub dmov-keysvalues :
      (fuel : ℕ) (path : List (Frame K V)) (x t : Tree K V)
      → dmov fuel path x ≡ some t
      → keysvalues t ≡ keysvalues (zip path x)
  unfolding dmov
  dmov-keysvalues zero path x t h = cc
  dmov-keysvalues (suc fuel) path x t h =
      go (dmov_round path x) (round-Keeps path x) (λ p y. dmov-keysvalues fuel p y t) h
    where
      go :
          (r : Round K V)
          → Keeps (zip path x) r
          → ((p : List (Frame K V)) (y : Tree K V)
              → dmov fuel p y ≡ some t
              → keysvalues t ≡ keysvalues (zip p y))
          → elim r as (λ _. Option (Tree K V)) [ stop t' ↦ some t' | next p y ↦ dmov fuel p y ]
            ≡ some t
          → keysvalues t ≡ keysvalues (zip path x)
      go (stop u) k ih e = ap keysvalues (sym (some-injective u t e)) ∙ k
      go (next p y) k ih e = ih p y e ∙ k

  -- a node that is taken out leaves the entries around it, whatever the loop rotates
  pub unlink-keysvalues :
      (path : List (Frame K V)) (c : Color) (l : Tree K V) (k : K) (v : V) (r u : Tree K V)
      → unlink path c l k v r ≡ some u
      → keysvalues u ≡ (before path ++ keysvalues l) ++ (keysvalues r ++ after path)
  unfolding unlink
  unlink-keysvalues path c l k v r u h =
      let gap = detach path c l k v r in
      go gap.color gap.path gap.below h ∙ keysvalues-detach path c l k v r
    where
      go :
          (d : Color) (p : List (Frame K V)) (t : Tree K V)
          → elim d as (λ _. Option (Tree K V)) [
            | red ↦ some (zip p t)
            | black ↦ dmov (length p + 2) p t
          ]
            ≡ some u
          → keysvalues u ≡ keysvalues (zip p t)
      go red p t e = ap keysvalues (sym (some-injective (zip p t) u e))
      go black p t e = dmov-keysvalues (length p + 2) p t u e
