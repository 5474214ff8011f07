-- ===== src/Rbtree/Remove/Shape.antt =====
-- The deletion of src/map.c keeps the red-black rules, and its loop HXrbtree_dmov ends.
use libhx.Prelude.{
  ℕ, zero, suc, ◌+◌, ◌≤◌, ◌<◌, ◌≡◌, refl, true, false, ◌&&◌, inl, inr, Bool-cases, List, [], ◌∷◌,
  Option, some, if◌then◌else◌, length, arith,
}
use libhx.Rbtree.Balance.{
  black_height, IsBalanced, IsColored, IsRedBlack, BlackTop, PathOk, zip-IsRedBlack,
}
use libhx.Rbtree.Remove.{
  Round, stop, next, black_sub, dmov_case5, dmov_case6, dmov_black, dmov_sibling, dmov_round, dmov,
}
use libhx.Rbtree.{
  Dir, left, right, other, Color, red, black, Tree, leaf, node, Frame, frame, sub, set_color,
  is_red, plug, zip,
}

module _ {ℓ} {K V : Type ℓ} where
  -- the state of the loop: below the path one black node is missing, and `x` may be red
  abbrev pub Lacks : List (Frame K V) → Tree K V → Type 0
  Lacks path x = IsBalanced x × IsColored (set_color x black) × PathOk (suc (black_height x)) path

  -- the rounds that are left
  abbrev pub rounds : List (Frame K V) → Tree K V → ℕ
  rounds path x = if is_red x then 1 else length path + 2

  abbrev pub Mends : ℕ → Round K V → Type 0
  Mends n (stop t) = IsRedBlack t
  Mends n (next path x) = Lacks path x × (rounds path x < n)

  -- a black sibling with a red child on the far side
  abbrev pub RedFar : Dir → Tree K V → ℕ → Type 0
  RedFar lr w n =
      IsBalanced w
      × IsColored w
      × (black_height w ≡ n)
      × (is_red w ≡ false)
      × (is_red (sub w (other lr)) ≡ true)

  -- case 5 brings a red child to the far side
  case5-RedFar :
      (lr : Dir) (w : Tree K V)
      → IsBalanced w
      → IsColored w
      → is_red w ≡ false
      → black_sub w lr && black_sub w (other lr) ≡ false
      → RedFar lr (dmov_case5 lr w) (black_height w)
  case5-RedFar lr leaf b c h n = cc
  case5-RedFar lr (node red l k v r) b c h n = cc
  case5-RedFar left (node black l k v (node red rl rk rv rr)) b c h n = ground arith
  case5-RedFar left (node black (node red ll lk lv lr) k v leaf) b c h n = ground arith
  case5-RedFar left (node black (node red ll lk lv lr) k v (node black rl rk rv rr)) b c h n =
      ground arith
  case5-RedFar left (node black leaf k v leaf) b c h n = cc
  case5-RedFar left (node black leaf k v (node black rl rk rv rr)) b c h n = cc
  case5-RedFar left (node black (node black ll lk lv lr) k v leaf) b c h n = cc
  case5-RedFar left (node black (node black ll lk lv lr) k v (node black rl rk rv rr)) b c h n = cc
  case5-RedFar right (node black (node red ll lk lv lr) k v r) b c h n = ground arith
  case5-RedFar right (node black leaf k v (node red rl rk rv rr)) b c h n = ground arith
  case5-RedFar right (node black (node black ll lk lv lr) k v (node red rl rk rv rr)) b c h n =
      ground arith
  case5-RedFar right (node black leaf k v leaf) b c h n = cc
  case5-RedFar right (node black leaf k v (node black rl rk rv rr)) b c h n = cc
  case5-RedFar right (node black (node black ll lk lv lr) k v leaf) b c h n = cc
  case5-RedFar right (node black (node black ll lk lv lr) k v (node black rl rk rv rr)) b c h n = cc

  -- a tree that fits the end of a path
  abbrev pub Fits : List (Frame K V) → Tree K V → Type 0
  Fits path t =
      IsBalanced t × IsColored t × PathOk (black_height t) path × (is_red t ≡ true → BlackTop path)

  -- case 6 gives back the missing black node
  case6-Fits :
      (lr : Dir) (c : Color) (k : K) (v : V) (u w : Tree K V) (path : List (Frame K V))
      (x : Tree K V)
      → IsBalanced x
      → IsColored x
      → is_red x ≡ false
      → PathOk (suc (black_height x)) (frame lr c k v u ∷ path)
      → RedFar lr w (black_height u)
      → Fits path (dmov_case6 lr c k v w x)
  case6-Fits lr c k v u leaf path x b d h p f = cc
  case6-Fits lr c k v u (node red wl wk wv wr) path x b d h p f = cc
  case6-Fits left red k v u (node black wl wk wv (node red rl rk rv rr)) path x b d h p f =
      ground arith
  case6-Fits left black k v u (node black wl wk wv (node red rl rk rv rr)) path x b d h p f =
      ground arith
  case6-Fits right red k v u (node black (node red ll lk lv lr) wk wv wr) path x b d h p f =
      ground arith
  case6-Fits right black k v u (node black (node red ll lk lv lr) wk wv wr) path x b d h p f =
      ground arith
  case6-Fits left c k v u (node black wl wk wv leaf) path x b d h p f = cc
  case6-Fits left c k v u (node black wl wk wv (node black rl rk rv rr)) path x b d h p f = cc
  case6-Fits right c k v u (node black leaf wk wv wr) path x b d h p f = cc
  case6-Fits right c k v u (node black (node black ll lk lv lr) wk wv wr) path x b d h p f = cc

  -- cases 3 and 4 move the gap one level up
  recolor-Lacks :
      (lr : Dir) (c : Color) (k : K) (v : V) (w : Tree K V) (path : List (Frame K V)) (x : Tree K V)
      → IsBalanced x
      → IsColored x
      → is_red x ≡ false
      → is_red w ≡ false
      → PathOk (suc (black_height x)) (frame lr c k v w ∷ path)
      → black_sub w lr && black_sub w (other lr) ≡ true
      → Lacks path (plug (frame lr c k v (set_color w red)) x)
  recolor-Lacks left red k v leaf path x b d h hw p n = absurd (omega arith)
  recolor-Lacks left black k v leaf path x b d h hw p n = absurd (omega arith)
  recolor-Lacks right red k v leaf path x b d h hw p n = absurd (omega arith)
  recolor-Lacks right black k v leaf path x b d h hw p n = absurd (omega arith)
  recolor-Lacks lr c k v (node red wl wk wv wr) path x b d h hw p n = cc
  recolor-Lacks left red k v (node black wl wk wv wr) path x b d h hw p n = ground arith
  recolor-Lacks left black k v (node black wl wk wv wr) path x b d h hw p n = ground arith
  recolor-Lacks right red k v (node black wl wk wv wr) path x b d h hw p n = ground arith
  recolor-Lacks right black k v (node black wl wk wv wr) path x b d h hw p n = ground arith

  sibling_ok :
      (n : ℕ) (lr : Dir) (c : Color) (k : K) (v : V) (w : Tree K V) (path : List (Frame K V))
      → PathOk n (frame lr c k v w ∷ path)
      → IsBalanced w × IsColored w
  sibling_ok n lr red k v w path p = (p.1, p.2)
  sibling_ok n lr black k v w path p = (p.1, p.2)

  rounds-plug :
      (lr : Dir) (c : Color) (k : K) (v : V) (s x : Tree K V) (path : List (Frame K V)) (n : ℕ)
      → 1 < n
      → (c ≡ black → length path + 2 < n)
      → rounds path (plug (frame lr c k v s) x) < n
  rounds-plug left red k v s x path n one more = one
  rounds-plug right red k v s x path n one more = one
  rounds-plug left black k v s x path n one more = more refl
  rounds-plug right black k v s x path n one more = more refl

  black-Mends :
      (lr : Dir) (c : Color) (k : K) (v : V) (w : Tree K V) (path : List (Frame K V)) (x : Tree K V)
      (n : ℕ)
      → IsBalanced x
      → IsColored x
      → is_red x ≡ false
      → is_red w ≡ false
      → PathOk (suc (black_height x)) (frame lr c k v w ∷ path)
      → 1 < n
      → (c ≡ black → length path + 2 < n)
      → Mends n (dmov_black lr c k v w path x)
  unfolding dmov_black
  black-Mends lr c k v w path x n b d h hw p one more =
      elim (Bool-cases (black_sub w lr && black_sub w (other lr))) [
        | inl none_red ↦ rw none_red (
          recolor-Lacks lr c k v w path x b d h hw p none_red,
          rounds-plug lr c k v (set_color w red) x path n one more,
        )
        | inr some_red ↦
            let (bw, cw) = sibling_ok _ lr c k v w path p in
            let far = case5-RedFar lr w bw cw hw some_red in
            let (b', c', p', top) = case6-Fits lr c k v w (dmov_case5 lr w) path x b d h p far in
            rw some_red (zip-IsRedBlack path _ b' c' p' top)
      ]

  -- case 2 needs no more rounds: the node that it puts above the gap is red
  sibling-Mends :
      (lr : Dir) (c : Color) (k : K) (v : V) (w : Tree K V) (path : List (Frame K V)) (x : Tree K V)
      → IsBalanced x
      → IsColored x
      → is_red x ≡ false
      → PathOk (suc (black_height x)) (frame lr c k v w ∷ path)
      → Mends (length path + 3) (dmov_sibling lr c k v w path x)
  unfolding dmov_sibling
  sibling-Mends lr c k v leaf path x b d h p =
      black-Mends lr c k v leaf path x _ b d h refl p (omega arith) (λ _. omega arith)
  sibling-Mends lr c k v (node black wl wk wv wr) path x b d h p =
      black-Mends lr c k v (node black wl wk wv wr) path x _ b d h refl p (omega arith)
        (λ _. omega arith)
  sibling-Mends lr red k v (node red wl wk wv wr) path x b d h p = cc
  sibling-Mends left black k v (node red wl wk wv wr) path x b d h p =
      black-Mends left red k v wl (frame left black wk wv wr ∷ path) x _ b d h (ground arith)
        (ground arith) (omega arith) (λ e. cc)
  sibling-Mends right black k v (node red wl wk wv wr) path x b d h p =
      black-Mends right red k v wr (frame right black wk wv wl ∷ path) x _ b d h (ground arith)
        (ground arith) (omega arith) (λ e. cc)

  Fits_black :
      (path : List (Frame K V)) (x : Tree K V)
      → Lacks path x
      → is_red x ≡ true
      → IsRedBlack (zip path (set_color x black))
  Fits_black path leaf p h = cc
  Fits_black path (node black l k v r) p h = cc
  Fits_black path (node red l k v r) p h =
      zip-IsRedBlack path (node black l k v r) p.0 p.1 p.2 (λ e. cc)

  Lacks-IsColored :
      (path : List (Frame K V)) (x : Tree K V) → Lacks path x → is_red x ≡ false → IsColored x
  Lacks-IsColored path leaf p h = tt
  Lacks-IsColored path (node black l k v r) p h = p.1
  Lacks-IsColored path (node red l k v r) p h = cc

  Mends-mono : (m n : ℕ) (r : Round K V) → m ≤ n → Mends m r → Mends n r
  Mends-mono m n (stop t) h p = p
  Mends-mono m n (next path x) h p = (p.0, omega arith)

  -- a round mends the tree, or moves the gap up with fewer rounds left
  pub round-Mends :
      (path : List (Frame K V)) (x : Tree K V)
      → Lacks path x
      → Mends (rounds path x) (dmov_round path x)
  unfolding dmov_round zip
  round-Mends [] x p = elim (Bool-cases (is_red x)) [
    | inl r ↦ rw r (Fits_black [] x p r)
    | inr b ↦ rw b (record { balanced = p.0; colored = Lacks-IsColored [] x p b; root_black = b })
  ]
  round-Mends (frame lr c k v w ∷ path) x p = elim (Bool-cases (is_red x)) [
    | inl r ↦ rw r (Fits_black (frame lr c k v w ∷ path) x p r)
    | inr b ↦ rw b (
        Mends-mono (length path + 3) _ _ (omega arith) (
          sibling-Mends lr c k v w path x p.0 (Lacks-IsColored (frame lr c k v w ∷ path) x p b) b
            p.2))
  ]

  -- the loop ends within the fuel, in a red-black tree
  pub dmov-IsRedBlack :
      (fuel : ℕ) (path : List (Frame K V)) (x : Tree K V)
      → Lacks path x
      → rounds path x ≤ fuel
      → (t : Tree K V) × (dmov fuel path x ≡ some t) × IsRedBlack t
  unfolding dmov
  dmov-IsRedBlack zero path x p h = absurd (ground arith)
  dmov-IsRedBlack (suc fuel) path x p h =
      go (dmov_round path x) (round-Mends path x p) (dmov-IsRedBlack fuel)
    where
      go :
          (r : Round K V)
          → Mends (rounds path x) r
          → ((p' : List (Frame K V)) (y : Tree K V)
              → Lacks p' y
              → rounds p' y ≤ fuel
              → (t : Tree K V) × (dmov fuel p' y ≡ some t) × IsRedBlack t)
          → (t : Tree K V) × (elim r as (λ _. Option (Tree K V)) [
            | stop t' ↦ some t'
            | next p' y ↦ dmov fuel p' y
          ]
              ≡ some t)
            × IsRedBlack t
      go (stop t) m ih = (t, refl, m)
      go (next p' y) m ih = ih p' y m.0 (omega arith)
