-- ===== src/Hash/Bounds.antt =====
-- HXhash_jlookup3 of src/map.c stays within 32 bits.
use libhx.Hash.{jhash_final, last_block, blocks, jlookup3}
use libhx.Prelude.{ℕ, ◌<◌, ◌^◌, List, [], ◌∷◌, arith}

jhash_final-lt : (a b c : ℕ) → jhash_final a b c < 2 ^ 32
unfolding jhash_final
jhash_final-lt a b c = omega arith

-- there is at least one byte
blocks-lt : (k : ℕ) (key : List ℕ) (a b c : ℕ) → blocks (k ∷ key) a b c < 2 ^ 32
unfolding blocks last_block
blocks-lt k0 (k1 ∷ k2 ∷ k3 ∷ k4 ∷ k5 ∷ k6 ∷ k7 ∷ k8 ∷ k9 ∷ k10 ∷ k11 ∷ k ∷ key) a b c =
    blocks-lt k key _ _ _
blocks-lt k0 key a b c = jhash_final-lt _ _ _

-- HXhash_jlookup3 of any bytes is a number of 32 bits, the empty key included.
pub jlookup3-lt : (key : List ℕ) → jlookup3 key < 2 ^ 32
unfolding jlookup3 blocks last_block
jlookup3-lt [] = omega arith
jlookup3-lt (k ∷ key) = blocks-lt k key _ _ _
