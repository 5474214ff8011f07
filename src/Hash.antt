-- ===== src/Hash.antt =====
-- The hash functions of src/map.c: HXhash_jlookup3, HXhash_jlookup3s and HXhash_djb2, over bytes.
pub mod Bounds
mod Tests
use Prim.Native.Nat.{bit_or, bit_xor}
use libhx.Prelude.{
  ℕ, zero, suc, ◌+◌, ◌-◌, ◌*◌, ◌/◌, ◌%◌, ◌^◌, List, [], ◌∷◌, length, get_or, ltb, if◌then◌else◌,
}

-- uint32_t and unsigned long
abbrev pub u32 : ℕ → ℕ
u32 n = n % 2 ^ 32

abbrev pub u64 : ℕ → ℕ
u64 n = n % 2 ^ 64

abbrev pub sub32 : ℕ → ℕ → ℕ
sub32 a b = (a + (2 ^ 32 - b)) % 2 ^ 32

abbrev pub add32 : ℕ → ℕ → ℕ
add32 a b = (a + b) % 2 ^ 32

-- `jrot`
unfoldable pub jrot : ℕ → ℕ → ℕ
jrot x k = bit_or (x * 2 ^ k % 2 ^ 32) (x / 2 ^ (32 - k))

-- `x -= y; x ^= jrot(y, k)` with the sum that follows is one of the steps of the mixing; the other
-- steps are `x ^= y; x -= jrot(y, k)`.
abbrev pub mix_one : ℕ → ℕ → ℕ → ℕ
mix_one x y k = bit_xor (sub32 x y) (jrot y k)

abbrev pub final_one : ℕ → ℕ → ℕ → ℕ
final_one x y k = sub32 (bit_xor x y) (jrot y k)

-- jhash_mix
unfoldable pub jhash_mix : ℕ → ℕ → ℕ → ℕ × ℕ × ℕ
unfolding jrot
jhash_mix a0 b0 c0 =
    let a1 = mix_one a0 c0 4 in
    let c1 = add32 c0 b0 in
    let b1 = mix_one b0 a1 6 in
    let a2 = add32 a1 c1 in
    let c2 = mix_one c1 b1 8 in
    let b2 = add32 b1 a2 in
    let a3 = mix_one a2 c2 16 in
    let c3 = add32 c2 b2 in
    let b3 = mix_one b2 a3 19 in
    let a4 = add32 a3 c3 in let c4 = mix_one c3 b3 4 in let b4 = add32 b3 a4 in (a4, b4, c4)

-- jhash_final
unfoldable pub jhash_final : ℕ → ℕ → ℕ → ℕ
unfolding jrot
jhash_final a0 b0 c0 =
    let c1 = final_one c0 b0 14 in
    let a1 = final_one a0 c1 11 in
    let b1 = final_one b0 a1 25 in
    let c2 = final_one c1 b1 16 in
    let a2 = final_one a1 c2 4 in let b2 = final_one b1 a2 14 in final_one c2 b2 24

-- four bytes as a number, the first one lowest
abbrev pub word : ℕ → ℕ → ℕ → ℕ → ℕ
word k0 k1 k2 k3 = k0 + k1 * 2 ^ 8 + k2 * 2 ^ 16 + k3 * 2 ^ 24

-- The switch over the last block, of at most 12 bytes. A byte that is not there adds nothing.
unfoldable pub last_block : List ℕ → ℕ → ℕ → ℕ → ℕ
unfolding jhash_final
last_block [] a b c = c
last_block (k ∷ key) a b c =
    let at : ℕ → ℕ = λ i. get_or (k ∷ key) i 0 in
    jhash_final (add32 a (word (at 0) (at 1) (at 2) (at 3)))
      (add32 b (word (at 4) (at 5) (at 6) (at 7))) (add32 c (word (at 8) (at 9) (at 10) (at 11)))

-- The loop over the blocks of 12 bytes in front of the last one.
unfoldable pub blocks : List ℕ → ℕ → ℕ → ℕ → ℕ
unfolding jhash_mix last_block
blocks (k0 ∷ k1 ∷ k2 ∷ k3 ∷ k4 ∷ k5 ∷ k6 ∷ k7 ∷ k8 ∷ k9 ∷ k10 ∷ k11 ∷ k ∷ key) a b c =
    let (a', b', c') =
      jhash_mix (add32 a (word k0 k1 k2 k3)) (add32 b (word k4 k5 k6 k7))
        (add32 c (word k8 k9 k10 k11)) in
    blocks (k ∷ key) a' b' c'
blocks key a b c = last_block key a b c

-- `JHASH_GOLDEN_RATIO`
abbrev pub golden_ratio : ℕ
golden_ratio = 2654435769

-- `HXhash_jlookup3`; `HXhash_jlookup3s` is this on the bytes of a string
unfoldable pub jlookup3 : List ℕ → ℕ
unfolding blocks
jlookup3 key = let start = u32 (golden_ratio + length key) in blocks key start start start

-- `*c++` as a signed char in an unsigned long
abbrev pub sign_extend : ℕ → ℕ
sign_extend c = if ltb c 128 then c else c + (2 ^ 64 - 2 ^ 8)

unfoldable pub djb2_loop : List ℕ → ℕ → ℕ
djb2_loop [] v = v
djb2_loop (c ∷ s) v = djb2_loop s (bit_xor (u64 (v * 2 ^ 5 + v)) (sign_extend c))

-- `HXhash_djb2`
unfoldable pub djb2 : List ℕ → ℕ
unfolding djb2_loop
djb2 s = djb2_loop s 5381
