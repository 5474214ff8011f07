-- ===== src/Quote/Strquote/Base64.antt =====
-- HX_quote_base64 of src/string.c, read back.
use libhx.Prelude.{
  all_below, all_below-at, ℕ, ◌+◌, ◌*◌, ◌/◌, ◌%◌, ◌<◌, ◌≡◌, refl, ap, Bool, true, false, not, ◌&&◌,
  List, [], ◌∷◌, get_or, if◌then◌else◌, ◌==◌, arith,
}
use libhx.Quote.Base64.{base64_loop}
use libhx.Quote.Strquote.Decode.{IsBytes, index_of}

-- four characters a round; `=` stands for a sextet that is not there
unfoldable pub unbase64 : List ℕ → List ℕ → List ℕ
unfolding index_of
unbase64 table (p ∷ q ∷ r ∷ t ∷ s) =
    let rest = unbase64 table s in
    let c0 = index_of table p * 4 + index_of table q / 16 in
    let c1 = index_of table q % 16 * 16 + index_of table r / 4 in
    let c2 = index_of table r % 4 * 64 + index_of table t in
    if r == b'=' then c0 ∷ [] else if t == b'=' then c0 ∷ c1 ∷ [] else c0 ∷ c1 ∷ c2 ∷ rest
unbase64 table s = []

-- the character at an index has that index, and is not `=`
unfoldable pub is_char : List ℕ → ℕ → Bool
unfolding index_of
is_char table i = index_of table (get_or table i 0) == i && not (get_or table i 0 == b'=')

-- all 64 characters are such
unfoldable pub is_alphabet : List ℕ → Bool
unfolding all_below is_char
is_alphabet table = all_below 64 (is_char table)

eq-of-== : (a b : ℕ) → (a == b) ≡ true → a ≡ b
eq-of-== a b h = ground arith

both-true : (p q : Bool) → (p && not q) ≡ true → (p ≡ true) × (q ≡ false)
both-true p q h = ground arith

-- the three bytes out of the four sextets
byte0 : (a b : ℕ) → a < 256 → a / 4 % 64 * 4 + (a % 4 * 16 + b / 16 % 16) / 16 ≡ a
byte0 a b h = omega arith

byte1 :
    (a b c : ℕ) → b < 256 → (a % 4 * 16 + b / 16 % 16) % 16 * 16 + (b % 16 * 4 + c / 64 % 4) / 4 ≡ b
byte1 a b c h = omega arith

byte2 : (b c : ℕ) → c < 256 → (b % 16 * 4 + c / 64 % 4) % 4 * 64 + c % 64 ≡ c
byte2 b c h = omega arith

byte1_last : (a b : ℕ) → b < 256 → (a % 4 * 16 + b / 16 % 16) % 16 * 16 + b % 16 * 4 / 4 ≡ b
byte1_last a b h = omega arith

module _ (table : List ℕ) (good : is_alphabet table ≡ true) where
  char-read :
      (i : ℕ)
      → i < 64
      → (index_of table (get_or table i 0) ≡ i) × ((get_or table i 0 == b'=') ≡ false)
  unfolding is_alphabet is_char
  char-read i l =
      let (at, padding) = both-true _ _ (all_below-at 64 (is_char table) i good l) in
      (eq-of-== _ _ at, padding)

  pub unbase64-base64_loop : (s : List ℕ) → IsBytes s → unbase64 table (base64_loop table s) ≡ s
  unfolding unbase64 base64_loop
  unbase64-base64_loop [] b = refl
  unbase64-base64_loop (s0 ∷ []) (b0, b) =
      let (v0, p0) = char-read (s0 / 4 % 64) (omega arith) in
      let (v1, p1) = char-read (s0 % 4 * 16) (omega arith) in
      rw (v0, v1) (ap (λ c. c ∷ []) (omega arith))
  unbase64-base64_loop (s0 ∷ s1 ∷ []) (b0, (b1, b)) =
      let (v0, p0) = char-read (s0 / 4 % 64) (omega arith) in
      let (v1, p1) = char-read (s0 % 4 * 16 + s1 / 16 % 16) (omega arith) in
      let (v2, p2) = char-read (s1 % 16 * 4) (omega arith) in
      rw (v0, v1, v2, p2, byte0 s0 s1 b0, byte1_last s0 s1 b1)
  unbase64-base64_loop (s0 ∷ s1 ∷ s2 ∷ s) (b0, (b1, (b2, b))) =
      let (v0, p0) = char-read (s0 / 4 % 64) (omega arith) in
      let (v1, p1) = char-read (s0 % 4 * 16 + s1 / 16 % 16) (omega arith) in
      let (v2, p2) = char-read (s1 % 16 * 4 + s2 / 64 % 4) (omega arith) in
      let (v3, p3) = char-read (s2 % 64) (omega arith) in
      rw (
        v0,
        v1,
        v2,
        v3,
        p2,
        p3,
        byte0 s0 s1 b0,
        byte1 s0 s1 s2 b1,
        byte2 s1 s2 b2,
        unbase64-base64_loop s b,
      )
