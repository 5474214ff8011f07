-- ===== src/Mc/Write.antt =====
-- Writes into the bytes of a memory container.
use libhx.Prelude.{
  ℕ, zero, suc, ◌+◌, ◌-◌, ◌≤◌, ◌≡◌, refl, ap, sym, ◌∙◌, List, [], ◌∷◌, ◌++◌, length, take, drop,
  get_or, arith,
}
use libhx.Mc.{overlay, write, fresh_bytes}

pub length-fresh_bytes : (fresh : ℕ → ℕ) (n k : ℕ) → length (fresh_bytes fresh n k) ≡ k
unfolding fresh_bytes
length-fresh_bytes fresh n zero = refl
length-fresh_bytes fresh n (suc k) = omega (arith, length-fresh_bytes fresh (suc n) k)

pub length-write :
    (p : ℕ) (bs d : List ℕ) → p + length bs ≤ length d → length (write p bs d) ≡ length d
unfolding write overlay
length-write zero [] d h = refl
length-write zero (b ∷ bs) [] h = absurd (omega arith)
length-write zero (b ∷ bs) (x ∷ d) h = omega (arith, length-write zero bs d (omega arith))
length-write (suc p) bs [] h = absurd (omega arith)
length-write (suc p) bs (x ∷ d) h = omega (arith, length-write p bs d (omega arith))

-- what is in front of a write
pub take-write_before :
    (n p : ℕ) (bs d : List ℕ) → n ≤ p → p ≤ length d → take n (write p bs d) ≡ take n d
unfolding write
take-write_before zero p bs d h l = refl
take-write_before (suc n) zero bs d h l = absurd (omega arith)
take-write_before (suc n) (suc p) bs [] h l = absurd (omega arith)
take-write_before (suc n) (suc p) bs (x ∷ d) h l =
    ap (λ r. x ∷ r) (take-write_before n p bs d (omega arith) (omega arith))

pub take_all : (n : ℕ) (d : List ℕ) → length d ≤ n → take n d ≡ d
take_all zero [] h = refl
take_all zero (x ∷ d) h = absurd (omega arith)
take_all (suc n) [] h = refl
take_all (suc n) (x ∷ d) h = ap (λ r. x ∷ r) (take_all n d (omega arith))

-- up to the end of a write
pub take-write :
    (n p : ℕ) (bs d : List ℕ)
    → n ≡ p + length bs
    → p ≤ length d
    → take n (write p bs d) ≡ take p d ++ bs
unfolding write overlay
take-write zero zero [] d e h = refl
take-write zero zero (b ∷ bs) d e h = absurd (omega arith)
take-write (suc n) zero [] d e h = absurd (omega arith)
take-write (suc n) zero (b ∷ bs) [] e h = ap (λ r. b ∷ r) (take_all n bs (omega arith))
take-write (suc n) zero (b ∷ bs) (x ∷ d) e h =
    ap (λ r. b ∷ r) (take-write n zero bs d (omega arith) (omega arith))
take-write n (suc p) bs [] e h = absurd (omega arith)
take-write zero (suc p) bs (x ∷ d) e h = absurd (omega arith)
take-write (suc n) (suc p) bs (x ∷ d) e h =
    ap (λ r. x ∷ r) (take-write n p bs d (omega arith) (omega arith))

pub get_or-write : (p x y : ℕ) (d : List ℕ) → p ≤ length d → get_or (write p (x ∷ []) d) p y ≡ x
unfolding write overlay
get_or-write zero x y [] h = refl
get_or-write zero x y (z ∷ d) h = refl
get_or-write (suc p) x y [] h = absurd (omega arith)
get_or-write (suc p) x y (z ∷ d) h = get_or-write p x y d (omega arith)

-- adjacent writes are one
pub write-append :
    (p n : ℕ) (a b d : List ℕ)
    → n ≡ p + length a
    → n ≤ length d
    → write p a (write n b d) ≡ write p (a ++ b) d
unfolding write overlay
write-append zero zero [] b d e h = refl
write-append zero (suc n) [] b d e h = absurd (omega arith)
write-append zero zero (x ∷ a) b d e h = absurd (omega arith)
write-append zero (suc n) (x ∷ a) b [] e h = absurd (omega arith)
write-append zero (suc n) (x ∷ a) b (y ∷ d) e h =
    ap (λ r. x ∷ r) (write-append zero n a b d (omega arith) (omega arith))
write-append (suc p) zero a b d e h = absurd (omega arith)
write-append (suc p) (suc n) a b [] e h = absurd (omega arith)
write-append (suc p) (suc n) a b (y ∷ d) e h =
    ap (λ r. y ∷ r) (write-append p n a b d (omega arith) (omega arith))

pub take-append : (n : ℕ) (d e : List ℕ) → n ≤ length d → take n (d ++ e) ≡ take n d
take-append zero d e h = refl
take-append (suc n) [] e h = absurd (omega arith)
take-append (suc n) (x ∷ d) e h = ap (λ r. x ∷ r) (take-append n d e (omega arith))

pub take-take : (p n : ℕ) (d : List ℕ) → p ≤ n → take p (take n d) ≡ take p d
take-take zero n d h = refl
take-take (suc p) zero d h = absurd (omega arith)
take-take (suc p) (suc n) [] h = refl
take-take (suc p) (suc n) (x ∷ d) h = ap (λ r. x ∷ r) (take-take p n d (omega arith))

pub drop-take : (p n : ℕ) (d : List ℕ) → drop p (take n d) ≡ take (n - p) (drop p d)
drop-take zero n d = let e : n ≡ n - 0 = omega arith in ap (λ m. take m d) e
drop-take (suc p) zero d =
    let e : 0 ≡ 0 - suc p = omega arith in ap (λ m. take m (drop (suc p) d)) e
drop-take (suc p) (suc n) [] = sym (take_all (suc n - suc p) [] (omega arith))
drop-take (suc p) (suc n) (x ∷ d) =
    let e : n - p ≡ suc n - suc p = omega arith in drop-take p n d ∙ ap (λ m. take m (drop p d)) e
