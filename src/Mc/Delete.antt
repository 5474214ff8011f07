-- ===== src/Mc/Delete.antt =====
-- HXmc_memdel of src/mc.c on a container that holds a text.
use libhx.Prelude.{
  ℕ, zero, suc, ◌+◌, ◌-◌, ◌%◌, ◌^◌, ◌≤◌, ◌<◌, ◌≡◌, refl, ap, sym, ◌∙◌, subst, Bool, true, false,
  List, [], ◌∷◌, ◌++◌, length, length-take, length-drop, take, drop, ltb, if◌then◌else◌, arith,
}
use libhx.Mc.Write.{length-write, take-write, take-take, drop-take}
use libhx.Mc.{Memcont, write, memdel, cut_out}
use libhx.Mc.Holds.{Holds, terminate}

drop_all : (n : ℕ) (d : List ℕ) → length d ≤ n → drop n d ≡ []
drop_all zero [] h = refl
drop_all zero (x ∷ d) h = absurd (omega arith)
drop_all (suc n) [] h = refl
drop_all (suc n) (x ∷ d) h = drop_all n d (omega arith)

removed :
    (c : Memcont) (t : List ℕ) (pos len : ℕ)
    → Holds c t
    → pos + len ≤ c.length
    → Holds
        (record c {
          length = c.length - len;
          bytes =
              write
                (c.length - len)
                (0 ∷ [])
                (write pos (take (c.length - pos - len) (drop (pos + len) c.bytes)) c.bytes);
        })
        (take pos t ++ drop (pos + len) t)
removed c t pos len h l =
    let moved = take (c.length - pos - len) (drop (pos + len) c.bytes) in
    let moved_length : length moved ≡ c.length - pos - len = omega (
      arith,
      length-take (c.length - pos - len) (drop (pos + len) c.bytes),
      length-drop (pos + len) c.bytes,
      h.size,
      h.fits,
    ) in
    let left : c.length - pos - len ≡ c.length - (pos + len) = omega arith in
    let inside : pos ≤ c.length = omega arith in
    terminate c.alloc (c.length - len) (write pos moved c.bytes) (take pos t ++ drop (pos + len) t)
      (length-write pos moved c.bytes (omega (arith, moved_length, h.size, h.fits)) ∙ h.size)
      (omega (arith, h.fits))
      (take-write (c.length - len) pos moved c.bytes (omega (arith, moved_length))
          (omega (arith, h.size, h.fits))
        ∙ ap (λ a. a ++ moved) (sym (take-take pos c.length c.bytes inside) ∙ ap (take pos) h.text)
        ∙ ap (λ a. take pos t ++ a)
            (ap (λ m. take m (drop (pos + len) c.bytes)) left
              ∙ sym (drop-take (pos + len) c.length c.bytes)
              ∙ ap (drop (pos + len)) h.text))

remove-Holds :
    (c : Memcont) (t : List ℕ) (pos len : ℕ)
    → Holds c t
    → pos + len ≤ c.length
    → c.length < 2 ^ 64
    → Holds (cut_out c pos len) (take pos t ++ drop (pos + len) t)
unfolding cut_out
remove-Holds c t pos len h l w =
    let less : (c.length + 2 ^ 64 - len) % 2 ^ 64 ≡ c.length - len = omega arith in
    let count : (c.length + 2 ^ 64 + 2 ^ 64 - pos - len) % 2 ^ 64 ≡ c.length - pos - len =
      omega arith in
    let offset : (pos + len) % 2 ^ 64 ≡ pos + len = omega arith in
    rw (less, count, offset) (removed c t pos len h l)

-- HXmc_memdel on a container that holds a text of less than 2^64 bytes, with a position in it and a
-- length that does not wrap when it is added to the position: the container then holds the text without
-- the bytes from the position on, as many as asked for or as there are.
pub memdel-Holds :
    (c : Memcont) (t : List ℕ) (pos n : ℕ)
    → Holds c t
    → pos ≤ length t
    → length t < 2 ^ 64
    → pos + n < 2 ^ 64
    → Holds (memdel c pos n) (take pos t ++ drop (pos + n) t)
unfolding memdel
memdel-Holds c t pos n h l bound wrap =
    let sum : (pos + n) % 2 ^ 64 ≡ pos + n = omega arith in
    let rest : (c.length + 2 ^ 64 - pos) % 2 ^ 64 ≡ c.length - pos = omega (arith, text_length) in
    rw (sum, rest) (go (ltb c.length (pos + n)) refl)
  where
    text_length : length t ≡ c.length
    text_length = omega (arith, length-take c.length c.bytes, h.size, h.fits, ap length h.text)

    go :
        (b : Bool)
        → ltb c.length (pos + n) ≡ b
        → Holds (cut_out c pos (if b then c.length - pos else n)) (take pos t ++ drop (pos + n) t)
    go true e =
        let cut : c.length < pos + n = ground arith in
        let fitting : pos + (c.length - pos) ≤ c.length = omega (arith, text_length) in
        subst (λ r. Holds (cut_out c pos (c.length - pos)) (take pos t ++ r))
          (drop_all (pos + (c.length - pos)) t (omega (arith, text_length))
            ∙ sym (drop_all (pos + n) t (omega (arith, text_length))))
          (remove-Holds c t pos (c.length - pos) h fitting (omega (arith, text_length)))
    go false e =
        let within : pos + n ≤ c.length = ground arith in
        remove-Holds c t pos n h within (omega (arith, text_length))
