-- ===== src/Text/Bounds.antt =====
-- The copying functions of src/string.c stay within their buffers.
use libhx.Prelude.{
  ℕ, ◌+◌, ◌-◌, ◌^◌, ◌≤◌, ◌<◌, ◌≡◌, ◌⊎◌, true, if_both, List, ◌++◌, length, length-append,
  length-take, take, if◌then◌else◌, arith,
}
use libhx.Text.{Long, strlcpy, strlcat, strlncat, room, is_positive, slen_less, substr_helper}

room-length :
    (len used : ℕ)
    → len < 2 ^ 63
    → used < 2 ^ 63
    → is_positive (room len used) ≡ true
    → used + room len used < len
room-length len used l u h = ground arith

cat-length : (dest src : List ℕ) (n : ℕ) → length (dest ++ take n src) ≤ length dest + n
cat-length dest src n = omega (arith, length-append {0} dest (take n src), length-take n src)

strlcat-fits :
    (dest src : List ℕ) (len : ℕ)
    → len < 2 ^ 63
    → length dest < len
    → length (strlcat dest src len) < len
unfolding strlcat
strlcat-fits dest src len l d =
    let x = room len (length dest) in
    if_both (λ out. length out < len) (is_positive (room len (length dest)))
      {x = dest ++ take (room len (length dest)) src} {y = dest}
      (λ t. omega (
        arith,
        room-length len (length dest) l (omega arith) t,
        cat-length dest src (room len (length dest)),
      ))
      (λ f. d)

strlncat-fits :
    (dest src : List ℕ) (len slen : ℕ)
    → len < 2 ^ 63
    → slen < 2 ^ 63
    → length dest < len
    → length (strlncat dest src len slen) < len
unfolding strlncat
strlncat-fits dest src len slen l sl d =
    let x = room len (length dest) in
    let n = if slen_less slen x then slen else x in
    let small : n ≤ x = ground arith in
    if_both (λ out. length out < len) (is_positive x) {x = dest ++ take n src} {y = dest}
      (λ t. omega (arith, room-length len (length dest) l (omega arith) t, cat-length dest src n))
      (λ f. d)

-- A buffer of `len` bytes below 2 ^ 63 that holds a string still holds one, with its NUL, after
-- HX_strlcat, after HX_strlncat with a limit below 2 ^ 63, and after HX_strlcpy.
pub strlcat-lt :
    (dest src : List ℕ) (len slen : ℕ)
    → len < 2 ^ 63
    → slen < 2 ^ 63
    → length dest < len
    → (length (strlcat dest src len) < len)
      × (length (strlncat dest src len slen) < len)
      × (length (strlcpy dest src len) < len)
unfolding strlcpy
strlcat-lt dest src len slen l sl d = (
  strlcat-fits dest src len l d,
  strlncat-fits dest src len slen l sl d,
  ground (arith, length-take (len - 1) src),
)

-- HX_substr_helper, for any offset and length and a string shorter than 2 ^ 63: the bytes that are to
-- be copied are within the string.
pub substr_helper-le :
    (z : ℕ) (offset len : Long)
    → z < 2 ^ 63
    → let (start, tocopy) = substr_helper z offset len in (tocopy ≡ 0) ⊎ (start + tocopy ≤ z)
unfolding substr_helper
substr_helper-le z offset len h = ground arith
