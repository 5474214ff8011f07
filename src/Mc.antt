-- ===== src/Mc.antt =====
-- The memory container of src/mc.c (hxmc_t). The memory of struct memcont behind the pointer is the
-- list `bytes` of all that it holds, those behind the text included, and a write past its end makes the
-- list longer. `fresh` gives the bytes of new memory by position, since malloc and realloc leave them
-- undefined; `memory` says whether they succeed. Objects are valid (HXmc_check passes). The sizes of
-- HXmc_memdel wrap at 2 ^ 64; those of the other functions are not bounded.
pub mod Write
pub mod Holds
pub mod Delete
pub mod Tests
use libhx.Prelude.{
  ℕ, zero, suc, ◌+◌, ◌-◌, ◌%◌, ◌^◌, ◌≡◌, Bool, true, false, Option, none, some, List, [], ◌∷◌, ◌++◌,
  length, take, drop, ltb, leb, if◌then◌else◌,
}

-- `struct memcont`
pub record Memcont : Type 0 where
  pub alloc : ℕ
  pub length : ℕ
  pub bytes : List ℕ

-- the bytes `n` to `n + k - 1` of new memory
unfoldable pub fresh_bytes : (ℕ → ℕ) → ℕ → ℕ → List ℕ
fresh_bytes fresh n zero = []
fresh_bytes fresh n (suc k) = fresh n ∷ fresh_bytes fresh (suc n) k

-- `memcpy(bytes, bs, ...)`
unfoldable pub overlay : List ℕ → List ℕ → List ℕ
overlay [] d = d
overlay (b ∷ bs) [] = b ∷ bs
overlay (b ∷ bs) (x ∷ d) = b ∷ overlay bs d

-- `memcpy(bytes + p, bs, ...)`
unfoldable pub write : ℕ → List ℕ → List ℕ → List ℕ
unfolding overlay
write zero bs d = overlay bs d
write (suc p) bs [] = bs
write (suc p) bs (x ∷ d) = x ∷ write p bs d

module _ (fresh : ℕ → ℕ) where
  -- `realloc` to `len` when the container is smaller; `none` is NULL
  unfoldable pub reserve : Bool → Memcont → ℕ → Option Memcont
  unfolding fresh_bytes
  reserve memory c len =
      if ltb c.alloc len
      then (if memory
          then some (record c {
            alloc = len;
            bytes = c.bytes ++ fresh_bytes fresh (c.alloc + 1) (len - c.alloc);
          })
          else none)
      else some c

  -- the container for the data, of `HXmc_memcpy`
  unfoldable pub obtain : Bool → Option Memcont → ℕ → Option Memcont
  unfolding reserve fresh_bytes
  obtain memory (some c) len = reserve memory c len
  obtain memory none len =
      if memory
      then some (record { alloc = len; length = 0; bytes = fresh_bytes fresh 0 (len + 1) })
      else none

  -- `HXmc_memcpy` of the bytes of `ptr`
  unfoldable pub memcpy : Bool → Option Memcont → List ℕ → Option Memcont
  unfolding obtain write
  memcpy memory vp ptr = elim (obtain memory vp (length ptr)) [
    | none ↦ none
    | some c ↦ some (record c {
      length = length ptr;
      bytes = write (length ptr) (0 ∷ []) (write 0 ptr c.bytes);
    })
  ]

  -- `HXmc_memcpy` of NULL: an empty container with room for `len` bytes
  unfoldable pub memcpy_null : Bool → Option Memcont → ℕ → Option Memcont
  unfolding obtain write
  memcpy_null memory vp len = elim (obtain memory vp len) [
    | none ↦ none
    | some c ↦ some (record c { length = 0; bytes = write 0 (0 ∷ []) c.bytes })
  ]

  -- `HXmc_strinit`
  unfoldable pub strinit : Bool → List ℕ → Option Memcont
  unfolding memcpy memcpy_null
  strinit memory s =
      if ltb (length s) 23
      then elim (memcpy_null memory none 23) [ none ↦ none | some c ↦ memcpy memory (some c) s ]
      else memcpy memory none s

  -- `HXmc_meminit`
  unfoldable pub meminit : Bool → List ℕ → Option Memcont
  unfolding memcpy
  meminit memory ptr = memcpy memory none ptr

  -- `HXmc_memcat`
  unfoldable pub memcat : Bool → Memcont → List ℕ → Option Memcont
  unfolding reserve write
  memcat memory c ptr =
      let nl = c.length + length ptr in
      elim (reserve memory c nl) [
        | none ↦ none
        | some c' ↦
            some
              (record c' { length = nl; bytes = write nl (0 ∷ []) (write c'.length ptr c'.bytes) })
      ]

  -- `HXmc_memins`; the two moves in turn
  unfoldable pub memins : Bool → Memcont → ℕ → List ℕ → Option Memcont
  unfolding reserve write
  memins memory c pos ptr =
      let nl = c.length + length ptr in
      elim (reserve memory c nl) [
        | none ↦ none
        | some c' ↦ some (record c' {
          length = nl;
          bytes = write nl (0 ∷ []) (
              write pos ptr
                (write (pos + length ptr) (take (c'.length - pos) (drop pos c'.bytes)) c'.bytes));
        })
      ]

  -- `HXmc_mempcat`
  unfoldable pub mempcat : Bool → Memcont → List ℕ → Option Memcont
  unfolding memins
  mempcat memory c ptr = memins memory c 0 ptr

  -- `HXmc_trunc`
  unfoldable pub trunc : Bool → Memcont → ℕ → Option Memcont
  unfolding reserve write
  trunc memory c len =
      if ltb c.alloc len
      then reserve memory c len
      else some (record c { length = len; bytes = write len (0 ∷ []) c.bytes })

  -- `HXmc_setlen`
  unfoldable pub setlen : Bool → Memcont → ℕ → Option Memcont
  unfolding trunc
  setlen memory c len = elim (trunc memory c len) [
    | none ↦ none
    | some c' ↦ some (record c' { length = len })
  ]

-- The part of `HXmc_memdel` behind its test; sizes and offsets wrap as a size_t does.
unfoldable pub cut_out : Memcont → ℕ → ℕ → Memcont
unfolding write
cut_out c pos len =
    let left = (c.length + 2 ^ 64 - len) % 2 ^ 64 in
    let count = (c.length + 2 ^ 64 + 2 ^ 64 - pos - len) % 2 ^ 64 in
    record c {
      length = left;
      bytes =
          write left (0 ∷ [])
            (write pos (take count (drop ((pos + len) % 2 ^ 64) c.bytes)) c.bytes);
    }

-- `HXmc_memdel`. Where `pos + len` wraps, `len` is not clipped.
unfoldable pub memdel : Memcont → ℕ → ℕ → Memcont
unfolding cut_out
memdel c pos len =
    cut_out c pos
      (if ltb c.length ((pos + len) % 2 ^ 64) then (c.length + 2 ^ 64 - pos) % 2 ^ 64 else len)
