-- ===== src/Mc/Holds.antt =====
-- The memory containers of src/mc.c as byte strings: what each operation makes of the text, and that
-- no write leaves the container's memory.
use libhx.Prelude.{
  ℕ, ◌+◌, ◌-◌, ◌≤◌, ◌<◌, ◌≡◌, refl, ap, sym, ◌∙◌, true, false, inl, inr, Bool-cases, Option, none,
  some, List, [], ◌∷◌, ◌++◌, length, length-append, length-take, length-drop, take, drop, get_or,
  ltb, if◌then◌else◌, arith,
}
use libhx.Mc.Write.{
  length-fresh_bytes, length-write, take-write, take-write_before, get_or-write, write-append,
  take-append, take-take, drop-take,
}
use libhx.Mc.{Memcont, fresh_bytes, write, reserve, obtain, memcpy, memcat, memins, trunc}

-- The text, the NUL behind it, and the memory: one byte more than `alloc`.
pub record Holds (c : Memcont) (t : List ℕ) : Type 0 where
  pub text : take c.length c.bytes ≡ t
  pub nul : get_or c.bytes c.length 1 ≡ 0
  pub size : length c.bytes ≡ c.alloc + 1
  pub fits : c.length ≤ c.alloc

-- the operation succeeds, with this text
abbrev pub Gives : Option Memcont → List ℕ → Type 0
Gives o t = (c : Memcont) × (o ≡ some c) × Holds c t

-- the last step of each operation: the length and the NUL
pub terminate :
    (a n : ℕ) (d t : List ℕ)
    → length d ≡ a + 1
    → n ≤ a
    → take n d ≡ t
    → Holds (record { alloc = a; length = n; bytes = write n (0 ∷ []) d }) t
terminate a n d t size fits text = record {
  text = take-write_before n n (0 ∷ []) d (omega arith) (omega arith) ∙ text;
  nul = get_or-write n 0 1 d (omega arith);
  size = length-write n (0 ∷ []) d (omega arith) ∙ size;
  fits = fits;
}

-- more room with the same text
record Reserved (c c' : Memcont) (n : ℕ) : Type 0 where
  pub kept : c'.length ≡ c.length
  pub text : take c.length c'.bytes ≡ take c.length c.bytes
  pub size : length c'.bytes ≡ c'.alloc + 1
  pub room : n ≤ c'.alloc
  pub fits : c.length ≤ c'.alloc

module _ (fresh : ℕ → ℕ) where
  reserve-Reserved :
      (c : Memcont) (n : ℕ)
      → length c.bytes ≡ c.alloc + 1
      → c.length ≤ c.alloc
      → (c' : Memcont) × (reserve fresh true c n ≡ some c') × Reserved c c' n
  unfolding reserve
  reserve-Reserved c n size fits = elim (Bool-cases (ltb c.alloc n)) [
    | inl t ↦
        let d = c.bytes ++ fresh_bytes fresh (c.alloc + 1) (n - c.alloc) in
        let more : c.alloc < n = ground arith in
        (
          record c { alloc = n; bytes = d },
          rw t,
          record {
            kept = refl;
            text = take-append c.length c.bytes _ (omega arith);
            size = omega (
              arith,
              length-append {0} c.bytes (fresh_bytes fresh (c.alloc + 1) (n - c.alloc)),
              length-fresh_bytes fresh (c.alloc + 1) (n - c.alloc),
            );
            room = omega arith;
            fits = omega arith;
          },
        )
    | inr f ↦
        let enough : n ≤ c.alloc = ground arith in
        (c, rw f, record { kept = refl; text = refl; size = size; room = enough; fits = fits })
  ]

  -- HXmc_memcat with memory, on a container that holds a text, gives one that holds the text and then
  -- the appended bytes, whether it has to grow or not.
  pub memcat-Gives :
      (c : Memcont) (t ptr : List ℕ) → Holds c t → Gives (memcat fresh true c ptr) (t ++ ptr)
  unfolding memcat
  memcat-Gives c t ptr h =
      let n = c.length + length ptr in
      let (c', e, r) = reserve-Reserved c n h.size h.fits in
      let d = write c'.length ptr c'.bytes in
      (
        record c' { length = n; bytes = write n (0 ∷ []) d },
        ap
            (λ r. elim r as (λ _. Option Memcont) [
              | none ↦ none
              | some x ↦
                  some
                    (record x { length = n; bytes = write n (0 ∷ []) (write x.length ptr x.bytes) })
            ])
            e,
        terminate c'.alloc n d (t ++ ptr)
            (length-write c'.length ptr c'.bytes (omega (arith, r.kept, r.size, r.room)) ∙ r.size)
            r.room
            (take-write n c'.length ptr c'.bytes (omega (arith, r.kept))
                (omega (arith, r.kept, r.size, r.fits))
              ∙ ap (λ m. take m c'.bytes ++ ptr) r.kept
              ∙ ap (λ s. s ++ ptr) (r.text ∙ h.text)),
      )

  -- HXmc_memins with memory, on a container that holds a text and at a position in it, gives one that
  -- holds the text with the bytes inserted there.
  pub memins-Gives :
      (c : Memcont) (t ptr : List ℕ) (pos : ℕ)
      → Holds c t
      → pos ≤ length t
      → Gives (memins fresh true c pos ptr) (take pos t ++ (ptr ++ drop pos t))
  unfolding memins
  memins-Gives c t ptr pos h l =
      let n = c.length + length ptr in
      let (c', e, r) = reserve-Reserved c n h.size h.fits in
      let tail = take (c'.length - pos) (drop pos c'.bytes) in
      let d = write pos ptr (write (pos + length ptr) tail c'.bytes) in
      let whole : take c'.length c'.bytes ≡ t =
        ap (λ m. take m c'.bytes) r.kept ∙ r.text ∙ h.text in
      let inside : pos ≤ c'.length =
        omega (arith, length-take c'.length c'.bytes, ap length whole) in
      let tail_length : length tail ≡ c'.length - pos = omega (
        arith,
        length-take (c'.length - pos) (drop pos c'.bytes),
        length-drop pos c'.bytes,
        r.size,
        r.kept,
        r.fits,
      ) in
      let one : d ≡ write pos (ptr ++ tail) c'.bytes =
        write-append pos (pos + length ptr) ptr tail c'.bytes refl
          (omega (arith, r.size, r.room, r.kept)) in
      let both : length (ptr ++ tail) ≡ length ptr + (c'.length - pos) =
        omega (arith, length-append {0} ptr tail, tail_length) in
      (
        record c' { length = n; bytes = write n (0 ∷ []) d },
        ap
            (λ r. elim r as (λ _. Option Memcont) [
              | none ↦ none
              | some x ↦ some (record x {
                length = n;
                bytes = write n (0 ∷ []) (
                    write pos ptr (
                      write (pos + length ptr) (take (x.length - pos) (drop pos x.bytes)) x.bytes));
              })
            ])
            e,
        terminate c'.alloc n d (take pos t ++ (ptr ++ drop pos t))
            (ap length one
              ∙ length-write pos (ptr ++ tail) c'.bytes
                  (omega (arith, r.size, r.room, r.kept, both))
              ∙ r.size)
            r.room
            (ap (λ b. take n b) one
              ∙ take-write n pos (ptr ++ tail) c'.bytes (omega (arith, both, r.kept))
                  (omega (arith, r.size, r.fits, r.kept))
              ∙ ap (λ a. a ++ (ptr ++ tail))
                  (sym (take-take pos c'.length c'.bytes inside) ∙ ap (take pos) whole)
              ∙ ap (λ a. take pos t ++ (ptr ++ a))
                  (sym (drop-take pos c'.length c'.bytes) ∙ ap (drop pos) whole)),
      )

  -- HXmc_memcpy with memory, on a container that exists, gives one that holds exactly the copied bytes.
  pub memcpy-Gives :
      (c : Memcont) (t ptr : List ℕ) → Holds c t → Gives (memcpy fresh true (some c) ptr) ptr
  unfolding memcpy obtain
  memcpy-Gives c t ptr h =
      let n = length ptr in
      let (c', e, r) = reserve-Reserved c n h.size h.fits in
      let d = write 0 ptr c'.bytes in
      (
        record c' { length = n; bytes = write n (0 ∷ []) d },
        ap
            (λ r. elim r as (λ _. Option Memcont) [
              | none ↦ none
              | some x ↦
                  some (record x { length = n; bytes = write n (0 ∷ []) (write 0 ptr x.bytes) })
            ])
            e,
        terminate c'.alloc n d ptr
            (length-write 0 ptr c'.bytes (omega (arith, r.size, r.room)) ∙ r.size) r.room
            (take-write n 0 ptr c'.bytes (omega arith) (omega arith)),
      )

  -- HXmc_trunc to a length within the text, with memory, gives a container with that much of the text.
  pub trunc-Gives :
      (c : Memcont) (t : List ℕ) (n : ℕ)
      → Holds c t
      → n ≤ length t
      → Gives (trunc fresh true c n) (take n t)
  unfolding trunc
  trunc-Gives c t n h l =
      let shorter : n ≤ c.length = omega (arith, length-take c.length c.bytes, ap length h.text) in
      let below : n ≤ c.alloc = omega (arith, h.fits) in
      let no_room_needed : ltb c.alloc n ≡ false = ground arith in
      (
        record c { length = n; bytes = write n (0 ∷ []) c.bytes },
        ap
            (λ b.
              if b
              then reserve fresh true c n
              else some (record c { length = n; bytes = write n (0 ∷ []) c.bytes }))
            no_room_needed,
        terminate c.alloc n c.bytes (take n t) h.size (omega (arith, h.fits))
            (sym (take-take n c.length c.bytes shorter) ∙ ap (take n) h.text),
      )
