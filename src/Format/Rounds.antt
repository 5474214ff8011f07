-- ===== src/Format/Rounds.antt =====
-- The rounds of HXformat_aprintf of src/format.c on bytes, variables and calls with a plain argument.
use libhx.Bytes.{mem, count_while, strcspn}
use libhx.Format.Plain.{plain, dequote-plain, has_opener-plain, strcspn-plain}
use libhx.Format.{
  Expansion, FuncEntry, World, FormatMap, entry_ops, Run, done, ◌>>=◌, call_func, lookup_var,
  name_end, or_null, args_loop, gather, xcall_entry, xcall, behind_name, xany, appended, at_percent,
  aprintf_loop,
}
use libhx.Map.{map_get}
use libhx.Opt.Dequote.Shconf.{AllPass}
use libhx.Opt.Dequote.{f_ends, fmt_kind}
use libhx.Period.{skip_space}
use libhx.Prelude.{
  ℕ, zero, suc, ◌<◌, ◌≡◌, refl, ap, sym, ◌∙◌, subst, true, false, some, List, [], ◌∷◌, ◌++◌,
  append_assoc, append-nil, length, take, drop, ◌==◌, Bool-cases, inl, inr, arith,
}
use libhx.Text.{is_space}

-- a name, of bytes that are plain in front of the end of a name
abbrev pub IsName : List ℕ → Type 0
IsName [] = ⊥
IsName (c ∷ s) = AllPass (plain name_end) (c ∷ s)

-- an argument, of bytes that are plain in front of its delimiters, without white space in front
abbrev pub IsArgument : List ℕ → List ℕ → Type 0
IsArgument delim [] = ⊥
IsArgument delim (c ∷ s) = (is_space c ≡ false) × AllPass (plain delim) (c ∷ s)

closing-ends : (delim : List ℕ) → mem b')' delim ≡ true → fmt_kind (some delim) 0 0 b')' ≡ f_ends
unfolding fmt_kind
closing-ends delim h = rw h refl

space-ends : fmt_kind (some name_end) 0 0 32 ≡ f_ends
unfolding fmt_kind
space-ends = refl

module _ (w : World) (blk : FormatMap) where
  -- a text without percent signs is copied
  pub copied :
      (n : ℕ) (s out : List ℕ)
      → strcspn s (b'%' ∷ []) ≡ length s
      → aprintf_loop w blk (suc n) s out ≡ done (out ++ s)
  unfolding aprintf_loop at_percent
  copied n s out h = rw h (rw (drop-all s) (ap (λ t. done (out ++ t)) (take-all s)))
    where
      drop-all : (s : List ℕ) → drop (length s) s ≡ []
      drop-all [] = refl
      drop-all (c ∷ s) = drop-all s

      take-all : (s : List ℕ) → take (length s) s ≡ s
      take-all [] = refl
      take-all (c ∷ s) = ap (λ t. c ∷ t) (take-all s)

  -- a byte in front of the rest
  pub byte_copied :
      (n c : ℕ) (s out : List ℕ)
      → (c == b'%') ≡ false
      → aprintf_loop w blk (suc n) (c ∷ s) out ≡ aprintf_loop w blk (suc n) s (out ++ c ∷ [])
  unfolding aprintf_loop strcspn count_while
  byte_copied n c s out h = rw h (
      ap
        (at_percent w blk (xany w blk (λ f. aprintf_loop w blk n f [])) (aprintf_loop w blk n)
          (drop (strcspn s (b'%' ∷ [])) s))
        (sym (append_assoc out (c ∷ []) (take (strcspn s (b'%' ∷ [])) s))))

  pub percent_copied :
      (n c : ℕ) (s out : List ℕ)
      → (c == b'(') ≡ false
      → aprintf_loop w blk (suc n) (b'%' ∷ c ∷ s) out
        ≡ aprintf_loop w blk n s (out ++ b'%' ∷ c ∷ [])
  unfolding aprintf_loop strcspn count_while at_percent
  percent_copied n c s out h =
      rw h (ap (λ o. aprintf_loop w blk n s (o ++ b'%' ∷ c ∷ [])) (append-nil out))

  -- an expansion in front of the rest
  pub expanded :
      (n : ℕ) (s rest out : List ℕ) (x : Expansion)
      → xany w blk (λ f. aprintf_loop w blk n f []) s ≡ done (x, rest)
      → aprintf_loop w blk (suc n) (b'%' ∷ b'(' ∷ s) out
        ≡ appended w blk (aprintf_loop w blk n) out (x, rest)
  unfolding aprintf_loop strcspn count_while at_percent
  expanded n s rest out x h =
      rw (h, ◌>>=◌) (ap (λ o. appended w blk (aprintf_loop w blk n) o (x, rest)) (append-nil out))

  -- what follows `%(` and a name
  named :
      (expand : List ℕ → Run (List ℕ)) (name : List ℕ) (e : ℕ) (rest : List ℕ)
      → IsName name
      → fmt_kind (some name_end) 0 0 e ≡ f_ends
      → xany w blk expand (name ++ e ∷ rest) ≡ behind_name w blk expand name (e ∷ rest)
  unfolding xany
  named expand [] e rest h stop = absurd h
  named expand (c ∷ name) e rest h stop =
      let no_closing : (c == b')') ≡ false = ground (arith, h.0) in
      let solid : is_space c ≡ false = ground (arith, h.0) in
      rw no_closing (rw solid (rw (dequote-plain name_end (c ∷ name) e rest stop h, ◌>>=◌) refl))

  pub variable_at :
      (n : ℕ) (name rest : List ℕ)
      → IsName name
      → 0 < n
      → xany w blk (λ f. aprintf_loop w blk n f []) (name ++ b')' ∷ rest)
        ≡ done (lookup_var blk name, rest)
  unfolding behind_name
  variable_at n [] rest h l = absurd h
  variable_at zero (c ∷ name) rest h l = absurd (omega arith)
  variable_at (suc n) (c ∷ name) rest h l =
      named (λ f. aprintf_loop w blk (suc n) f []) (c ∷ name) b')' rest h
        (closing-ends name_end refl)
      ∙ rw (copied n (c ∷ name) [] (strcspn-plain name_end (c ∷ name) h), or_null) refl

  -- the single argument of a call
  gathered :
      (expand : List ℕ → Run (List ℕ)) (delim arg rest : List ℕ)
      → mem b')' delim ≡ true
      → IsArgument delim arg
      → gather w blk expand delim (arg ++ b')' ∷ rest) ≡ done (arg ∷ [], rest)
  unfolding gather args_loop skip_space
  gathered expand delim [] rest closing h = absurd h
  gathered expand delim (c ∷ arg) rest closing h =
      let no_closing : (c == b')') ≡ false = ground (arith, h.1, closing_apart c h.1.0) in
      rw no_closing (
        rw h.0 (
          rw (dequote-plain delim (c ∷ arg) b')' rest (closing-ends delim closing) h.1, ◌>>=◌)
            (rw (has_opener-plain delim (c ∷ arg) h.1) refl)))
    where
      closing_apart : (x : ℕ) → plain delim x ≡ true → (x == b')') ≡ false
      closing_apart x p = elim (Bool-cases (x == b')')) [
        | inl e ↦
            let same : x ≡ b')' = ground (arith, e) in
            absurd (ground (arith, subst (λ y. plain delim y ≡ true) same p, closing))
        | inr e ↦ e
      ]

  entry_found :
      (expand : List ℕ → Run (List ℕ)) (s rest arg : List ℕ) (f : FuncEntry)
      → gather w blk expand f.delim s ≡ done (arg ∷ [], rest)
      → xcall_entry w blk expand (some f) s ≡ done (call_func w blk f.proc (arg ∷ []), rest)
  unfolding xcall_entry
  entry_found expand s rest arg f h = rw (h, xcall_entry) refl

  call_found :
      (expand : List ℕ → Run (List ℕ)) (name s rest arg : List ℕ) (f : FuncEntry)
      → map_get entry_ops blk.funcs name ≡ some f
      → gather w blk expand f.delim s ≡ done (arg ∷ [], rest)
      → xcall w blk expand name s ≡ done (call_func w blk f.proc (arg ∷ []), rest)
  unfolding xcall
  call_found expand name s rest arg f found h =
      ap (λ e. xcall_entry w blk expand e s) found ∙ entry_found expand s rest arg f h

  pub call_at :
      (n : ℕ) (name arg rest : List ℕ) (f : FuncEntry)
      → IsName name
      → map_get entry_ops blk.funcs name ≡ some f
      → mem b')' f.delim ≡ true
      → IsArgument f.delim arg
      → xany w blk (λ g. aprintf_loop w blk n g []) (name ++ 32 ∷ (arg ++ b')' ∷ rest))
        ≡ done (call_func w blk f.proc (arg ∷ []), rest)
  unfolding behind_name skip_space
  call_at n name [] rest f h found closing a = absurd a
  call_at n name (c ∷ arg) rest f h found closing a =
      let expand : List ℕ → Run (List ℕ) = λ g. aprintf_loop w blk n g [] in
      named expand name 32 (c ∷ (arg ++ b')' ∷ rest)) h space-ends
      ∙ rw a.0 (
          call_found expand name (c ∷ (arg ++ b')' ∷ rest)) rest (c ∷ arg) f found
            (gathered expand f.delim (c ∷ arg) rest closing a))
