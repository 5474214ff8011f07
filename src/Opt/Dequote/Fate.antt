-- ===== src/Opt/Dequote/Fate.antt =====
-- The search loop of HXparse_dequote_fmt of src/opt.c: it ends after at most as many rounds as the
-- string has bytes, or it never does.
use libhx.Opt.Dequote.{
  FmtKind, f_opens, f_escapes, f_nests, f_ends, f_unnests, f_skips, f_closes, f_quoted_escape,
  fmt_kind, fmt_scan,
}
use libhx.Prelude.{
  ℕ, zero, suc, ◌-◌, ◌<◌, ◌≡◌, refl, ap, sym, ◌∙◌, Option, none, some, List, [], ◌∷◌, ◌++◌,
  append_assoc, length, arith,
}

module _ (end : Option (List ℕ)) where
  -- the two fates of a run
  pub data Fate (quot level : ℕ) (s : List ℕ) : Type 0 where
    ends :
        (r : List ℕ)
        → ((n : ℕ) → length s < n → fmt_scan n end quot level s ≡ some r)
        → Fate quot level s
    hangs :
        (p : List ℕ)
        → s ≡ p ++ b'\\' ∷ []
        → ((n : ℕ) → fmt_scan n end quot level s ≡ none)
        → Fate quot level s

  out_of_fuel : (quot level : ℕ) (s : List ℕ) → fmt_scan 0 end quot level s ≡ none
  unfolding fmt_scan
  out_of_fuel quot level s = refl

  -- a round that goes on with a shorter string
  Fate-round :
      (quot level : ℕ) (s : List ℕ) (quot' level' : ℕ) (q t : List ℕ)
      → s ≡ q ++ t
      → length t < length s
      → ((n : ℕ) → fmt_scan (suc n) end quot level s ≡ fmt_scan n end quot' level' t)
      → Fate quot' level' t
      → Fate quot level s
  Fate-round quot level s quot' level' q t p h e (ends r f) = ends r after
    where
      after : (n : ℕ) → length s < n → fmt_scan n end quot level s ≡ some r
      after zero k = absurd (omega arith)
      after (suc n) k = e n ∙ f n (omega arith)
  Fate-round quot level s quot' level' q t p h e (hangs p' p'' f) =
      hangs (q ++ p') (p ∙ ap (λ x. q ++ x) p'' ∙ sym (append_assoc q p' (b'\\' ∷ []))) never
    where
      never : (n : ℕ) → fmt_scan n end quot level s ≡ none
      never zero = out_of_fuel quot level s
      never (suc n) = e n ∙ f n

  -- a backslash at the end, outside of quotation marks
  backslash-hangs :
      (quot level c : ℕ)
      → fmt_kind end quot level c ≡ f_escapes
      → (n : ℕ) → fmt_scan n end quot level (c ∷ []) ≡ none
  unfolding fmt_scan
  backslash-hangs quot level c h zero = refl
  backslash-hangs quot level c h (suc n) = rw (h, fmt_scan) (backslash-hangs quot level c h n)

  escape_of_kind : (quot level c : ℕ) → fmt_kind end quot level c ≡ f_escapes → c ≡ b'\\'
  unfolding fmt_kind
  escape_of_kind quot level c h = ground (arith, h)

  stops :
      (quot level c : ℕ) (s : List ℕ)
      → fmt_kind end quot level c ≡ f_ends
      → (n : ℕ) → length (c ∷ s) < n
      → fmt_scan n end quot level (c ∷ s) ≡ some (c ∷ s)
  unfolding fmt_scan
  stops quot level c s h zero k = absurd (omega arith)
  stops quot level c s h (suc n) k = rw (h, fmt_scan) refl

  at_end : (quot level n : ℕ) → 0 < n → fmt_scan n end quot level [] ≡ some []
  unfolding fmt_scan
  at_end quot level zero k = absurd (omega arith)
  at_end quot level (suc n) k = refl

  round_of :
      (quot level c : ℕ) (s : List ℕ) (k : FmtKind)
      → fmt_kind end quot level c ≡ k
      → ((quot' level' : ℕ) (t : List ℕ) → length t < suc (length s) → Fate quot' level' t)
      → Fate quot level (c ∷ s)
  unfolding fmt_scan
  round_of quot level c s f_opens h shorter =
      Fate-round quot level (c ∷ s) c level (c ∷ []) s refl (omega arith)
        (λ n. rw (h, fmt_scan) refl) (shorter c level s (omega arith))
  round_of quot level c [] f_escapes h shorter =
      hangs [] (ap (λ x. x ∷ []) (escape_of_kind quot level c h)) (backslash-hangs quot level c h)
  round_of quot level c (d ∷ t) f_escapes h shorter =
      Fate-round quot level (c ∷ d ∷ t) quot level (c ∷ d ∷ []) t refl (omega arith)
        (λ n. rw (h, fmt_scan) refl) (shorter quot level t (omega arith))
  round_of quot level c s f_nests h shorter =
      Fate-round quot level (c ∷ s) quot (suc level) (c ∷ []) s refl (omega arith)
        (λ n. rw (h, fmt_scan) refl) (shorter quot (suc level) s (omega arith))
  round_of quot level c s f_ends h shorter = ends (c ∷ s) (stops quot level c s h)
  round_of quot level c s f_unnests h shorter =
      Fate-round quot level (c ∷ s) quot (level - 1) (c ∷ []) s refl (omega arith)
        (λ n. rw (h, fmt_scan) refl) (shorter quot (level - 1) s (omega arith))
  round_of quot level c s f_skips h shorter =
      Fate-round quot level (c ∷ s) quot level (c ∷ []) s refl (omega arith)
        (λ n. rw (h, fmt_scan) refl) (shorter quot level s (omega arith))
  round_of quot level c s f_closes h shorter =
      Fate-round quot level (c ∷ s) 0 level (c ∷ []) s refl (omega arith)
        (λ n. rw (h, fmt_scan) refl) (shorter 0 level s (omega arith))
  round_of quot level c [] f_quoted_escape h shorter =
      Fate-round quot level (c ∷ []) quot level (c ∷ []) [] refl (omega arith)
        (λ n. rw (h, fmt_scan) refl) (shorter quot level [] (omega arith))
  round_of quot level c (d ∷ t) f_quoted_escape h shorter =
      Fate-round quot level (c ∷ d ∷ t) quot level (c ∷ d ∷ []) t refl (omega arith)
        (λ n. rw (h, fmt_scan) refl) (shorter quot level t (omega arith))

  fates : (m quot level : ℕ) (s : List ℕ) → length s < m → Fate quot level s
  fates zero quot level s h = absurd (omega arith)
  fates (suc m) quot level [] h = ends [] (at_end quot level)
  fates (suc m) quot level (c ∷ s) h =
      round_of quot level c s (fmt_kind end quot level c) refl
        (λ q l t k. fates m q l t (omega arith))

  -- The search of HXparse_dequote_fmt, from any state on any string, either ends with the same result
  -- on every fuel above the length of the string, or the string ends in a backslash and the search
  -- never ends: it runs out of any fuel.
  pub fmt_scan-Fate : (quot level : ℕ) (s : List ℕ) → Fate quot level s
  fmt_scan-Fate quot level s = fates (suc (length s)) quot level s (omega arith)

  -- The search of HXparse_dequote_fmt never ends on a backslash at the end of the string, outside of
  -- quotation marks, whatever the terminating characters and the nesting.
  pub fmt_scan-never : (n level : ℕ) → fmt_scan n end 0 level (b'\\' ∷ []) ≡ none
  unfolding fmt_kind
  fmt_scan-never n level = backslash-hangs 0 level b'\\' refl n
