-- ===== src/Format/Fuel.antt =====
-- HXformat_aprintf of src/format.c ends, unless the search of HXparse_dequote_fmt does not.
use libhx.Format.Dequoted.{Ensures, Ensures-bind, Splits, dequote-Splits}
use libhx.Bytes.{codes, strcspn}
use libhx.Format.{
  Expansion, null, nexp, text, FuncEntry, World, FormatMap, entry_ops, Run, done, failed, overrun,
  hangs, no_fuel, ◌>>=◌, dequote, has_opener, step_over, delim_of, call_entry, lookup_var, name_end,
  or_null, args_loop, gather, xcall, behind_name, xany, appended, at_percent, aprintf_loop,
}
use libhx.Map.{map_get}
use libhx.Period.Ends.{skip_space-le}
use libhx.Period.{skip_space}
use libhx.Prelude.{
  ℕ, zero, suc, ◌+◌, ◌<◌, ◌≤◌, Option, List, [], ◌∷◌, ◌++◌, length, length-drop, take, drop, get_or,
  ◌==◌, if◌then◌else◌, if_both, arith,
}
use libhx.Text.{is_space}

abbrev Kept {ℓ} : {A : Type ℓ} → Run A → Type 0
Kept = Ensures (λ _. Unit)

-- what a pointer leaves is no longer than the string
abbrev Leaves {ℓ} : {A : Type ℓ} → ℕ → A × List ℕ → Type 0
Leaves k r = length r.1 ≤ k

Leaves-le {ℓ} :
    {A : Type ℓ} (j k : ℕ) (r : Run (A × List ℕ))
    → j ≤ k
    → Ensures (Leaves j) r
    → Ensures (Leaves k) r
Leaves-le j k (done a) l h = omega arith
Leaves-le j k failed l h = tt
Leaves-le j k overrun l h = tt
Leaves-le j k hangs l h = tt
Leaves-le j k no_fuel l h = h

module _ (w : World) (blk : FormatMap) (expand : List ℕ → Run (List ℕ)) where
  -- the inner HXformat_aprintf has fuel for texts of a length
  abbrev Expands : ℕ → Type 0
  Expands k = (f : List ℕ) → length f ≤ k → Kept (expand f)

  args_loop-Leaves :
      (k : ℕ) (delim s : List ℕ) (dq : List (List ℕ))
      → length s < k
      → Expands (length s)
      → Ensures (Leaves (length s)) (args_loop w blk expand k delim s dq)
  unfolding args_loop
  args_loop-Leaves zero delim s dq l ex = absurd (omega arith)
  args_loop-Leaves (suc k) delim [] dq l ex = omega arith
  args_loop-Leaves (suc k) delim (c ∷ s) dq l ex =
      let t = skip_space (c ∷ s) in
      let size = skip_space-le (c ∷ s) in
      Ensures-bind (Splits (length t)) (Leaves (suc (length s))) (dequote t delim) _
        (dequote-Splits t delim)
        (λ r split.
          Ensures-bind (λ _. Unit) (Leaves (suc (length s)))
            (if has_opener r.0 then expand r.0 else done r.0) _
            (if_both Kept (has_opener r.0) (λ _. ex r.0 (omega (arith, split, size))) (λ _. tt))
            (λ ret _. behind r.1 ret (omega (arith, split, size)) (λ rest dq' h.
              Leaves-le (length rest) (suc (length s)) (args_loop w blk expand k delim rest dq')
                (omega arith)
                (args_loop-Leaves k delim rest dq' (omega arith) (λ f g. ex f (omega arith))))))
    where
      behind :
          (rest ret : List ℕ)
          → length rest ≤ suc (length s)
          → ((t : List ℕ) (dq' : List (List ℕ))
              → length t ≤ length s
              → Ensures (Leaves (suc (length s))) (args_loop w blk expand k delim t dq'))
          → Ensures (Leaves (suc (length s))) (elim rest as (λ _. Run (List (List ℕ) × List ℕ)) [
            | [] ↦ done (dq ++ ret ∷ [], [])
            | e ∷ t ↦
                let more = args_loop w blk expand k delim t (dq ++ ret ∷ []) in
                if e == b')' then done (dq ++ ret ∷ [], t) else more
          ])
      behind [] ret h again = omega arith
      behind (e ∷ t) ret h again =
          if_both (Ensures (Leaves (suc (length s)))) (e == b')') (λ _. omega arith)
            (λ _. again t (dq ++ ret ∷ []) (omega arith))

  gather-Leaves :
      (delim s : List ℕ)
      → Expands (length s)
      → Ensures (Leaves (length s)) (gather w blk expand delim s)
  unfolding gather
  gather-Leaves delim s ex =
      if_both (Ensures (Leaves (length s))) (get_or s 0 0 == b')')
        (λ _. omega (arith, length-drop 1 s))
        (λ _. args_loop-Leaves (suc (length s)) delim s [] (omega arith) ex)

  xcall-Leaves :
      (name s : List ℕ)
      → Expands (length s)
      → Ensures (Leaves (length s)) (xcall w blk expand name s)
  unfolding xcall
  xcall-Leaves name s ex =
      let entry = map_get entry_ops blk.funcs name in
      called entry (gather w blk expand (delim_of entry) s) (gather-Leaves (delim_of entry) s ex)
    where
      called :
          (entry : Option FuncEntry) (r : Run (List (List ℕ) × List ℕ))
          → Ensures (Leaves (length s)) r
          → Ensures (Leaves (length s)) (elim r as (λ _. Run (Expansion × List ℕ)) [
            | done r ↦ done (call_entry w blk entry r.0, r.1)
            | failed ↦ done (null, s)
            | overrun ↦ overrun
            | hangs ↦ hangs
            | no_fuel ↦ no_fuel
          ])
      called entry (done r) h = h
      called entry failed h = omega arith
      called entry overrun h = tt
      called entry hangs h = tt
      called entry no_fuel h = h

  behind_name-Leaves :
      (name s : List ℕ) (k : ℕ)
      → length name + length s ≤ k
      → Expands k
      → Ensures (Leaves k) (behind_name w blk expand name s)
  unfolding behind_name
  behind_name-Leaves name [] k l ex = omega arith
  behind_name-Leaves name (c ∷ s) k l ex =
      if_both (Ensures (Leaves k)) (c == b')')
        (λ _.
          Ensures-bind (λ _. Unit) (Leaves k) (or_null (expand name) (lookup_var blk)) _
            (kept (expand name) (ex name (omega arith))) (λ x _. omega arith))
        (λ _.
          Leaves-le (length (skip_space (c ∷ s))) k (xcall w blk expand name (skip_space (c ∷ s)))
            (omega (arith, skip_space-le (c ∷ s)))
            (xcall-Leaves name (skip_space (c ∷ s))
              (λ f g. ex f (omega (arith, skip_space-le (c ∷ s))))))
    where
      kept : (r : Run (List ℕ)) → Kept r → Kept (or_null r (lookup_var blk))
      kept (done s) h = tt
      kept failed h = tt
      kept overrun h = tt
      kept hangs h = tt
      kept no_fuel h = h

  xany-Leaves :
      (s : List ℕ) → Expands (length s) → Ensures (Leaves (length s)) (xany w blk expand s)
  unfolding xany
  xany-Leaves [] ex =
      Ensures-bind (Splits 0) (Leaves 0) (dequote [] name_end) _ (dequote-Splits [] name_end)
        (λ r split. behind_name-Leaves r.0 r.1 0 split ex)
  xany-Leaves (c ∷ s) ex =
      if_both (Ensures (Leaves (suc (length s)))) (c == b')') (λ _. omega arith)
        (λ _.
          if_both (Ensures (Leaves (suc (length s)))) (is_space c)
            (λ _.
              Ensures-bind (Splits (length (skip_space (c ∷ s)))) (Leaves (suc (length s)))
                (dequote (skip_space (c ∷ s)) (codes ")")) _
                (dequote-Splits (skip_space (c ∷ s)) (codes ")"))
                (λ r split. stepped r.1 (omega (arith, split, skip_space-le (c ∷ s)))))
            (λ _.
              Ensures-bind (Splits (suc (length s))) (Leaves (suc (length s)))
                (dequote (c ∷ s) name_end) _ (dequote-Splits (c ∷ s) name_end)
                (λ r split. behind_name-Leaves r.0 r.1 (suc (length s)) split ex)))
    where
      stepped :
          (rest : List ℕ)
          → length rest ≤ suc (length s)
          → Ensures (Leaves (suc (length s))) (step_over rest >>= λ t. done (nexp, t))
      stepped [] h = tt
      stepped (x ∷ rest) h = omega arith

module _ (w : World) (blk : FormatMap) where
  at_percent-Kept :
      (any : List ℕ → Run (Expansion × List ℕ)) (again : List ℕ → List ℕ → Run (List ℕ))
      (s out : List ℕ) (n : ℕ)
      → length s ≤ n
      → ((t : List ℕ) → length t < n → Ensures (Leaves (length t)) (any t))
      → ((t o : List ℕ) → length t < n → Kept (again t o))
      → Kept (at_percent w blk any again s out)
  unfolding at_percent
  at_percent-Kept any again [] out n l a g = tt
  at_percent-Kept any again (p ∷ []) out n l a g = tt
  at_percent-Kept any again (p ∷ c ∷ s) out n l a g =
      if_both Kept (c == b'(')
        (λ _.
          Ensures-bind (Leaves (length s)) (λ _. Unit) (any s) (appended w blk again out)
            (a s (omega arith)) (λ r h. joined r.0 r.1 h))
        (λ _. g s (out ++ p ∷ c ∷ []) (omega arith))
    where
      joined :
          (x : Expansion) (rest : List ℕ)
          → length rest ≤ length s
          → Kept (appended w blk again out (x, rest))
      joined null rest h = tt
      joined nexp rest h = g rest out (omega arith)
      joined (text t) rest h = g rest (out ++ t) (omega arith)

  pub aprintf_loop-Kept :
      (n : ℕ) (fmt out : List ℕ) → length fmt < n → Kept (aprintf_loop w blk n fmt out)
  unfolding aprintf_loop
  aprintf_loop-Kept zero fmt out l = absurd (omega arith)
  aprintf_loop-Kept (suc n) fmt out l =
      let k = strcspn fmt (b'%' ∷ []) in
      at_percent-Kept (xany w blk (λ f. aprintf_loop w blk n f [])) (aprintf_loop w blk n)
        (drop k fmt) (out ++ take k fmt) n (omega (arith, length-drop k fmt))
        (λ t lt.
          xany-Leaves w blk (λ f. aprintf_loop w blk n f []) t
            (λ f lf. aprintf_loop-Kept n f [] (omega arith)))
        (λ t o lt. aprintf_loop-Kept n t o lt)
