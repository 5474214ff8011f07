-- ===== src/Opt/Lookup.antt =====
-- lookup_long_pfx of src/opt.c against the list of the entries that have the key as a prefix.
use libhx.Opt.{
  HxOption, LongMatch, no_match, ambig_prefix, match_, Prefix, unlike, longer, exact, after_prefix,
  prefix_of_rest, prefix_kind, pfx_loop, lookup_long_pfx,
}
use libhx.Prelude.{
  ◌≡◌, ◌≢◌, refl, ap, ◌∙◌, ℕ, Bool, true, false, Option, none, some, List, [], ◌∷◌, ◌++◌,
  append-nil, get_or, drop, ◌==◌, Bool-cases, inl, inr, arith,
}

-- The entries of a table whose name starts with the key, in order, each with whether the name is the
-- key.
pub data Candidates (key : List ℕ) : List HxOption → List (HxOption × Bool) → Type 0 where
  c_end : Candidates key [] []
  c_other :
      {table : List HxOption} {cs : List (HxOption × Bool)} (d : HxOption)
      → ((rest : List ℕ) → d.ln ≢ some (key ++ rest))
      → Candidates key table cs
      → Candidates key (d ∷ table) cs
  c_longer :
      {table : List HxOption} {cs : List (HxOption × Bool)} (d : HxOption) (c : ℕ) (rest : List ℕ)
      → d.ln ≡ some (key ++ c ∷ rest)
      → Candidates key table cs
      → Candidates key (d ∷ table) ((d, false) ∷ cs)
  c_exact :
      {table : List HxOption} {cs : List (HxOption × Bool)} (d : HxOption)
      → d.ln ≡ some key
      → Candidates key table cs
      → Candidates key (d ∷ table) ((d, true) ∷ cs)

-- What the candidates stand for: the first one, if it is the key; else the second one, if it is the
-- key; else the only one; two that are longer are ambiguous.
abbrev pub choose : List (HxOption × Bool) → LongMatch
choose [] = no_match
choose ((d, true) ∷ more) = match_ d
choose ((d, false) ∷ []) = match_ d
choose ((d, false) ∷ (e, true) ∷ more) = match_ e
choose ((d, false) ∷ (e, false) ∷ more) = ambig_prefix

-- what the loop does from a state with a candidate
abbrev choose_with : Option HxOption → List (HxOption × Bool) → LongMatch
choose_with none more = choose more
choose_with (some d) more = choose ((d, false) ∷ more)

-- what after_prefix says of a name
data After (key ln : List ℕ) : Option (List ℕ) → Type 0 where
  apart : ((rest : List ℕ) → ln ≢ key ++ rest) → After key ln none
  ahead : (rest : List ℕ) → ln ≡ key ++ rest → After key ln (some rest)

after_prefix-After : (key ln : List ℕ) → After key ln (after_prefix key ln)
unfolding after_prefix
after_prefix-After [] ln = ahead ln refl
after_prefix-After (c ∷ key) [] = apart (λ rest e. cc)
after_prefix-After (c ∷ key) (d ∷ ln) = elim (Bool-cases (c == d)) [
  | inl t ↦
      (let same : c ≡ d = ground (arith, t) in rw t (longer_by same _ (after_prefix-After key ln)))
  | inr f ↦ rw f (
      apart (λ rest e.
        (let same : d ≡ c = ap (λ l. get_or l 0 0) e in absurd (ground (arith, f, same)))))
]
  where
    longer_by : c ≡ d → (r : Option (List ℕ)) → After key ln r → After (c ∷ key) (d ∷ ln) r
    longer_by same _ (apart h) = apart (λ rest e. h rest (ap (drop 1) e))
    longer_by same _ (ahead rest e) = ahead rest (rw same (ap (λ l. d ∷ l) e))

-- the kinds of a name
data Named (key : List ℕ) (ln : Option (List ℕ)) : Prefix → Type 0 where
  is_unlike : ((rest : List ℕ) → ln ≢ some (key ++ rest)) → Named key ln unlike
  is_longer : (c : ℕ) (rest : List ℕ) → ln ≡ some (key ++ c ∷ rest) → Named key ln longer
  is_exact : ln ≡ some key → Named key ln exact

prefix_kind-Named : (key : List ℕ) (ln : Option (List ℕ)) → Named key ln (prefix_kind key ln)
unfolding prefix_kind
prefix_kind-Named key none = is_unlike (λ rest e. cc)
prefix_kind-Named key (some ln) = go (after_prefix key ln) (after_prefix-After key ln)
  where
    go : (r : Option (List ℕ)) → After key ln r → Named key (some ln) (prefix_of_rest r)
    go _ (apart h) = is_unlike (λ rest e. h rest cc)
    go _ (ahead [] e) = is_exact (ap some (e ∙ append-nil key))
    go _ (ahead (c ∷ rest) e) = is_longer c rest (ap some e)

-- The entries are the candidates of the table, and the loop chooses from them.
record Chosen (key : List ℕ) (table : List HxOption) : Type 0 where
  pub cs : List (HxOption × Bool)
  pub candidates : Candidates key table cs
  pub chosen : (cand : Option HxOption) → pfx_loop table key cand ≡ choose_with cand cs

pfx_loop-Chosen : (key : List ℕ) (table : List HxOption) → Chosen key table
unfolding pfx_loop
pfx_loop-Chosen key [] = record { cs = []; candidates = c_end; chosen = at_end }
  where
    at_end : (cand : Option HxOption) → pfx_loop [] key cand ≡ choose_with cand []
    at_end none = refl
    at_end (some d) = refl
pfx_loop-Chosen key (d ∷ table) =
    go (prefix_kind key d.ln) refl (prefix_kind-Named key d.ln) (pfx_loop-Chosen key table)
  where
    go :
        (p : Prefix)
        → prefix_kind key d.ln ≡ p
        → Named key d.ln p
        → Chosen key table
        → Chosen key (d ∷ table)
    go _ e (is_unlike h) r = record {
      cs = r.cs;
      candidates = c_other d h r.candidates;
      chosen = λ cand. rw (e, pfx_loop) (r.chosen cand);
    }
    go _ e (is_exact h) r = record {
      cs = (d, true) ∷ r.cs;
      candidates = c_exact d h r.candidates;
      chosen = found e;
    }
      where
        found :
            prefix_kind key d.ln ≡ exact
            → (cand : Option HxOption)
            → pfx_loop (d ∷ table) key cand ≡ choose_with cand ((d, true) ∷ r.cs)
        found e none = rw (e, pfx_loop) refl
        found e (some x) = rw (e, pfx_loop) refl
    go _ e (is_longer c rest h) r = record {
      cs = (d, false) ∷ r.cs;
      candidates = c_longer d c rest h r.candidates;
      chosen = kept e;
    }
      where
        kept :
            prefix_kind key d.ln ≡ longer
            → (cand : Option HxOption)
            → pfx_loop (d ∷ table) key cand ≡ choose_with cand ((d, false) ∷ r.cs)
        kept e none = rw (e, pfx_loop) (r.chosen (some d))
        kept e (some x) = rw (e, pfx_loop) refl

-- lookup_long_pfx looks at the entries whose name starts with the key, in the order of the table. It
-- returns the first one if its name is the key, else the second one if its name is the key, else the
-- first one if it is the only one, else the mark of an ambiguous prefix, even if the name of a later
-- entry is the key; without an entry it returns NULL.
pub lookup_long_pfx-choose :
    (table : List HxOption) (key : List ℕ)
    → (cs : List (HxOption × Bool)) × Candidates key table cs
      × (lookup_long_pfx table key ≡ choose cs)
unfolding lookup_long_pfx
lookup_long_pfx-choose table key =
    let r = pfx_loop-Chosen key table in (r.cs, r.candidates, r.chosen none)
