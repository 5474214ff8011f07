-- ===== src/Opt/Shconfig/Contents.antt =====
-- What HX_shconfig_map of src/opt.c makes of a file: which pairs the map holds.
use libhx.Map.Init.{map_init, map_init5, init4}
use libhx.Map.{hash, map_add}
use libhx.Opt.Shconfig.Ends.{shconf_pairs-ends}
use libhx.Opt.Shconfig.{shconf_pairs, assign_pairs, read_map, shconfig_map, string_flags}
use libhx.Ops.ByString.{by_string, by_string-IsLawful}
use libhx.Ops.{fail, enomem, noreplace, singular}
use libhx.Prelude.{
  ℕ, suc, ◌+◌, ◌-◌, ◌&&◌, leb, ltb, length, ◌≡◌, ◌≢◌, refl, ap, sym, ◌∙◌, subst, Bool, true, false,
  not, if_both, if◌then◌else◌, Option, none, some, List, [], ◌∷◌, arith,
}
use libhx.Umap.Change.{change}
use libhx.Umap.Refine.{add_view_at, is_short, add-AddRefines}
use libhx.Umap.Buckets.{find_in-replicate}
use libhx.Umap.Valid.{IsValid, init-IsValid}
use libhx.Umap.{
  Umap, UmapAdded, is_at, hash_primes, prime, bk_idx, find, replace, layout, resize, add_node, add,
  init,
}

abbrev pub Pair : Type 0
Pair = List ℕ × List ℕ

-- The pairs in their order, from the call `n` on, where one is left out only if memory is missing at its
-- call.
pub data Selected (memory : ℕ → Bool × Bool) : ℕ → List Pair → List Pair → Type 0 where
  selected_end : {n : ℕ} → Selected memory n [] []
  taken :
      {n : ℕ} {ps qs : List Pair} (p : Pair)
      → Selected memory (suc n) ps qs
      → Selected memory n (p ∷ ps) (p ∷ qs)
  left_out :
      {n : ℕ} {ps qs : List Pair} (p : Pair)
      → memory n ≢ (true, true)
      → Selected memory (suc n) ps qs
      → Selected memory n ps (p ∷ qs)

-- the last of the pairs with a key, or `r`
unfoldable pub latest : List ℕ → List Pair → Option Pair → Option Pair
latest q [] r = r
latest q (p ∷ ps) r = latest q ps (if is_at by_string q p then some p else r)

-- A map that was seen as `w` has been changed by the pairs whose calls, from `n` on, had memory and
-- maybe by others, and by all of them if there is always memory.
pub record Assigned (memory : ℕ → Bool × Bool) (n : ℕ) (pairs : List Pair)
    (w : List ℕ → Option Pair) (m' : Umap (List ℕ) (List ℕ)) : Type 0 where
  pub kept : List Pair
  pub selected : Selected memory n kept pairs
  pub view : (q : List ℕ) → find by_string m' q ≡ latest q kept (w q)
  pub all : ((i : ℕ) → memory i ≡ (true, true)) → kept ≡ pairs
  pub valid : IsValid by_string m'

module _ (m : Umap (List ℕ) (List ℕ)) where
  -- an operation leaves the flags
  HasFlags : Umap (List ℕ) (List ℕ) → Type 0
  HasFlags m' = m'.flags ≡ m.flags

  AllFlags : Option (Umap (List ℕ) (List ℕ)) → Type 0
  AllFlags none = Unit
  AllFlags (some m') = HasFlags m'

  AddedFlags : UmapAdded (List ℕ) (List ℕ) → Type 0
  AddedFlags a = HasFlags a.map

  same_flags : HasFlags m
  unfolding HasFlags
  same_flags = refl

  some_flags : AllFlags (some m)
  unfolding AllFlags
  some_flags = same_flags

  layout-flags : (a : Bool) (power : ℕ) → AllFlags (layout by_string a m power)
  unfolding layout AllFlags HasFlags
  layout-flags true power = refl
  layout-flags false power = tt

  -- the conditions of the two new layouts
  abbrev grows : Bool
  grows = leb m.max_load m.items && ltb m.power (length hash_primes - 1)

  abbrev shrinks : Bool
  shrinks = ltb m.items m.min_load && ltb 0 m.power

  resize-flags : (a : Bool) → AllFlags (resize by_string a m)
  unfolding resize
  resize-flags a =
      if_both AllFlags grows (λ _. layout-flags a (m.power + 1))
        (λ _. if_both AllFlags shrinks (λ _. layout-flags a (m.power - 1)) (λ _. some_flags))

  add_node-flags :
      (b : Bool) (m' : Umap (List ℕ) (List ℕ)) (key value : List ℕ)
      → HasFlags m'
      → AddedFlags (add_node by_string b m' key value)
  unfolding add_node by_string AddedFlags HasFlags
  add_node-flags true m' key value h = h
  add_node-flags false m' key value h = h

  replace-flags : (key old value : List ℕ) → AddedFlags (replace by_string m key old value)
  unfolding replace by_string AddedFlags HasFlags
  replace-flags key old value =
      if_both (λ (x : UmapAdded (List ℕ) (List ℕ)). x.map.flags ≡ m.flags) (noreplace m.flags)
        (λ _. refl) (λ _. refl)

  sized-flags :
      (b : Bool) (key value : List ℕ) (r : Option (Umap (List ℕ) (List ℕ)))
      → AllFlags r
      → AddedFlags (elim r as (λ _. UmapAdded (List ℕ) (List ℕ)) [
        | none ↦ record { ret = fail enomem; map = m; released = [] }
        | some m' ↦ add_node by_string b m' key value
      ])
  unfolding AllFlags AddedFlags
  sized-flags b key value none h = same_flags
  sized-flags b key value (some m') h = add_node-flags b m' key value h

  add-flags : (a b : Bool) (key value : List ℕ) → AddedFlags (add by_string a b m key value)
  unfolding add
  add-flags a b key value = go (find by_string m key)
    where
      go :
          (r : Option Pair)
          → AddedFlags (elim r as (λ _. UmapAdded (List ℕ) (List ℕ)) [
            | some e ↦ replace by_string m key e.1 value
            | none ↦ elim (resize by_string a m) as (λ _. UmapAdded (List ℕ) (List ℕ)) [
              | none ↦ record { ret = fail enomem; map = m; released = [] }
              | some m' ↦ add_node by_string b m' key value
            ]
          ])
      go none = sized-flags b key value (resize by_string a m) (resize-flags a)
      go (some e) = replace-flags key e.1 value

  -- with memory, an addition is not short of it
  HasRoom : Option (Umap (List ℕ) (List ℕ)) → Type 0
  HasRoom r = (elim r as (λ _. Bool) [ none ↦ true | some m' ↦ not true ]) ≡ false

  layout-HasRoom : (power : ℕ) → HasRoom (layout by_string true m power)
  unfolding layout HasRoom
  layout-HasRoom power = refl

  some-HasRoom : HasRoom (some m)
  unfolding HasRoom
  some-HasRoom = refl

  resize-HasRoom : HasRoom (resize by_string true m)
  unfolding resize
  resize-HasRoom =
      if_both HasRoom grows (λ _. layout-HasRoom (m.power + 1))
        (λ _. if_both HasRoom shrinks (λ _. layout-HasRoom (m.power - 1)) (λ _. some-HasRoom))

  is_short-memory : is_short by_string true true m ≡ false
  unfolding HasRoom resize
  is_short-memory = resize-HasRoom

-- what one addition makes of the lookups: nothing, or the pair is there
record Stepped (a b : Bool) (m : Umap (List ℕ) (List ℕ)) (p : Pair) (m' : Umap (List ℕ) (List ℕ))
    : Type 0 where
  pub lost : Bool
  pub view :
      (q : List ℕ)
      → find by_string m' q ≡ (
          if lost
          then find by_string m q
          else if is_at by_string q p
          then some p
          else find by_string m q)
  pub enough : a ≡ true → b ≡ true → lost ≡ false
  pub valid : IsValid by_string m'
  pub flags : m'.flags ≡ m.flags

-- the view after an addition that may replace
record Seen (short : Bool) (w : List ℕ → Option Pair) (p : Pair) (w' : List ℕ → Option Pair)
    : Type 0 where
  pub lost : Bool
  pub view :
      (q : List ℕ) → w' q ≡ (if lost then w q else if is_at by_string q p then some p else w q)
  pub enough : short ≡ false → lost ≡ false

add_view-Seen :
    (short : Bool) (w : List ℕ → Option Pair) (key value : List ℕ) (x : Option Pair)
    → Seen short w (key, value) (add_view_at by_string false short w key value x).1
unfolding by_string change
add_view-Seen short w key value (some e) = record {
  lost = false;
  view = λ q. refl;
  enough = λ h. refl;
}
add_view-Seen true w key value none = record { lost = true; view = λ q. refl; enough = λ h. h }
add_view-Seen false w key value none = record { lost = false; view = λ q. refl; enough = λ h. refl }

add-Stepped :
    (a b : Bool) (m : Umap (List ℕ) (List ℕ)) (key value : List ℕ)
    → IsValid by_string m
    → noreplace m.flags ≡ false
    → Stepped a b m (key, value) (add by_string a b m key value).map
unfolding AddedFlags HasFlags change
add-Stepped a b m key value v f =
    let r = add-AddRefines by_string by_string-IsLawful a b m key value v in
    let w = find by_string m in
    let short = is_short by_string a b m in
    let s = add_view-Seen short w key value (w key) in
    record {
      lost = s.lost;
      view = λ q.
          r.view q ∙ ap (λ n. (add_view_at by_string n short w key value (w key)).1 q) f ∙ s.view q;
      enough = λ ea eb. s.enough (
          subst (λ x. is_short by_string x b m ≡ false) (sym ea)
            (subst (λ y. is_short by_string true y m ≡ false) (sym eb) (is_short-memory m)));
      valid = r.valid;
      flags = add-flags m a b key value;
    }

assign_pairs-Assigned :
    (memory : ℕ → Bool × Bool) (n : ℕ) (pairs : List Pair) (m : Umap (List ℕ) (List ℕ))
    → IsValid by_string m
    → m.flags ≡ string_flags
    → (m' : Umap (List ℕ) (List ℕ)) × (assign_pairs memory n (hash m) pairs ≡ hash m')
      × Assigned memory n pairs (find by_string m) m'
unfolding assign_pairs map_add latest by_string
assign_pairs-Assigned memory n [] m v f = (
  m,
  refl,
  record { kept = []; selected = selected_end; view = λ q. refl; all = λ h. refl; valid = v },
)
assign_pairs-Assigned memory n ((key, value) ∷ pairs) m v f =
    let s = add-Stepped (memory n).0 (memory n).1 m key value v (ap noreplace f) in
    let m1 = (add by_string (memory n).0 (memory n).1 m key value).map in
    let (m', e, r) = assign_pairs-Assigned memory (suc n) pairs m1 s.valid (s.flags ∙ f) in
    (
      m',
      rw (ap singular f) e,
      joined s.lost m1 m' s.view (λ h. s.enough (ap (λ x. x.0) h) (ap (λ x. x.1) h)) r,
    )
  where
    joined :
        (lost : Bool) (m1 m' : Umap (List ℕ) (List ℕ))
        → ((q : List ℕ)
            → find by_string m1 q ≡ (
                if lost
                then find by_string m q
                else if is_at by_string q (key, value)
                then some (key, value)
                else find by_string m q))
        → (memory n ≡ (true, true) → lost ≡ false)
        → Assigned memory (suc n) pairs (find by_string m1) m'
        → Assigned memory n ((key, value) ∷ pairs) (find by_string m) m'
    joined true m1 m' view enough r = record {
      kept = r.kept;
      selected = left_out (key, value) (λ h. absurd (ground (arith, enough h))) r.selected;
      view = λ q. r.view q ∙ ap (latest q r.kept) (view q);
      all = λ h. absurd (ground (arith, enough (h n)));
      valid = r.valid;
    }
    joined false m1 m' view enough r = record {
      kept = (key, value) ∷ r.kept;
      selected = taken (key, value) r.selected;
      view = λ q. r.view q ∙ ap (latest q r.kept) (view q);
      all = λ h. ap (λ ps. (key, value) ∷ ps) (r.all h);
      valid = r.valid;
    }

abbrev no_pairs : Umap (List ℕ) (List ℕ)
unfolding init
no_pairs = init by_string string_flags

no_pairs-find : (q : List ℕ) → find by_string no_pairs q ≡ none
unfolding find init
no_pairs-find q = find_in-replicate by_string (prime 0) (bk_idx by_string (prime 0) q) q

-- HX_shconfig_map on a file that can be opened, with any lines and with or without memory at each call of
-- HXmap_add, ends. Without memory for the map it returns NULL. Else it returns a valid hash map, in
-- which a lookup finds the last kept pair of the file with the key, or nothing. A pair is left
-- out only if memory for a layout or a node was missing at its own call of HXmap_add. The copies of keys and data succeed.
pub shconfig_map-Assigned :
    (memory : ℕ → Bool × Bool) (lines : List (List ℕ))
    → (shconfig_map memory false (some lines) ≡ some none)
      × (pairs : List Pair) × (m' : Umap (List ℕ) (List ℕ)) × (shconf_pairs lines ≡ some pairs)
      × (shconfig_map memory true (some lines) ≡ some (some (hash m')))
      × Assigned memory 0 pairs (λ q. none) m'
unfolding shconfig_map read_map map_init map_init5 init4 init
shconfig_map-Assigned memory lines =
    let (pairs, e) = shconf_pairs-ends lines in
    let (m', f, r) =
      assign_pairs-Assigned memory 0 pairs no_pairs (init-IsValid by_string string_flags) refl in
    (
      refl,
      pairs,
      m',
      e,
      rw (e, read_map) (ap (λ x. some (some x)) f),
      record {
        kept = r.kept;
        selected = r.selected;
        view = λ q. r.view q ∙ ap (latest q r.kept) (no_pairs-find q);
        all = r.all;
        valid = r.valid;
      },
    )
