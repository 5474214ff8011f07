-- ===== src/Umap/Traverse/Tests.antt =====
-- Runs of the traverser of the hash map of src/map.c, and its theorems at a concrete map.
use libhx.Prelude.{ℕ, suc, ◌≡◌, refl, some, [], ◌∷◌, length, drop, replicate, arith}
use libhx.Umap.Traverse.Visit.{Stands, visit-buckets, traverse-changed}
use libhx.Umap.Traverse.{Trav, wild, link, trav_init, next_in, entry_at, skip, traverse, visit}
use libhx.Umap.{Umap, prime, keysvalues}

-- a table of 23 buckets with three entries
abbrev three : Umap ℕ ℕ
three = record {
  buckets = [] ∷ ((1, 10) ∷ (24, 20) ∷ []) ∷ [] ∷ [] ∷ [] ∷ ((5, 30) ∷ []) ∷ replicate 17 [];
  power = 0;
  min_load = 0;
  max_load = 16;
  tid = 2;
  items = 3;
  flags = 0;
}

three-shape : length three.buckets ≡ prime three.power
unfolding prime
three-shape = refl

-- a traverser at the first entry, from before a change of the map
abbrev stale : Trav
stale = record { flags = 0; head = link 1 1; bk_current = 1; tid = 1 }

run_visit : visit 4 three (trav_init three 0) ≡ some ((1, 10) ∷ (24, 20) ∷ (5, 30) ∷ [])
unfolding visit traverse skip trav_init next_in entry_at prime
run_visit = refl

-- After the end, the head of the last bucket is left behind, and the next call does not return NULL.
wild_after_end :
    (traverse three (record stale { head = link 22 0; bk_current = 23; tid = 2 })).0 ≡ wild
unfolding traverse skip next_in entry_at prime
wild_after_end = refl

visit-buckets_example :
    visit (suc (length (keysvalues three.buckets))) three (trav_init three 0)
    ≡ some (keysvalues three.buckets)
visit-buckets_example = visit-buckets three 0 three-shape (omega arith)

traverse-changed_example :
    Stands three (keysvalues (drop (suc stale.bk_current) three.buckets)) (traverse three stale)
traverse-changed_example =
    traverse-changed three stale 1 1 three-shape refl (λ e. absurd (omega (arith, e))) (omega arith)
