-- ===== src/Umap/Tests.antt =====
-- Runs of the hash map of src/map.c, and the theorems at concrete maps.
use libhx.Ops.ByValue.{by_value, by_value-IsLawful}
use libhx.Prelude.{ℕ, ◌+◌, ◌≡◌, refl, Bool, true, false, not, ◌==◌, some, List, [], ◌∷◌, arith}
use libhx.Umap.Refine.{DeleteRefines, add-AddRefines, del-DeleteRefines}
use libhx.Umap.Valid.{IsValid, init-IsValid, Relaid, laid_out-Relaid}
use libhx.Umap.{Umap, init, add, del, find, laid_out, qfe_buckets}

abbrev empty : Umap ℕ ℕ
unfolding init
empty = init by_value 0

one : Umap ℕ ℕ
unfolding add
one = (add by_value true true empty 25 7).map

one-IsValid : IsValid by_value one
unfolding one empty init
one-IsValid =
    (add-AddRefines by_value by_value-IsLawful true true empty 25 7 (init-IsValid by_value 0)).valid

run_find : find by_value one 25 ≡ some (25, 7)
unfolding one empty init find
run_find = refl

del-DeleteRefines_example : DeleteRefines by_value 25 one (del by_value true one 25)
del-DeleteRefines_example = del-DeleteRefines by_value by_value-IsLawful true one 25 one-IsValid

laid_out-Relaid_example : Relaid by_value one (laid_out by_value one 1)
laid_out-Relaid_example = laid_out-Relaid by_value by_value-IsLawful one 1 one-IsValid (omega arith)

-- stop at the key 2
abbrev until_two : ℕ → ℕ × ℕ → ℕ × Bool
until_two n e = (n + 1, not (e.0 == 2))

abbrev three : List (List (ℕ × ℕ))
three = ((1, 10) ∷ (2, 20) ∷ []) ∷ ((3, 30) ∷ []) ∷ []

run_qfe : qfe_buckets until_two 0 three ≡ (2, false)
unfolding qfe_buckets
run_qfe = refl
