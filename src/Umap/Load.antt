-- ===== src/Umap/Load.antt =====
-- The load limits of the hash map of src/map.c: x_frac, and the limits of neighbouring sizes.
use libhx.Prelude.{
  ℕ, suc, ◌*◌, ◌/◌, ◌^◌, ◌<◌, ◌≤◌, ◌≡◌, refl, Bool, true, ◌&&◌, ltb, leb, all_below, all_below-at,
  arith,
}
use libhx.Umap.{prime, x_frac, min_load_at, max_load_at}

-- No step of the calculation of seven tenths of an unsigned int wraps, and nothing is lost by
-- dividing first.
pub x_frac-div : (v : ℕ) → v < 2 ^ 32 → x_frac 7 10 v ≡ v * 7 / 10
unfolding x_frac
x_frac-div v h = omega arith

limits_ok : ℕ → Bool
unfolding min_load_at max_load_at prime
limits_ok p = leb (min_load_at (suc p)) (max_load_at p) && ltb (max_load_at p) (prime p)

-- For each size but the last, the upper limit is below the number of buckets, and is at least the
-- lower limit of the next size: a table that has just grown does not shrink by the same count of
-- items, nor does one that has just shrunk grow.
pub max_load_at-le :
    (p : ℕ) → p < 27 → (min_load_at (suc p) ≤ max_load_at p) × (max_load_at p < prime p)
unfolding limits_ok all_below
max_load_at-le p h =
    let ok : limits_ok p ≡ true = all_below-at 27 limits_ok p refl h in ground arith
