-- ===== src/Ops/ByValue.antt =====
-- The operations that HXmap_ops_setup of src/map.c chooses for keys and data by value:
-- HXmap_valuecmp, HXmap_valuecpy, and no free functions. The hash function is a parameter, since
-- HXhash_jlookup3v mixes the bytes of the pointer; the value itself takes its place.
use Prim.Native.Nat.{compare}
use libhx.Ops.{MapOps, IsLawful}
use libhx.Prelude.{ℕ, refl, false, ◌==◌, arith}

-- A pointer is its number, and NULL is 0.
abbrev pub by_value : MapOps ℕ ℕ
by_value = record {
  k_compare = compare;
  k_clone = λ k. k;
  k_is_null = λ k. k == 0;
  k_free = false;
  d_clone = λ v. v;
  d_is_null = λ v. v == 0;
  d_free = false;
  k_hash = λ k. k;
}

pub by_value-IsLawful : IsLawful by_value
by_value-IsLawful = record {
  compare_refl = ground arith;
  eq_of_compare = ground arith;
  lt_of_gt = ground arith;
  gt_of_lt = ground arith;
  lt_trans = ground arith;
  clone_key = λ k h. refl;
}
