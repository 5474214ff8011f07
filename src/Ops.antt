-- ===== src/Ops.antt =====
-- What both kinds of map of src/map.c share: the operations of struct HXmap_ops, the map flags
-- (include/libHX/map.h) and the results of the map functions.
pub mod ByValue
pub mod ByString
use Prim.Native.Nat.Ordering.{lt, eq, gt}
use Prim.Native.Nat.{Ordering}
use libhx.Prelude.{ℕ, ◌/◌, ◌%◌, ◌^◌, ◌≡◌, Bool, false, not, ◌&&◌, ◌==◌, ◌⊎◌, inl, inr, refl}

-- `struct HXmap_ops`. A key or a datum stands for the pointer together with what it points to.
-- `k_compare` is given by the sign of its result; `k_free` and `d_free` by whether they are set.
pub record MapOps {ℓ} (K V : Type ℓ) : Type ℓ where
  pub k_compare : K → K → Ordering
  pub k_clone : K → K
  pub k_is_null : K → Bool
  pub k_free : Bool
  pub d_clone : V → V
  pub d_is_null : V → Bool
  pub d_free : Bool
  pub k_hash : K → ℕ

-- `HXMAP_NOREPLACE` and `HXMAP_SINGULAR`, tested in a word of flags.
abbrev pub noreplace : ℕ → Bool
noreplace flags = flags % 2 == 1

abbrev pub singular : ℕ → Bool
singular flags = flags / 2 % 2 == 1

-- The negated error codes that the functions return. `enomem` is what malloc leaves in errno;
-- `clone_errno` is what a failing clone function leaves there.
pub data Errno : Type 0 where
  eexist enomem einval enoent clone_errno : Errno

-- `1`, or a negated errno.
pub data Ret : Type 0 where
  done : Ret
  fail : Errno → Ret

-- The calls of `k_free` and `d_free`. `d_free_key` is a call of `d_free` on a key.
pub data Release {ℓ} (K V : Type ℓ) : Type ℓ where
  free_key : K → Release K V
  free_data : V → Release K V
  free_data_key : K → Release K V

pub Ordering-cases : (w : Ordering) → (w ≡ lt) ⊎ (w ≡ eq) ⊎ (w ≡ gt)
Ordering-cases lt = inl refl
Ordering-cases eq = inr (inl refl)
Ordering-cases gt = inr (inr refl)

-- `*ptid + 1` in an unsigned int.
abbrev pub uint_mod : ℕ
uint_mod = 2 ^ 32

module _ {ℓ} {K V : Type ℓ} (o : MapOps K V) where
  -- `node->key == NULL && key != NULL` after `node->key = k_clone(key)`.
  abbrev pub key_failed : K → Bool
  key_failed k = o.k_is_null (o.k_clone k) && not (o.k_is_null k)

  abbrev pub data_failed : V → Bool
  data_failed v = o.d_is_null (o.d_clone v) && not (o.d_is_null v)

  -- What the code relies on: comparison is a total order whose equality is equality of keys (as
  -- k_compare sees them), and a successful clone of a key is that key.
  pub record IsLawful : Type ℓ where
    pub compare_refl : (a : K) → o.k_compare a a ≡ eq
    pub eq_of_compare : (a b : K) → o.k_compare a b ≡ eq → a ≡ b
    pub lt_of_gt : (a b : K) → o.k_compare a b ≡ gt → o.k_compare b a ≡ lt
    pub gt_of_lt : (a b : K) → o.k_compare a b ≡ lt → o.k_compare b a ≡ gt
    pub lt_trans : (a b c : K) → o.k_compare a b ≡ lt → o.k_compare b c ≡ lt → o.k_compare a c ≡ lt
    pub clone_key : (k : K) → key_failed k ≡ false → o.k_clone k ≡ k
