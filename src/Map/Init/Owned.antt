-- ===== src/Map/Init/Owned.antt =====
-- The operations of a map that HXmap_init of src/map.c makes belong together.
use libhx.Map.Init.{
  Fn, null_fn, fn_strcmp, fn_valuecmp, fn_valuecpy, fn_strdup, fn_memdup, fn_free, fn_djb2,
  fn_jlookup3v, MapType, type_hash, type_rbtree, type_other, flag, map_skey, map_ckey, map_sdata,
  map_cdata, default_ops, ops_setup, NewMap, InitResult, made, init_failed, init4, map_init5,
  map_init,
}
use libhx.Prelude.{ℕ, ◌≡◌, refl, Bool, true, false, not, ◌&&◌, if_both, none, if◌then◌else◌, arith}

-- a copy is freed, and only a copy is
pub data Owned : Fn → Fn → Type 0 where
  borrowed : Owned fn_valuecpy null_fn
  duplicated : Owned fn_strdup fn_free

-- the keys are compared and hashed as the same thing: strings, or pointers
pub data Matching : MapType → Fn → Fn → Type 0 where
  strings_hashed : Matching type_hash fn_strcmp fn_djb2
  values_hashed : Matching type_hash fn_valuecmp fn_jlookup3v
  strings_ordered : Matching type_rbtree fn_strcmp null_fn
  values_ordered : Matching type_rbtree fn_valuecmp null_fn

-- no function here needs a size, and what is cloned is freed
pub record Consistent (m : NewMap) : Type 0 where
  pub keys : Owned m.ops.k_clone m.ops.k_free
  pub values : Owned m.ops.d_clone m.ops.d_free
  pub compared : Matching m.type m.ops.k_compare m.ops.k_hash
  pub empty : m.items ≡ 0

abbrev pub IsUsable : InitResult → Type 0
IsUsable (made m) = Consistent m
IsUsable (init_failed e) = Unit

clone-Owned :
    (c s : Bool)
    → (c && not s) ≡ false
    → Owned
        (if c then (if s then fn_strdup else fn_memdup) else fn_valuecpy)
        (if c then fn_free else null_fn)
clone-Owned true true h = duplicated
clone-Owned true false h = absurd (ground (arith, h))
clone-Owned false s h = borrowed

hashed-Matching :
    (s : Bool)
    → Matching type_hash
        (if s then fn_strcmp else fn_valuecmp)
        (if s then fn_djb2 else fn_jlookup3v)
hashed-Matching true = strings_hashed
hashed-Matching false = values_hashed

ordered-Matching : (s : Bool) → Matching type_rbtree (if s then fn_strcmp else fn_valuecmp) null_fn
ordered-Matching true = strings_ordered
ordered-Matching false = values_ordered

init5-Consistent :
    (memory : Bool) (type : MapType) (flags : ℕ)
    → (flag flags map_ckey && not (flag flags map_skey)) ≡ false
    → (flag flags map_cdata && not (flag flags map_sdata)) ≡ false
    → IsUsable (map_init5 memory type flags none 0)
unfolding map_init5 init4 ops_setup default_ops
init5-Consistent true type_hash flags k d = record {
  keys = clone-Owned (flag flags map_ckey) (flag flags map_skey) k;
  values = clone-Owned (flag flags map_cdata) (flag flags map_sdata) d;
  compared = hashed-Matching (flag flags map_skey);
  empty = refl;
}
init5-Consistent true type_rbtree flags k d = record {
  keys = clone-Owned (flag flags map_ckey) (flag flags map_skey) k;
  values = clone-Owned (flag flags map_cdata) (flag flags map_sdata) d;
  compared = ordered-Matching (flag flags map_skey);
  empty = refl;
}
init5-Consistent false type_hash flags k d = tt
init5-Consistent false type_rbtree flags k d = tt
init5-Consistent memory type_other flags k d = tt

-- A map that HXmap_init makes, for any type and flags, is empty, frees the keys and the data that it
-- duplicates and no others, duplicates with no function that needs a size, and compares and hashes
-- its keys alike, as strings or as pointers.
pub map_init-IsUsable :
    (memory : Bool) (type : MapType) (flags : ℕ) → IsUsable (map_init memory type flags)
unfolding map_init
map_init-IsUsable memory type flags =
    if_both IsUsable (flag flags map_ckey && not (flag flags map_skey)) (λ t. tt)
      (λ k.
        if_both IsUsable (flag flags map_cdata && not (flag flags map_sdata)) (λ t. tt)
          (λ d. init5-Consistent memory type flags k d))
