-- ===== src/Map/Init.antt =====
-- How src/map.c makes maps: HXmap_ops_setup, HXmap_init and HXmap_init5. A function pointer in
-- struct HXmap_ops is told by the function it points to; the caller's own functions are `user_fn`.
pub mod Owned
mod Tests
use libhx.Prelude.{
  ℕ, ◌+◌, ◌/◌, ◌%◌, ◌^◌, Bool, true, false, not, ◌&&◌, ◌||◌, Option, none, some, if◌then◌else◌,
  ◌==◌,
}

-- the functions of the library that a map may be set up with
pub data Fn : Type 0 where
  null_fn user_fn : Fn
  fn_strcmp fn_memcmp fn_valuecmp : Fn
  fn_valuecpy fn_strdup fn_memdup : Fn
  fn_free : Fn
  fn_djb2 fn_jlookup3 fn_jlookup3v : Fn

-- `enum HXmap_type`
pub data MapType : Type 0 where
  type_hash type_rbtree type_other : MapType

-- `struct HXmap_ops`, by its pointers
pub record OpFns : Type 0 where
  pub k_compare : Fn
  pub k_clone : Fn
  pub k_free : Fn
  pub d_clone : Fn
  pub d_free : Fn
  pub k_hash : Fn

-- the map flags
abbrev pub flag : ℕ → ℕ → Bool
flag flags bit = flags / bit % 2 == 1

abbrev pub map_skey : ℕ
map_skey = 2 ^ 2

abbrev pub map_ckey : ℕ
map_ckey = 2 ^ 3

abbrev pub map_sdata : ℕ
map_sdata = 2 ^ 4

abbrev pub map_cdata : ℕ
map_cdata = 2 ^ 5

-- The part of HXmap_ops_setup for the flags; the operations are zero before it.
abbrev pub key_compare : ℕ → ℕ → Fn
key_compare flags key_size =
    if flag flags map_skey then fn_strcmp else if key_size == 0 then fn_valuecmp else fn_memcmp

abbrev pub key_hash : MapType → ℕ → ℕ → Fn
key_hash type_hash flags key_size =
    if flag flags map_skey
    then fn_djb2
    else if not (key_size == 0)
    then fn_jlookup3
    else fn_jlookup3v
key_hash type_rbtree flags key_size = null_fn
key_hash type_other flags key_size = null_fn

unfoldable pub default_ops : MapType → ℕ → ℕ → OpFns
default_ops type flags key_size =
    let ck = flag flags map_ckey in
    let cd = flag flags map_cdata in
    record {
      k_compare = key_compare flags key_size;
      k_clone = if ck then (if flag flags map_skey then fn_strdup else fn_memdup) else fn_valuecpy;
      k_free = if ck then fn_free else null_fn;
      d_clone = if cd then (if flag flags map_sdata then fn_strdup else fn_memdup) else fn_valuecpy;
      d_free = if cd then fn_free else null_fn;
      k_hash = key_hash type flags key_size;
    }

-- `if (new != NULL) op = new`
abbrev pub override : Fn → Fn → Fn
override null_fn old = old
override new old = new

abbrev pub hash_override : MapType → Fn → Fn → Fn
hash_override type_hash new old = override new old
hash_override type_rbtree new old = old
hash_override type_other new old = old

-- `HXmap_ops_setup`
unfoldable pub ops_setup : MapType → ℕ → ℕ → Option OpFns → OpFns
unfolding default_ops
ops_setup type flags key_size none = default_ops type flags key_size
ops_setup type flags key_size (some new) =
    let ops = default_ops type flags key_size in
    record {
      k_compare = override new.k_compare ops.k_compare;
      k_clone = override new.k_clone ops.k_clone;
      k_free = override new.k_free ops.k_free;
      d_clone = override new.d_clone ops.d_clone;
      d_free = override new.d_free ops.d_free;
      k_hash = hash_override type new.k_hash ops.k_hash;
    }

-- What HXmap_init leaves in errno when it returns NULL: EINVAL, the `-ENOENT` of HXmap_init5, or what
-- malloc has left there.
pub data InitErrno : Type 0 where
  init_einval init_minus_enoent init_enomem : InitErrno

-- A new map: its type, flags and operations; no entry, and the transaction ID.
pub record NewMap : Type 0 where
  pub type : MapType
  pub flags : ℕ
  pub ops : OpFns
  pub items : ℕ
  pub tid : ℕ

pub data InitResult : Type 0 where
  made : NewMap → InitResult
  init_failed : InitErrno → InitResult

-- `HXhashmap_init4` and `HXrbtree_init4` with memory
unfoldable pub init4 : MapType → ℕ → ℕ → Option OpFns → NewMap
unfolding ops_setup
init4 type flags key_size new = record {
  type = type;
  flags = flags;
  ops = ops_setup type flags key_size new;
  items = 0;
  tid = 1;
}

-- `HXmap_init5`; the Boolean is the memory for the map. If there is none for the table of a hash map,
-- HXumap_free reads the table that is not there; that case is left out.
unfoldable pub map_init5 : Bool → MapType → ℕ → Option OpFns → ℕ → InitResult
unfolding init4
map_init5 memory type_hash flags new key_size =
    if memory then made (init4 type_hash flags key_size new) else init_failed init_enomem
map_init5 memory type_rbtree flags new key_size =
    if memory then made (init4 type_rbtree flags key_size new) else init_failed init_enomem
map_init5 memory type_other flags new key_size = init_failed init_minus_enoent

-- `HXmap_init`
unfoldable pub map_init : Bool → MapType → ℕ → InitResult
unfolding map_init5
map_init memory type flags =
    if flag flags map_ckey && not (flag flags map_skey)
    then init_failed init_einval
    else if flag flags map_cdata && not (flag flags map_sdata)
    then init_failed init_einval
    else map_init5 memory type flags none 0
