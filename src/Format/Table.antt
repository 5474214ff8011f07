-- ===== src/Format/Table.antt =====
-- HXformat_init and HXformat_add of src/format.c, over the hash maps of src/map.c.
use libhx.Bytes.{codes, strpbrk}
use libhx.Format.{
  FmtEntry, Func, f_echo, f_env, f_exec, f_if, f_lower, f_shell, f_snl, f_substr, f_upper,
  FuncEntry, FormatMap, entry_ops,
}
use libhx.Map.{HxMap, hash, map_add}
use libhx.Ops.{Ret, fail, einval}
use libhx.Prelude.{
  ℕ, ◌%◌, ◌/◌, Bool, true, false, ◌||◌, none, some, List, [], ◌∷◌, ◌++◌, length, ◌==◌,
  if◌then◌else◌,
}
use libhx.Umap

-- `struct HXformat2_fd`; the flags HXFMT_ARGSEP_SPACE and HXFMT_ARGSEP_COMMA
pub record FuncDesc : Type 0 where
  pub name : List ℕ
  pub proc : Func
  pub flags : ℕ

abbrev pub argsep_none : ℕ
argsep_none = 0

abbrev pub argsep_space : ℕ
argsep_space = 1

abbrev pub argsep_comma : ℕ
argsep_comma = 2

abbrev pub fmap_row : List ℕ → Func → ℕ → FuncDesc
fmap_row name proc flags = record { name = name; proc = proc; flags = flags }

abbrev pub format2_fmap : List FuncDesc
format2_fmap =
    fmap_row (codes "echo") f_echo 3
    ∷ fmap_row (codes "env") f_env 3
    ∷ fmap_row (codes "exec") f_exec argsep_space
    ∷ fmap_row (codes "if") f_if argsep_comma
    ∷ fmap_row (codes "lower") f_lower argsep_none
    ∷ fmap_row (codes "shell") f_shell argsep_none
    ∷ fmap_row (codes "snl") f_snl argsep_none
    ∷ fmap_row (codes "substr") f_substr argsep_comma
    ∷ fmap_row (codes "upper") f_upper argsep_none
    ∷ []

-- `func_entry_clone`
unfoldable pub func_entry_clone : FuncDesc → FuncEntry
func_entry_clone f =
    let comma = if f.flags / 2 % 2 == 1 then codes "," else [] in
    let space = if f.flags % 2 == 1 then codes " " else [] in
    record { proc = f.proc; delim = b')' ∷ (comma ++ space) }

-- the loop of HXformat_init, with memory for each of the functions
unfoldable pub add_funcs : List FuncDesc → HxMap (List ℕ) FuncEntry → HxMap (List ℕ) FuncEntry
unfolding map_add entry_ops func_entry_clone
add_funcs [] m = m
add_funcs (f ∷ fs) m = add_funcs fs (map_add entry_ops true true m f.name (func_entry_clone f)).1

-- HXMAP_SCKEY
abbrev pub sckey : ℕ
sckey = 12

-- `HXformat_init`, when malloc succeeds
unfoldable pub format_init : FormatMap
unfolding add_funcs Umap.init entry_ops
format_init = record {
  vars = hash (Umap.init entry_ops sckey);
  funcs = add_funcs format2_fmap (hash (Umap.init entry_ops sckey));
}

-- the test of a key: white space in it, or no byte
abbrev pub bogus_key : List ℕ → Bool
bogus_key key =
    (elim (strpbrk key (9 ∷ 10 ∷ 11 ∷ 32 ∷ [])) [ none ↦ false | some p ↦ true ]) || length key == 0

-- `HXformat_add` with memory for the entry; the Booleans are the memory for HXmap_add.
unfoldable pub format_add : Bool → Bool → FormatMap → List ℕ → FmtEntry → Ret × FormatMap
unfolding strpbrk map_add entry_ops
format_add memory node_memory blk key entry =
    if bogus_key key
    then (fail einval, blk)
    else let a = map_add entry_ops memory node_memory blk.vars key entry in
      (a.0, record blk { vars = a.1 })
