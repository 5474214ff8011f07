-- ===== src/Format/Template.antt =====
-- Templates of text, variables and calls, and what HXformat_aprintf of src/format.c makes of them.
use libhx.Format.Rounds.{IsName, IsArgument}
use libhx.Bytes.{mem}
use libhx.Format.{nexp, text, FuncEntry, World, FormatMap, entry_ops, call_func, lookup_var}
use libhx.Map.{map_get}
use libhx.Prelude.{ℕ, ◌≡◌, true, false, some, List, [], ◌∷◌, ◌++◌, ◌==◌}

-- A template, and the text that it stands for.
pub data Template (w : World) (blk : FormatMap) : List ℕ → List ℕ → Type 0 where
  t_end : Template w blk [] []
  t_byte :
      {s o : List ℕ} (c : ℕ)
      → (c == b'%') ≡ false
      → Template w blk s o
      → Template w blk (c ∷ s) (c ∷ o)
  t_percent :
      {s o : List ℕ} (c : ℕ)
      → (c == b'(') ≡ false
      → Template w blk s o
      → Template w blk (b'%' ∷ c ∷ s) (b'%' ∷ c ∷ o)
  t_variable :
      {s o : List ℕ} (name value : List ℕ)
      → IsName name
      → lookup_var blk name ≡ text value
      → Template w blk s o
      → Template w blk (b'%' ∷ b'(' ∷ (name ++ b')' ∷ s)) (value ++ o)
  t_nothing :
      {s o : List ℕ} (name : List ℕ)
      → IsName name
      → lookup_var blk name ≡ nexp
      → Template w blk s o
      → Template w blk (b'%' ∷ b'(' ∷ (name ++ b')' ∷ s)) o
  t_call :
      {s o : List ℕ} (name arg value : List ℕ) (f : FuncEntry)
      → IsName name
      → map_get entry_ops blk.funcs name ≡ some f
      → mem b')' f.delim ≡ true
      → IsArgument f.delim arg
      → call_func w blk f.proc (arg ∷ []) ≡ text value
      → Template w blk s o
      → Template w blk (b'%' ∷ b'(' ∷ (name ++ 32 ∷ (arg ++ b')' ∷ s))) (value ++ o)
  t_call_nothing :
      {s o : List ℕ} (name arg : List ℕ) (f : FuncEntry)
      → IsName name
      → map_get entry_ops blk.funcs name ≡ some f
      → mem b')' f.delim ≡ true
      → IsArgument f.delim arg
      → call_func w blk f.proc (arg ∷ []) ≡ nexp
      → Template w blk s o
      → Template w blk (b'%' ∷ b'(' ∷ (name ++ 32 ∷ (arg ++ b')' ∷ s))) o
