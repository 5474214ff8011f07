-- ===== src/Format/Entries.antt =====
-- The variables and functions of a table of src/format.c (struct HXformat_map).
use libhx.Map.{HxMap}
use libhx.Ops.ByString.{strcmp}
use libhx.Ops.{MapOps}
use libhx.Hash.{djb2}
use libhx.Prelude.{ℕ, Bool, true, false, Option, List}

-- What an expansion gives: NULL, HXformat2_nexp ("expanded to nothing"), or a text.
pub data Expansion : Type 0 where
  null nexp : Expansion
  text : List ℕ → Expansion

-- `struct fmt_entry`, by its type, with what `ptr` points to: a string or NULL, a Boolean, a byte, or a
-- number that printf writes.
pub data FmtEntry : Type 0 where
  string : Option (List ℕ) → FmtEntry
  mcstr : List ℕ → FmtEntry
  bool : Bool → FmtEntry
  byte : ℕ → FmtEntry
  number : List ℕ → FmtEntry
  illegal : FmtEntry

-- the functions of HXformat2_fmap
pub data Func : Type 0 where
  f_echo f_env f_exec f_if f_lower f_shell f_snl f_substr f_upper : Func

-- `struct func_entry`
pub record FuncEntry : Type 0 where
  pub proc : Func
  pub delim : List ℕ

-- The operations of the two maps, with strings as keys.
unfoldable pub entry_ops : {V : Type 0} → MapOps (List ℕ) V
unfolding strcmp djb2
entry_ops = record {
  k_compare = strcmp;
  k_clone = λ k. k;
  k_is_null = λ k. false;
  k_free = true;
  d_clone = λ v. v;
  d_is_null = λ v. false;
  d_free = true;
  k_hash = djb2;
}

-- `struct HXformat_map`
pub record FormatMap : Type 0 where
  pub vars : HxMap (List ℕ) FmtEntry
  pub funcs : HxMap (List ℕ) FuncEntry
