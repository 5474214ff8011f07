-- ===== src/Format/Tests.antt =====
-- Runs of the placeholder expansion of src/format.c, and its theorems at a concrete table.
use libhx.Bytes.{codes, count_while, find_suffix}
use libhx.Format.Table.{format_init, format_add}
use libhx.Format.Template.{Template}
use libhx.Format.{
  World, FormatMap, FuncEntry, f_upper, string, exec1, aprintf, sprintf, done, overrun, failed,
}
use libhx.Map.{map_get, map_find}
use libhx.Prelude.{◌≡◌, refl, true, some, none, [], ◌∷◌}
use libhx.Text.{plus}

-- no environment, processes that write two pieces, and numbers that are 0
abbrev nowhere : World
nowhere = record {
  getenv = λ name. none;
  strtol = λ s. (plus 0, s);
  run = λ argv. some (codes "uid" ∷ codes "=0" ∷ []);
}

table : FormatMap
unfolding format_init format_add
table = (format_add true true format_init (codes "USER") (string (some (codes "me")))).1

run_var :
    aprintf nowhere table (codes "I am %(USER), 5%,%(upper %(USER)).")
    ≡ done (codes "I am me, 5%,ME.")
unfolding aprintf table count_while map_get find_suffix
run_var = refl

run_if :
    aprintf nowhere table (codes "%(if %(USER),yes,no)%(if \"\",yes,no)") ≡ done (codes "yesno")
unfolding aprintf table count_while map_get find_suffix
run_if = refl

-- the name of a variable that expands to nothing is an error
run_no_name : aprintf nowhere table (codes "%(%(NONE))") ≡ failed
unfolding aprintf table count_while map_get find_suffix
run_no_name = refl

-- a text that fills the buffer
run_sprintf : sprintf nowhere table 2 (codes "%(USER)") ≡ overrun
unfolding sprintf table count_while map_get find_suffix
run_sprintf = refl

-- behind a percent sign at the end, the NUL is copied and the next byte is read
run_percent_last : aprintf nowhere table (codes "100%") ≡ overrun
unfolding aprintf count_while
run_percent_last = refl

-- a process is started only for a table with the variable /libhx/exec
run_exec_off : aprintf nowhere table (codes "<%(exec id)>") ≡ done (codes "<>")
unfolding aprintf table count_while map_get map_find find_suffix exec1
run_exec_off = refl

exec_table : FormatMap
unfolding format_init format_add
exec_table = (format_add true true format_init (codes "/libhx/exec") (string none)).1

run_exec_on : aprintf nowhere exec_table (codes "<%(exec id)>") ≡ done (codes "<uid=0>")
unfolding aprintf exec_table count_while map_get map_find find_suffix exec1
run_exec_on = refl

upper_entry : FuncEntry
upper_entry = record { proc = f_upper; delim = codes ")" }
