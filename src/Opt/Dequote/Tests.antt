-- ===== src/Opt/Dequote/Tests.antt =====
-- Runs of the parsers of quoted text of src/opt.c, and their theorems at concrete strings.
use libhx.Bytes.{codes, count_while}
use libhx.Opt.Dequote.Fate.{Fate, fmt_scan-Fate}
use libhx.Opt.Dequote.Written.{Writes, no_pair, pair, dquote_chars, break_loop-Writes}
use libhx.Opt.Dequote.{
  byte_kind, dequote_int, fmt_kind, fmt_scan, dequote_fmt, name_value, value_end, break_loop,
  shconf_break,
}
use libhx.Prelude.{ℕ, ◌≡◌, refl, true, some, List, [], ◌∷◌, arith}
use libhx.Quote.Loop.{escape_each, quote_backslash-escape_each}
use libhx.Text.{chomp, trim_end}

run_dequote_int :
    dequote_int value_end 0 (codes "a'b c'\\;d;rest") ≡ (codes "ab c;d", some (codes "rest"))
unfolding dequote_int byte_kind
run_dequote_int = refl

run_dequote_fmt :
    dequote_fmt 20 true (codes "%(a),b") (some (codes ",")) ≡ some (some (codes "%(a)"), codes ",b")
unfolding dequote_fmt fmt_scan fmt_kind dequote_int byte_kind
run_dequote_fmt = refl

run_shconf_break :
    shconf_break (codes "A=1; B_2=\"x y\" # C=3\n")
    ≡ some ((codes "A", codes "1") ∷ (codes "B_2", codes "x y") ∷ [])
unfolding shconf_break break_loop name_value count_while dequote_int byte_kind chomp trim_end
run_shconf_break = refl

fmt_scan-Fate_example : Fate (some (codes ",")) 0 0 (codes "a(b,c)\\")
fmt_scan-Fate_example = fmt_scan-Fate (some (codes ",")) 0 0 (codes "a(b,c)\\")

abbrev pairs : List (List ℕ × List ℕ)
pairs = (codes "KEY", codes "a\"b") ∷ []

abbrev line : List ℕ
line = codes "KEY=\"a\\\"b\";"

line-Writes : Writes pairs line
unfolding escape_each
line-Writes =
    pair (codes "KEY") (codes "a\"b") (codes "a\\\"b") (refl, (refl, (refl, (refl, tt))))
      (quote_backslash-escape_each (codes "a\"b") dquote_chars) no_pair

break_loop-Writes_example : break_loop 12 line ≡ some pairs
break_loop-Writes_example = break_loop-Writes 12 pairs line line-Writes (omega arith)
