-- ===== src/Mc/Tests.antt =====
-- Runs of the memory container of src/mc.c, and the theorems at concrete containers.
use libhx.Bytes.{codes}
use libhx.Prelude.{ℕ, ◌-◌, ◌^◌, ◌≡◌, refl, true, some, [], ◌∷◌, ◌++◌, arith}
use libhx.Mc.Holds.{Holds, Gives, memins-Gives}
use libhx.Mc.Delete.{memdel-Holds}
use libhx.Mc.{Memcont, memins, trunc, memdel, meminit}

-- new memory is full of 7
abbrev junk : ℕ → ℕ
junk n = 7

-- The string "abc" in a container of four bytes.
abbrev abc : Memcont
abc = record { alloc = 4; length = 3; bytes = codes "abc" ++ 0 ∷ 9 ∷ [] }

abc-Holds : Holds abc (codes "abc")
abc-Holds = record { text = refl; nul = refl; size = refl; fits = omega arith }

run_meminit :
    meminit junk true (codes "ab")
    ≡ some (record { alloc = 2; length = 2; bytes = codes "ab" ++ 0 ∷ [] })
unfolding meminit
run_meminit = refl

-- A length between that of the text and the memory's is set.
run_trunc_longer :
    trunc junk true abc 4
    ≡ some (record { alloc = 4; length = 4; bytes = codes "abc" ++ 0 ∷ 0 ∷ [] })
unfolding trunc
run_trunc_longer = refl

-- A length for which the sum wraps is not clipped: the text gets longer.
run_memdel_wraps : (memdel abc 2 (2 ^ 64 - 1)).length ≡ 4
unfolding memdel
run_memdel_wraps = refl

memins-Gives_example : Gives (memins junk true abc 1 (codes "XY")) (codes "aXYbc")
memins-Gives_example = memins-Gives junk abc (codes "abc") (codes "XY") 1 abc-Holds (omega arith)

memdel-Holds_example : Holds (memdel abc 1 9) (codes "a")
memdel-Holds_example =
    memdel-Holds abc (codes "abc") 1 9 abc-Holds (omega arith) (omega arith) (omega arith)
