-- ===== src/Hash/Tests.antt =====
-- Runs of the hash functions of src/map.c.
use libhx.Bytes.{codes}
use libhx.Hash.{jrot, jhash_mix, jhash_final, last_block, blocks, jlookup3, djb2_loop, djb2}
use libhx.Prelude.{◌≡◌, refl}

run_djb2 : djb2 (codes "libHX") ≡ 210626578674
unfolding djb2 djb2_loop
run_djb2 = refl

run_jlookup3 : jlookup3 (codes "libHX") ≡ 3308207095
unfolding jlookup3 blocks last_block jhash_final jrot
run_jlookup3 = refl

run_jlookup3_long : jlookup3 (codes "a verification library") ≡ 2697052960
unfolding jlookup3 blocks last_block jhash_mix jhash_final jrot
run_jlookup3_long = refl
