-- ===== src/Opt/Getopt/Items/Roundtrip.antt =====
-- The loop of HX_getopt6 in src/opt.c on a command line that is written from items.
use libhx.Opt.Getopt.Items.{
  Ending, no_value, attached, separate, Item, positional, lone_dash, long_flag, long_equal,
  long_two, short_flags, short_value, letters, ending_bytes, ending_words, first_word, other_words,
  words, call, item_calls, item_args, all_calls, all_args, IsEnding, HasValue, IsItem, AllItems,
  Leads, round,
}
use libhx.Opt.Getopt.Items.Strings.{
  called, with_arg, normal-plain, normal-dash, normal-short, normal-twolong, normal-long,
  twolong-flag, twolong-value, long-value,
}
use libhx.Opt.Getopt.{
  s_normal, s_short, s_twolong, s_long, stay, adv_char, by_long, Vars, go, Parsed, advanced, dash,
  equal_sign,
}
use libhx.Opt.{HxOption}
use libhx.Prelude.{
  ℕ, suc, ◌≡◌, refl, sym, subst, Bool, true, false, none, some, List, [], ◌∷◌, ◌++◌, append_assoc,
  append-nil, ◌==◌,
}
use libhx.Opt.Getopt.Items.Rounds.{
  Plus, Plus-nothing, Plus-called, Plus-with_arg, Plus-trans, Parses, Handles, next_arg2,
  assigned-memory, assigned-none, Gets, ending-Gets, flags-Gets, one_round-Gets, first_round-Gets,
}

module _ (table : List HxOption) (memory : ℕ → Bool) (all : (i : ℕ) → memory i ≡ true) where
  ending-letter :
      (e : Ending)
      → IsEnding table e
      → HasValue table e
      → (op : ℕ) × (rest : List ℕ) × (ending_bytes e ≡ op ∷ rest) × ((op == dash) ≡ false)
  ending-letter no_value h he = absurd he
  ending-letter (attached op d c s) h he = (op, c ∷ s, refl, h.0)
  ending-letter (separate op d value) h he = (op, [], refl, h.0.0)

  item-Gets :
      (i : Item) (args : List (List ℕ)) (v : Vars)
      → IsItem table i
      → Gets table memory all s_normal
          (first_word i)
          (other_words i)
          args
          v
          (item_calls i)
          (item_args i)
  unfolding Handles advanced Gets
  item-Gets (positional a) args v h =
      one_round-Gets table memory all s_normal a args v (with_arg v a) (with_arg v a) none []
        (a ∷ []) (normal-plain memory table all a args v h)
        (assigned-none table memory all (with_arg v a)) (Plus-with_arg v a)
  item-Gets lone_dash args v h =
      let w = with_arg v (dash ∷ []) in
      one_round-Gets table memory all s_normal (dash ∷ []) args v w w none [] ((dash ∷ []) ∷ [])
        (normal-dash memory table all args v) (assigned-none table memory all w)
        (Plus-with_arg v (dash ∷ []))
  item-Gets (long_flag d c s) args v h =
      let op = dash ∷ dash ∷ c ∷ s in
      let k = call by_long d none in
      first_round-Gets table memory all s_normal s_twolong op op [] args v (k ∷ []) []
        (one_round-Gets table memory all s_twolong op args v v (called v k) (some k) (k ∷ []) []
          (twolong-flag memory table all d c s args v h) (assigned-memory table memory all v k)
          (Plus-called v k))
        (λ r q.
          round s_twolong none stay v v op args (normal-twolong memory table all c s args v h.0)
            (assigned-none table memory all v) refl q)
  item-Gets (long_equal d c s value) args v h =
      let op = dash ∷ dash ∷ c ∷ (s ++ equal_sign ∷ value) in
      let k = call by_long d (some value) in
      let w = called (record v { allocs = suc v.allocs }) k in
      first_round-Gets table memory all s_normal s_long op op [] args v (k ∷ []) []
        (one_round-Gets table memory all s_long op args v w w none (k ∷ []) []
          (long-value memory table all d c s value args v h) (assigned-none table memory all w)
          (record { desc = refl; oarg = refl; calls = refl; uarg = sym (append-nil v.uarg) }))
        (λ r q.
          round s_long none stay v v op args (normal-long memory table all c s value args v)
            (assigned-none table memory all v) refl q)
  item-Gets (long_two d c s value) args v h =
      let op = dash ∷ dash ∷ c ∷ s in
      let k = call by_long d (some value) in
      (
        called v k,
        Plus-called v k,
        λ r q.
            round s_twolong none stay v v op (value ∷ args)
              (normal-twolong memory table all c s (value ∷ args) v h.0.0)
              (assigned-none table memory all v) refl
              (next_arg2 table memory all s_twolong op value args v v (called v k) (some k) r
                (twolong-value memory table all d c s value args v h.0 h.1)
                (assigned-memory table memory all v k) q),
      )
  item-Gets (short_flags op d flags e) args v h =
      let rest = letters flags ++ ending_bytes e in
      first_round-Gets table memory all s_normal s_short (dash ∷ op ∷ rest) (op ∷ rest)
        (ending_words e) args v _ []
        (flags-Gets table memory all ((op, d) ∷ flags) e args v (h.0, h.1) h.2)
        (λ r q.
          round s_short none adv_char v v (op ∷ rest) (ending_words e ++ args)
            (normal-short memory table all op rest (ending_words e ++ args) v h.0.0)
            (assigned-none table memory all v) refl q)
  item-Gets (short_value e) args v h =
      let (op, rest, b, plain) = ending-letter e h.0 h.1 in
      first_round-Gets table memory all s_normal s_short (dash ∷ ending_bytes e) (ending_bytes e)
        (ending_words e) args v _ [] (ending-Gets table memory all e args v h.0)
        (λ r q.
          round s_short none adv_char v v (ending_bytes e) (ending_words e ++ args)
            (subst
              (λ x.
                Handles table memory all s_normal (dash ∷ x) (ending_words e ++ args) v
                  (go s_short none adv_char v))
              (sym b) (normal-short memory table all op rest (ending_words e ++ args) v plain))
            (assigned-none table memory all v) refl q)

  pub items-Gets :
      (items : List Item) (args : List (List ℕ)) (v : Vars)
      → AllItems table items
      → (w : Vars) × Plus v (all_calls items) (all_args items) w
        × ((r : Parsed)
            → Parses table memory all args w r
            → Parses table memory all (words items ++ args) v r)
  unfolding words Gets
  items-Gets [] args v h = (v, Plus-nothing v, λ r q. q)
  items-Gets (i ∷ items) args v h =
      let (w, p, more) = item-Gets i (words items ++ args) v h.0 in
      let (x, q, others) = items-Gets items args w h.1 in
      (
        x,
        Plus-trans v w x (item_calls i) (all_calls items) (item_args i) (all_args items) p q,
        λ r k.
            subst (λ m. Leads table memory false s_normal (first_word i) m v r)
              (sym (append_assoc (other_words i) (words items) args)) (more r (others r k)),
      )
