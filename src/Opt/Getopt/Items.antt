-- ===== src/Opt/Getopt/Items.antt =====
-- Command lines that are written from a list of items, and the loop of HX_getopt6 in src/opt.c as a
-- relation between the states of its rounds.
pub mod Strings
pub mod Rounds
pub mod Roundtrip
use libhx.Bytes.{mem}
use libhx.Opt.Getopt.{
  State, s_normal, Advance, Call, By, by_long, by_short, Vars, Outcome, go, Parsed, parsed, handle,
  assigned, advanced, getopt_loop, dash, equal_sign,
}
use libhx.Opt.{HxOption, match_, takes_void, has_flag, opt_optional, lookup_short, lookup_long_pfx}
use libhx.Prelude.{
  ℕ, zero, suc, ◌+◌, ◌≡◌, ◌≢◌, refl, ap, sym, ◌∙◌, subst, Bool, true, false, Option, none, some,
  List, [], ◌∷◌, ◌++◌, ◌==◌, arith,
}

-- What may follow the flags of an argument like -abc: nothing, an option with the rest of the argument
-- as its value, or an option with the next argument as its value.
pub data Ending : Type 0 where
  no_value : Ending
  attached : (op : ℕ) → HxOption → (c : ℕ) → List ℕ → Ending
  separate : (op : ℕ) → HxOption → List ℕ → Ending

pub data Item : Type 0 where
  positional : List ℕ → Item
  lone_dash : Item
  long_flag : HxOption → (c : ℕ) → List ℕ → Item
  long_equal : HxOption → (c : ℕ) → List ℕ → List ℕ → Item
  long_two : HxOption → (c : ℕ) → List ℕ → List ℕ → Item
  short_flags : ℕ → HxOption → List (ℕ × HxOption) → Ending → Item
  short_value : Ending → Item

-- the bytes of option letters
abbrev pub letters : List (ℕ × HxOption) → List ℕ
letters [] = []
letters (f ∷ flags) = f.0 ∷ letters flags

abbrev pub ending_bytes : Ending → List ℕ
ending_bytes no_value = []
ending_bytes (attached op d c s) = op ∷ c ∷ s
ending_bytes (separate op d value) = op ∷ []

abbrev pub ending_words : Ending → List (List ℕ)
ending_words no_value = []
ending_words (attached op d c s) = []
ending_words (separate op d value) = value ∷ []

-- The words that an item is written as: the first one and the others.
abbrev pub first_word : Item → List ℕ
first_word (positional a) = a
first_word lone_dash = dash ∷ []
first_word (long_flag d c s) = dash ∷ dash ∷ c ∷ s
first_word (long_equal d c s value) = dash ∷ dash ∷ c ∷ (s ++ equal_sign ∷ value)
first_word (long_two d c s value) = dash ∷ dash ∷ c ∷ s
first_word (short_flags op d flags e) = dash ∷ op ∷ (letters flags ++ ending_bytes e)
first_word (short_value e) = dash ∷ ending_bytes e

abbrev pub other_words : Item → List (List ℕ)
other_words (positional a) = []
other_words lone_dash = []
other_words (long_flag d c s) = []
other_words (long_equal d c s value) = []
other_words (long_two d c s value) = value ∷ []
other_words (short_flags op d flags e) = ending_words e
other_words (short_value e) = ending_words e

unfoldable pub words : List Item → List (List ℕ)
words [] = []
words (i ∷ items) = first_word i ∷ (other_words i ++ words items)

-- The calls of do_assign that an item stands for.
abbrev pub call : By → HxOption → Option (List ℕ) → Call
call by d value = record { current = d; value = value; by = by }

abbrev pub flag_calls : List (ℕ × HxOption) → List Call
flag_calls [] = []
flag_calls (f ∷ flags) = call by_short f.1 none ∷ flag_calls flags

abbrev pub ending_calls : Ending → List Call
ending_calls no_value = []
ending_calls (attached op d c s) = call by_short d (some (c ∷ s)) ∷ []
ending_calls (separate op d value) = call by_short d (some value) ∷ []

abbrev pub item_calls : Item → List Call
item_calls (positional a) = []
item_calls lone_dash = []
item_calls (long_flag d c s) = call by_long d none ∷ []
item_calls (long_equal d c s value) = call by_long d (some value) ∷ []
item_calls (long_two d c s value) = call by_long d (some value) ∷ []
item_calls (short_flags op d flags e) = call by_short d none ∷ (flag_calls flags ++ ending_calls e)
item_calls (short_value e) = ending_calls e

-- The arguments that an item stands for.
abbrev pub item_args : Item → List (List ℕ)
item_args (positional a) = a ∷ []
item_args lone_dash = (dash ∷ []) ∷ []
item_args (long_flag d c s) = []
item_args (long_equal d c s value) = []
item_args (long_two d c s value) = []
item_args (short_flags op d flags e) = []
item_args (short_value e) = []

abbrev pub all_calls : List Item → List Call
all_calls [] = []
all_calls (i ∷ items) = item_calls i ++ all_calls items

abbrev pub all_args : List Item → List (List ℕ)
all_args [] = []
all_args (i ∷ items) = item_args i ++ all_args items

-- not a dash in front
abbrev pub StartsPlain : List ℕ → Type 0
StartsPlain [] = Unit
StartsPlain (c ∷ s) = (c == dash) ≡ false

module _ (table : List HxOption) where
  -- an option letter of the table, for an option with or without a value
  abbrev pub IsLetter : Bool → ℕ → HxOption → Type 0
  IsLetter void op d =
      ((op == dash) ≡ false) × (lookup_short table op ≡ some d) × (takes_void d.typ ≡ void)

  -- a long name without an equals sign that the table knows (or abbreviates), of an option with or
  -- without a value
  abbrev pub IsName : Bool → List ℕ → HxOption → Type 0
  IsName void name d =
      (mem equal_sign name ≡ false)
      × (lookup_long_pfx table name ≡ match_ d)
      × (takes_void d.typ ≡ void)

  abbrev pub AllFlags : List (ℕ × HxOption) → Type 0
  AllFlags [] = Unit
  AllFlags (f ∷ flags) = IsLetter true f.0 f.1 × AllFlags flags

  abbrev pub IsEnding : Ending → Type 0
  IsEnding no_value = Unit
  IsEnding (attached op d c s) = IsLetter false op d
  IsEnding (separate op d value) = IsLetter false op d × (has_flag d.typ opt_optional ≡ false)

  -- an ending that is there
  abbrev pub HasValue : Ending → Type 0
  HasValue no_value = ⊥
  HasValue (attached op d c s) = Unit
  HasValue (separate op d value) = Unit

  -- An item that can be written: its options are in the table, a flag takes no value and any other
  -- option takes one, a separate value is required, and a positional argument does not start with a
  -- dash.
  abbrev pub IsItem : Item → Type 0
  IsItem (positional a) = StartsPlain a
  IsItem lone_dash = Unit
  IsItem (long_flag d c s) = IsName true (c ∷ s) d
  IsItem (long_equal d c s value) = IsName false (c ∷ s) d
  IsItem (long_two d c s value) = IsName false (c ∷ s) d × (has_flag d.typ opt_optional ≡ false)
  IsItem (short_flags op d flags e) = IsLetter true op d × AllFlags flags × IsEnding e
  IsItem (short_value e) = IsEnding e × HasValue e

  abbrev pub AllItems : List Item → Type 0
  AllItems [] = Unit
  AllItems (i ∷ items) = IsItem i × AllItems items

  module _ (memory : ℕ → Bool) (rq_order : Bool) where
    -- The rounds of the loop from one state to its end.
    pub data Leads : State → List ℕ → List (List ℕ) → Vars → Parsed → Type 0 where
      last :
          {s : State} {op : List ℕ} {args : List (List ℕ)} {v : Vars} (s' : State) (c : Option Call)
          (a : Advance) (v' w : Vars)
          → handle memory table rq_order s op args v ≡ go s' c a v'
          → assigned memory table c v' ≡ some w
          → advanced a op args ≡ none
          → Leads s op args v (parsed w)
      round :
          {s : State} {op : List ℕ} {args : List (List ℕ)} {v : Vars} {r : Parsed} (s' : State)
          (c : Option Call) (a : Advance) (v' w : Vars) (op' : List ℕ) (args' : List (List ℕ))
          → handle memory table rq_order s op args v ≡ go s' c a v'
          → assigned memory table c v' ≡ some w
          → advanced a op args ≡ some (op', args')
          → Leads s' op' args' w r
          → Leads s op args v r

    loop_round :
        (n : ℕ) (s s' : State) (op op' : List ℕ) (args args' : List (List ℕ)) (v v' w : Vars)
        (c : Option Call) (a : Advance)
        → handle memory table rq_order s op args v ≡ go s' c a v'
        → assigned memory table c v' ≡ some w
        → advanced a op args ≡ some (op', args')
        → getopt_loop memory table (suc n) rq_order s op args v
          ≡ getopt_loop memory table n rq_order s' op' args' w
    unfolding getopt_loop
    loop_round n s s' op op' args args' v v' w c a hd asg ad =
        rw (hd, getopt_loop) (rw asg (rw ad refl))

    loop_last :
        (n : ℕ) (s s' : State) (op : List ℕ) (args : List (List ℕ)) (v v' w : Vars)
        (c : Option Call) (a : Advance)
        → handle memory table rq_order s op args v ≡ go s' c a v'
        → assigned memory table c v' ≡ some w
        → advanced a op args ≡ none
        → getopt_loop memory table (suc n) rq_order s op args v ≡ some (parsed w)
    unfolding getopt_loop
    loop_last n s s' op args v v' w c a hd asg ad = rw (hd, getopt_loop) (rw asg (rw ad refl))

    out_of_fuel :
        (s : State) (op : List ℕ) (args : List (List ℕ)) (v : Vars) (x : Parsed)
        → getopt_loop memory table 0 rq_order s op args v ≢ some x
    unfolding getopt_loop
    out_of_fuel s op args v x e = ground arith

    -- A run on fuel that gives a result gives the one that the rounds lead to.
    pub getopt_loop-Leads :
        (n : ℕ) (s : State) (op : List ℕ) (args : List (List ℕ)) (v : Vars) (r x : Parsed)
        → Leads s op args v r
        → getopt_loop memory table n rq_order s op args v ≡ some x
        → getopt_loop memory table n rq_order s op args v ≡ some r
    getopt_loop-Leads zero s op args v r x h e = absurd (out_of_fuel s op args v x e)
    getopt_loop-Leads (suc n) s op args v r x (last s' c a v' w hd asg ad) e =
        loop_last n s s' op args v v' w c a hd asg ad
    getopt_loop-Leads (suc n) s op args v r x (round s' c a v' w op' args' hd asg ad more) e =
        let next = loop_round n s s' op op' args args' v v' w c a hd asg ad in
        next ∙ getopt_loop-Leads n s' op' args' w r x more (sym next ∙ e)
