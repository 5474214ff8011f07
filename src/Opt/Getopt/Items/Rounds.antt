-- ===== src/Opt/Getopt/Items/Rounds.antt =====
-- What the rounds of the loop of HX_getopt6 in src/opt.c add to the calls and arguments.
use libhx.Opt.Getopt.Items.{
  Ending, no_value, attached, separate, letters, ending_bytes, ending_words, call, flag_calls,
  ending_calls, AllFlags, IsEnding, Leads, last, round,
}
use libhx.Opt.Getopt.Items.Strings.{
  called, with_arg, do_assign_front-memory, short-end, short-flag, short-attached, short-separate,
}
use libhx.Opt.Getopt.{
  State, s_normal, s_short, adv_arg, adv_arg2, adv_char, Call, by_short, Vars, Outcome, go, Parsed,
  parsed, handle, assigned, advanced,
}
use libhx.Opt.{HxOption}
use libhx.Prelude.{
  ℕ, ◌≡◌, refl, ap, sym, ◌∙◌, subst, Bool, true, false, Option, none, some, List, [], ◌∷◌, ◌++◌,
  append_assoc, append-nil,
}

abbrev pub descs : List Call → List HxOption
descs [] = []
descs (c ∷ cs) = c.current ∷ descs cs

abbrev pub values : List Call → List (Option (List ℕ))
values [] = []
values (c ∷ cs) = c.value ∷ values cs

-- The vars with some more calls of do_assign, entered in `desc` and `oarg` too, and some more
-- arguments.
pub record Plus (v : Vars) (cs : List Call) (args : List (List ℕ)) (w : Vars) : Type 0 where
  pub desc : w.desc ≡ v.desc ++ descs cs
  pub oarg : w.oarg ≡ v.oarg ++ values cs
  pub calls : w.calls ≡ v.calls ++ cs
  pub uarg : w.uarg ≡ v.uarg ++ args

descs-append : (a b : List Call) → descs (a ++ b) ≡ descs a ++ descs b
descs-append [] b = refl
descs-append (c ∷ a) b = ap (λ m. c.current ∷ m) (descs-append a b)

values-append : (a b : List Call) → values (a ++ b) ≡ values a ++ values b
values-append [] b = refl
values-append (c ∷ a) b = ap (λ m. c.value ∷ m) (values-append a b)

pub Plus-nothing : (v : Vars) → Plus v [] [] v
Plus-nothing v = record {
  desc = sym (append-nil v.desc);
  oarg = sym (append-nil v.oarg);
  calls = sym (append-nil v.calls);
  uarg = sym (append-nil v.uarg);
}

pub Plus-called : (v : Vars) (c : Call) → Plus v (c ∷ []) [] (called v c)
Plus-called v c = record { desc = refl; oarg = refl; calls = refl; uarg = sym (append-nil v.uarg) }

pub Plus-with_arg : (v : Vars) (a : List ℕ) → Plus v [] (a ∷ []) (with_arg v a)
Plus-with_arg v a = record {
  desc = sym (append-nil v.desc);
  oarg = sym (append-nil v.oarg);
  calls = sym (append-nil v.calls);
  uarg = refl;
}

pub Plus-trans :
    (u v w : Vars) (cs ds : List Call) (xs bs : List (List ℕ))
    → Plus u cs xs v
    → Plus v ds bs w
    → Plus u (cs ++ ds) (xs ++ bs) w
Plus-trans u v w cs ds xs bs p q = record {
  desc =
      q.desc
      ∙ ap (λ m. m ++ descs ds) p.desc
      ∙ append_assoc u.desc (descs cs) (descs ds)
      ∙ ap (λ m. u.desc ++ m) (sym (descs-append cs ds));
  oarg =
      q.oarg
      ∙ ap (λ m. m ++ values ds) p.oarg
      ∙ append_assoc u.oarg (values cs) (values ds)
      ∙ ap (λ m. u.oarg ++ m) (sym (values-append cs ds));
  calls = q.calls ∙ ap (λ m. m ++ ds) p.calls ∙ append_assoc u.calls cs ds;
  uarg = q.uarg ∙ ap (λ m. m ++ bs) p.uarg ∙ append_assoc u.uarg xs bs;
}

module _ (table : List HxOption) (memory : ℕ → Bool) (all : (i : ℕ) → memory i ≡ true) where
  -- the loop from the base state on leads to a result
  abbrev pub Parses : List (List ℕ) → Vars → Parsed → Type 0
  Parses [] v r = r ≡ parsed v
  Parses (a ∷ args) v r = Leads table memory false s_normal a args v r

  unfoldable pub Handles : State → List ℕ → List (List ℕ) → Vars → Outcome → Type 0
  Handles s op args v o = handle memory table false s op args v ≡ o

  pub next_arg :
      (s : State) (op : List ℕ) (args : List (List ℕ)) (v v' w : Vars) (c : Option Call)
      (r : Parsed)
      → Handles s op args v (go s_normal c adv_arg v')
      → assigned memory table c v' ≡ some w
      → Parses args w r
      → Leads table memory false s op args v r
  unfolding Handles advanced
  next_arg s op [] v v' w c r h e p =
      subst (Leads table memory false s op [] v) (sym p) (last s_normal c adv_arg v' w h e refl)
  next_arg s op (a ∷ args) v v' w c r h e p = round s_normal c adv_arg v' w a args h e refl p

  pub next_arg2 :
      (s : State) (op value : List ℕ) (args : List (List ℕ)) (v v' w : Vars) (c : Option Call)
      (r : Parsed)
      → Handles s op (value ∷ args) v (go s_normal c adv_arg2 v')
      → assigned memory table c v' ≡ some w
      → Parses args w r
      → Leads table memory false s op (value ∷ args) v r
  unfolding Handles advanced
  next_arg2 s op value [] v v' w c r h e p =
      subst (Leads table memory false s op (value ∷ []) v) (sym p)
        (last s_normal c adv_arg2 v' w h e refl)
  next_arg2 s op value (a ∷ args) v v' w c r h e p =
      round s_normal c adv_arg2 v' w a args h e refl p

  pub assigned-memory : (v : Vars) (c : Call) → assigned memory table (some c) v ≡ some (called v c)
  unfolding assigned
  assigned-memory v c = do_assign_front-memory memory table all v c

  pub assigned-none : (v : Vars) → assigned memory table none v ≡ some v
  unfolding assigned
  assigned-none v = refl

  -- From a state at some argument, the loop gets behind the given ones, with more calls and arguments.
  unfoldable pub Gets :
      State → List ℕ → List (List ℕ) → List (List ℕ) → Vars → List Call → List (List ℕ) → Type 0
  Gets s op others args v cs xs =
      (w : Vars) × Plus v cs xs w
      × ((r : Parsed) → Parses args w r → Leads table memory false s op (others ++ args) v r)

  pub ending-Gets :
      (e : Ending) (args : List (List ℕ)) (v : Vars)
      → IsEnding table e
      → Gets s_short (ending_bytes e) (ending_words e) args v (ending_calls e) []
  unfolding Gets Handles
  ending-Gets no_value args v h = (
    v,
    Plus-nothing v,
    λ r p.
        next_arg s_short [] args v v v none r (short-end memory table all args v) (assigned-none v)
          p,
  )
  ending-Gets (attached op d c s) args v h =
      let k = call by_short d (some (c ∷ s)) in
      (
        called v k,
        Plus-called v k,
        λ r p.
            next_arg s_short (op ∷ c ∷ s) args v v (called v k) (some k) r
              (short-attached memory table all op d c s args v h) (assigned-memory v k) p,
      )
  ending-Gets (separate op d value) args v h =
      let k = call by_short d (some value) in
      (
        called v k,
        Plus-called v k,
        λ r p.
            next_arg2 s_short (op ∷ []) value args v v (called v k) (some k) r
              (short-separate memory table all op d value args v h.0 h.1) (assigned-memory v k) p,
      )

  pub flags-Gets :
      (flags : List (ℕ × HxOption)) (e : Ending) (args : List (List ℕ)) (v : Vars)
      → AllFlags table flags
      → IsEnding table e
      → Gets s_short
          (letters flags ++ ending_bytes e)
          (ending_words e)
          args
          v
          (flag_calls flags ++ ending_calls e)
          []
  unfolding Gets Handles advanced
  flags-Gets [] e args v h he = ending-Gets e args v he
  flags-Gets (f ∷ flags) e args v h he =
      let k = call by_short f.1 none in
      let (w, p, more) = flags-Gets flags e args (called v k) h.1 he in
      (
        w,
        Plus-trans v (called v k) w (k ∷ []) (flag_calls flags ++ ending_calls e) [] []
            (Plus-called v k) p,
        λ r q.
            round s_short (some k) adv_char v (called v k) (letters flags ++ ending_bytes e)
              (ending_words e ++ args)
              (short-flag memory table all f.0 f.1 (letters flags ++ ending_bytes e)
                (ending_words e ++ args) v h.0)
              (assigned-memory v k) refl (more r q),
      )

  -- an item that is one call or one argument, in one round
  pub one_round-Gets :
      (s : State) (op : List ℕ) (args : List (List ℕ)) (v v' w : Vars) (c : Option Call)
      (cs : List Call) (xs : List (List ℕ))
      → Handles s op args v (go s_normal c adv_arg v')
      → assigned memory table c v' ≡ some w
      → Plus v cs xs w
      → Gets s op [] args v cs xs
  unfolding Gets
  one_round-Gets s op args v v' w c cs xs h e p = (w, p, λ r q. next_arg s op args v v' w c r h e q)

  -- a first round that only changes the state, or takes the dash of an option letter
  pub first_round-Gets :
      (s s' : State) (op op' : List ℕ) (others args : List (List ℕ)) (v : Vars) (cs : List Call)
      (xs : List (List ℕ))
      → Gets s' op' others args v cs xs
      → ((r : Parsed)
          → Leads table memory false s' op' (others ++ args) v r
          → Leads table memory false s op (others ++ args) v r)
      → Gets s op others args v cs xs
  unfolding Gets
  first_round-Gets s s' op op' others args v cs xs (w, p, more) f = (w, p, λ r q. f r (more r q))
