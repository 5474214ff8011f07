-- ===== src/Umap.antt =====
-- The hash map of src/map.c (struct HXumap, src/map_int.h). The circular list of a bucket, from its
-- head on, is a list of entries: HXlist_add_tail appends, and HXlist_del takes the node out that
-- HXumap_find returned, the first one with the key. Counters of items are not bounded (each item is
-- a node in memory); the transaction ID wraps at 2 ^ 32.
pub mod Buckets
pub mod Placed
pub mod Rehash
pub mod Valid
pub mod Change
pub mod Methods
pub mod Refine
pub mod Load
pub mod Foreach
pub mod Traverse
pub mod Tests
use Prim.Native.Nat.Ordering.{lt, eq, gt}
use Prim.Native.Nat.{Ordering}
use libhx.Ops.{
  MapOps, Ret, done, fail, eexist, enomem, clone_errno, Release, free_key, free_data, noreplace,
  key_failed, data_failed, uint_mod,
}
use libhx.Prelude.{
  ℕ, zero, suc, ◌+◌, ◌-◌, ◌*◌, ◌/◌, ◌%◌, ◌≡◌, refl, ap, ◌∙◌, Bool, true, false, not, ◌&&◌, ◌||◌,
  Option, none, some, List, [], ◌∷◌, ◌++◌, length, get_or, replicate, if◌then◌else◌, ltb, leb, ◌==◌,
}

-- `HXhash_primes`
abbrev pub hash_primes : List ℕ
hash_primes =
    23 ∷ 53 ∷ 97 ∷ 193 ∷ 389 ∷ 769 ∷ 1543 ∷ 3079 ∷ 6151 ∷ 12289 ∷ 24593 ∷ 49157 ∷ 98317 ∷ 196613
    ∷ 393241 ∷ 786433 ∷ 1572869 ∷ 3145739 ∷ 6291469 ∷ 12582917 ∷ 25165843 ∷ 50331653 ∷ 100663319
    ∷ 201326611 ∷ 402653189 ∷ 805306457 ∷ 1610612741 ∷ 3221225473 ∷ []

-- `HXhash_primes[power]`
unfoldable pub prime : ℕ → ℕ
prime power = get_or hash_primes power 1

-- `x_frac`, in an unsigned int
unfoldable pub x_frac : ℕ → ℕ → ℕ → ℕ
x_frac n d v = (v / d * n % uint_mod + v % d * n % uint_mod / d) % uint_mod

-- `min_load` and `max_load` of a table of a given power
unfoldable pub min_load_at : ℕ → ℕ
unfolding prime
min_load_at power = if power == 0 then 0 else prime power / 4

unfoldable pub max_load_at : ℕ → ℕ
unfolding x_frac prime
max_load_at power = x_frac 7 10 (prime power)

-- `struct HXumap`
pub record Umap {ℓ} (K V : Type ℓ) : Type ℓ where
  pub buckets : List (List (K × V))
  pub power : ℕ
  pub min_load : ℕ
  pub max_load : ℕ
  pub tid : ℕ
  pub items : ℕ
  pub flags : ℕ

-- What HXumap_add does: its result, the map after it, and the calls of the free functions.
pub record UmapAdded {ℓ} (K V : Type ℓ) : Type ℓ where
  pub ret : Ret
  pub map : Umap K V
  pub released : List (Release K V)

-- What HXumap_del does; `none` is NULL with ENOENT.
pub record UmapDeleted {ℓ} (K V : Type ℓ) : Type ℓ where
  pub value : Option V
  pub map : Umap K V
  pub released : List (Release K V)

-- a change of the bucket at an index
unfoldable pub update_bucket {ℓ} :
    {A : Type ℓ} → ℕ → (List A → List A) → List (List A) → List (List A)
update_bucket i f [] = []
update_bucket zero f (b ∷ bs) = f b ∷ bs
update_bucket (suc i) f (b ∷ bs) = b ∷ update_bucket i f bs

module _ {ℓ} {K V : Type ℓ} where
  -- `HXumap_keysvalues`
  unfoldable pub keysvalues : List (List (K × V)) → List (K × V)
  keysvalues [] = []
  keysvalues (b ∷ bs) = b ++ keysvalues bs

  -- `HXumap_free`
  unfoldable pub free_bucket : Bool → Bool → List (K × V) → List (Release K V)
  free_bucket kf df [] = []
  free_bucket kf df ((k, v) ∷ b) =
      (if kf then free_key k ∷ [] else [])
      ++ ((if df then free_data v ∷ [] else []) ++ free_bucket kf df b)

  unfoldable pub free_buckets : Bool → Bool → List (List (K × V)) → List (Release K V)
  unfolding free_bucket
  free_buckets kf df [] = []
  free_buckets kf df (b ∷ bs) = free_bucket kf df b ++ free_buckets kf df bs

  -- `HXumap_qfe`: the callback has a state, and says whether to go on; so does each loop.
  unfoldable pub qfe_bucket {ℓ'} :
      {S : Type ℓ'} → (S → K × V → S × Bool) → S → List (K × V) → S × Bool
  qfe_bucket fn s [] = (s, true)
  qfe_bucket fn s (e ∷ b) =
      let (s', more) = fn s e in let rest = qfe_bucket fn s' b in if more then rest else (s', false)

  unfoldable pub qfe_buckets {ℓ'} :
      {S : Type ℓ'} → (S → K × V → S × Bool) → S → List (List (K × V)) → S × Bool
  unfolding qfe_bucket
  qfe_buckets fn s [] = (s, true)
  qfe_buckets fn s (b ∷ bs) =
      let (s', more) = qfe_bucket fn s b in
      let rest = qfe_buckets fn s' bs in if more then rest else (s', false)

module _ {ℓ} {K V : Type ℓ} (o : MapOps K V) where
  -- `k_compare(key, drop->key) == 0`
  unfoldable pub is_at : K → K × V → Bool
  is_at key e = elim (o.k_compare key e.0) [ lt ↦ false | eq ↦ true | gt ↦ false ]

  -- the loop of `HXumap_find`
  unfoldable pub find_in : List (K × V) → K → Option (K × V)
  unfolding is_at
  find_in [] key = none
  find_in (e ∷ b) key = if is_at key e then some e else find_in b key

  -- `HXlist_del` of the node that `find_in` finds
  unfoldable pub unlink_in : K → List (K × V) → List (K × V)
  unfolding is_at
  unlink_in key [] = []
  unlink_in key (e ∷ b) = if is_at key e then b else e ∷ unlink_in key b

  -- `drop->data = new_value` on that node
  unfoldable pub set_in : K → V → List (K × V) → List (K × V)
  unfolding is_at
  set_in key v [] = []
  set_in key v (e ∷ b) = if is_at key e then (e.0, v) ∷ b else e ∷ set_in key v b

  -- the index of the bucket of a key among `n`
  unfoldable pub bk_idx : ℕ → K → ℕ
  bk_idx n key = o.k_hash key % n

  -- `HXumap_find`
  unfoldable pub find : Umap K V → K → Option (K × V)
  unfolding find_in bk_idx prime
  find m key = find_in (get_or m.buckets (bk_idx (prime m.power) key) []) key

  -- `HXlist_add_tail(&bk_array[bk_idx], &drop->anchor)`
  unfoldable pub add_tail : (K → ℕ) → List (List (K × V)) → K × V → List (List (K × V))
  unfolding update_bucket
  add_tail idx bs e = update_bucket (idx e.0) (λ b. b ++ e ∷ []) bs

  -- `HXumap_move`
  unfoldable pub move_bucket : (K → ℕ) → List (List (K × V)) → List (K × V) → List (List (K × V))
  unfolding add_tail
  move_bucket idx bs [] = bs
  move_bucket idx bs (e ∷ b) = move_bucket idx (add_tail idx bs e) b

  unfoldable pub move : (K → ℕ) → List (List (K × V)) → List (List (K × V)) → List (List (K × V))
  unfolding move_bucket
  move idx bs [] = bs
  move idx bs (b ∷ old) = move idx (move_bucket idx bs b) old

  -- `HXumap_layout` of a table that exists, when malloc succeeds
  unfoldable pub laid_out : Umap K V → ℕ → Umap K V
  unfolding move bk_idx prime min_load_at max_load_at
  laid_out m power = record m {
    buckets = move (bk_idx (prime power)) (replicate (prime power) []) m.buckets;
    power = power;
    min_load = min_load_at power;
    max_load = max_load_at power;
    tid = (m.tid + 1) % uint_mod;
  }

  -- `HXumap_layout`; `none` when malloc fails.
  unfoldable pub layout : Bool → Umap K V → ℕ → Option (Umap K V)
  unfolding laid_out
  layout memory m power = if memory then some (laid_out m power) else none

  -- `HXhashmap_init4`, when malloc succeeds
  unfoldable pub init : ℕ → Umap K V
  unfolding prime min_load_at max_load_at
  init flags = record {
    buckets = replicate (prime 0) [];
    power = 0;
    min_load = min_load_at 0;
    max_load = max_load_at 0;
    tid = 1;
    items = 0;
    flags = flags;
  }

  -- `HXumap_replace` on the node of `key`, whose datum is `old`
  unfoldable pub replace : Umap K V → K → V → V → UmapAdded K V
  unfolding set_in update_bucket bk_idx prime
  replace m key old value =
      if noreplace m.flags
      then record { ret = fail eexist; map = m; released = [] }
      else if data_failed o value
      then record { ret = fail clone_errno; map = m; released = [] }
      else record {
        ret = done;
        map = record m {
          buckets =
              update_bucket (bk_idx (prime m.power) key) (set_in key (o.d_clone value)) m.buckets;
        };
        released = if o.d_free then free_data old ∷ [] else [];
      }

  -- The resize of `HXumap_add`; `none` is a failure of `HXumap_layout`.
  unfoldable pub resize : Bool → Umap K V → Option (Umap K V)
  unfolding layout
  resize memory m =
      if leb m.max_load m.items && ltb m.power (length hash_primes - 1)
      then layout memory m (m.power + 1)
      else if ltb m.items m.min_load && ltb 0 m.power
      then layout memory m (m.power - 1)
      else some m

  -- The new node of `HXumap_add`, with the label `out`; `memory` is whether malloc succeeds.
  unfoldable pub add_node : Bool → Umap K V → K → V → UmapAdded K V
  unfolding add_tail bk_idx prime
  add_node memory m key value =
      if not memory
      then record { ret = fail enomem; map = m; released = [] }
      else if key_failed o key || data_failed o value
      then record {
        ret = fail clone_errno;
        map = m;
        released = if o.k_free then free_key (o.k_clone key) ∷ [] else [];
      }
      else record {
        ret = done;
        map = record m {
          buckets =
              update_bucket (bk_idx (prime m.power) key)
                (λ b. b ++ (o.k_clone key, o.d_clone value) ∷ []) m.buckets;
          items = m.items + 1;
        };
        released = [];
      }

  -- `HXumap_add`; the two Booleans are the memory for the layout and for the node.
  unfoldable pub add : Bool → Bool → Umap K V → K → V → UmapAdded K V
  unfolding find replace resize add_node
  add memory node_memory m key value = elim (find m key) [
    | some e ↦ replace m key e.1 value
    | none ↦ elim (resize memory m) [
      | none ↦ record { ret = fail enomem; map = m; released = [] }
      | some m' ↦ add_node node_memory m' key value
    ]
  ]

  -- `HXumap_del`; a failure of the layout keeps the table.
  unfoldable pub shrink : Bool → Umap K V → Umap K V
  unfolding layout
  shrink memory m =
      if ltb m.items m.min_load && ltb 0 m.power
      then elim (layout memory m (m.power - 1)) [ none ↦ m | some m' ↦ m' ]
      else m

  unfoldable pub del : Bool → Umap K V → K → UmapDeleted K V
  unfolding find unlink_in update_bucket bk_idx prime shrink
  del memory m key = elim (find m key) [
    | none ↦ record { value = none; map = m; released = [] }
    | some e ↦ record {
      value = some e.1;
      map = shrink memory (record m {
        buckets = update_bucket (bk_idx (prime m.power) key) (unlink_in key) m.buckets;
        tid = (m.tid + 1) % uint_mod;
        items = m.items - 1;
      });
      released =
          (if o.k_free then free_key e.0 ∷ [] else [])
          ++ (if o.d_free then free_data e.1 ∷ [] else []);
    }
  ]
