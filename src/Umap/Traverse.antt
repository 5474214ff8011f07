-- ===== src/Umap/Traverse.antt =====
-- The traverser of the hash map in src/map.c (struct HXumap_trav): HXumap_travinit and
-- HXumap_traverse.
--
-- A pointer into the circular list of a bucket is the bucket's index and a position in it, where 0 is
-- the list head in `bk_array` and i + 1 is the i-th node. The position stays the pointer's as long as
-- the bucket is not changed between two calls.
pub mod Visit
mod Tests
use libhx.Prelude.{
  ℕ, zero, suc, ◌-◌, ◌%◌, Bool, true, false, not, Option, none, some, List, [], ◌∷◌, length, get_or,
  get_elem?, if◌then◌else◌, ltb, leb, ◌==◌,
}
use libhx.Umap.{Umap, prime}

-- `const struct HXlist_head *`
pub data Head : Type 0 where
  null : Head
  link : (bucket position : ℕ) → Head

-- `struct HXumap_trav`, without the pointer to the map
pub record Trav : Type 0 where
  pub flags : ℕ
  pub head : Head
  pub bk_current : ℕ
  pub tid : ℕ

-- What HXumap_traverse returns: NULL, an entry, or what lies around a list head that is in no node.
pub data Found {ℓ} (K V : Type ℓ) : Type ℓ where
  no_entry : Found K V
  entry : K × V → Found K V
  wild : Found K V

-- `HXumap_travinit`, when malloc succeeds: HXMAP_DTRAV, the bit 0, is taken off the flags
unfoldable pub trav_init {ℓ} : {K V : Type ℓ} → Umap K V → ℕ → Trav
trav_init m flags = record { flags = flags - flags % 2; head = null; bk_current = 0; tid = m.tid }

-- `trav->head == &hmap->bk_array[trav->bk_current]`
abbrev pub is_list_head : Head → ℕ → Bool
is_list_head null bk_current = false
is_list_head (link b zero) bk_current = b == bk_current
is_list_head (link b (suc i)) bk_current = false

module _ {ℓ} {K V : Type ℓ} where
  -- the bucket at an index
  abbrev pub bucket_at : Umap K V → ℕ → List (K × V)
  bucket_at m b = get_or m.buckets b []

  -- the position that `next` leads to
  unfoldable pub next_in : List (K × V) → ℕ → ℕ
  next_in bucket p = if ltb p (length bucket) then suc p else 0

  -- `&HXlist_entry(head, struct HXumap_node, anchor)->key`
  abbrev pub entry_in : Option (K × V) → Found K V
  entry_in none = wild
  entry_in (some e) = entry e

  unfoldable pub entry_at : Umap K V → Head → Found K V
  entry_at m null = wild
  entry_at m (link b zero) = wild
  entry_at m (link b (suc i)) = entry_in (get_elem? (bucket_at m b) i)

  -- The loop past the ends of buckets and the return. `n` is the number of buckets behind the current
  -- one, so that `++bk_current >= HXhash_primes[power]` is met when it is 0.
  unfoldable pub skip : Umap K V → ℕ → Trav → Found K V × Trav
  unfolding next_in entry_at
  skip m zero t =
      if is_list_head t.head t.bk_current
      then (no_entry, record t { bk_current = suc t.bk_current })
      else (entry_at m t.head, t)
  skip m (suc n) t =
      let b = suc t.bk_current in
      let rest =
        skip m n (record t { bk_current = b; head = link b (next_in (bucket_at m b) 0) }) in
      if is_list_head t.head t.bk_current then rest else (entry_at m t.head, t)

  abbrev pub buckets_behind : Umap K V → ℕ → ℕ
  buckets_behind m b = prime m.power - suc b

  -- `HXumap_traverse`
  unfoldable pub traverse : Umap K V → Trav → Found K V × Trav
  unfolding skip next_in
  traverse m t =
      let b = t.bk_current in
      elim t.head [
        | null ↦
            skip m (buckets_behind m b) (record t { head = link b (next_in (bucket_at m b) 0) })
        | link c p ↦
            if not (t.tid == m.tid)
            then (if leb (prime m.power) b
                then (no_entry, t)
                else skip m (buckets_behind m b) (record t { head = link b 0; tid = m.tid }))
            else skip m (buckets_behind m b)
                (record t { head = link c (next_in (bucket_at m c) p) })
      ]

  -- a loop of calls of HXmap_traverse up to NULL, on fuel
  unfoldable pub visit : ℕ → Umap K V → Trav → Option (List (K × V))
  unfolding traverse
  visit zero m t = none
  visit (suc n) m t =
      let rest = visit n m (traverse m t).1 in
      elim (traverse m t).0 [
        | no_entry ↦ some []
        | entry e ↦ elim rest [ none ↦ none | some es ↦ some (e ∷ es) ]
        | wild ↦ none
      ]
