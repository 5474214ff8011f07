-- ===== src/Umap/Refine.antt =====
-- HXumap_add and HXumap_del of src/map.c against a map as a function from keys to entries.
use libhx.Ops.{
  MapOps, IsLawful, Ret, done, fail, eexist, enomem, clone_errno, noreplace, key_failed,
  data_failed, uint_mod, free_key, free_data,
}
use libhx.Prelude.{
  ◌+◌, ◌-◌, ◌%◌, ◌≡◌, ◌≢◌, refl, ap, sym, ◌∙◌, subst, Bool, true, not, ◌||◌, if_related,
  if◌then◌else◌, Option, none, some, [], ◌∷◌, ◌++◌, arith,
}
use libhx.Umap.Change.{change, find_in-key, is_at-other}
use libhx.Umap.Methods.{
  Changed, RelaidIf, resize-RelaidIf, shrink-Relaid, insert-Changed, unlink-Changed, set-Changed,
}
use libhx.Umap.Placed.{is_at_refl}
use libhx.Umap.Valid.{IsValid}
use libhx.Umap.{
  Umap, UmapAdded, UmapDeleted, unlink_in, is_at, update_bucket, bk_idx, prime, find, replace,
  resize, add_node, add, shrink, del,
}

-- a map as a function
abbrev pub View {ℓ} : Type ℓ → Type ℓ → Type ℓ
View K V = K → Option (K × V)

module _ {ℓ} {K V : Type ℓ} (o : MapOps K V) where
  -- What adding means, by what a lookup of the key finds: `refuse` is HXMAP_NOREPLACE, `short` is a
  -- lack of memory for a new entry.
  abbrev pub add_view_at : Bool → Bool → View K V → K → V → Option (K × V) → Ret × View K V
  unfolding change
  add_view_at refuse short view key value (some e) =
      if refuse
      then (fail eexist, view)
      else if data_failed o value
      then (fail clone_errno, view)
      else (done, change o (key, o.d_clone value) (some (key, o.d_clone value)) view)
  add_view_at refuse short view key value none =
      if short
      then (fail enomem, view)
      else if key_failed o key || data_failed o value
      then (fail clone_errno, view)
      else (done, change o (key, o.d_clone value) (some (key, o.d_clone value)) view)

  abbrev pub add_view : Bool → Bool → View K V → K → V → Ret × View K V
  unfolding change
  add_view refuse short view key value = add_view_at refuse short view key value (view key)

  -- malloc fails for the layout, where one is due, or for the node
  abbrev pub is_short : Bool → Bool → Umap K V → Bool
  unfolding resize
  is_short memory node_memory m = elim (resize o memory m) [
    | none ↦ true
    | some m' ↦ not node_memory
  ]

  pub record AddRefines (spec : Ret × View K V) (a : UmapAdded K V) : Type ℓ where
    pub ret : a.ret ≡ spec.0
    pub valid : IsValid o a.map
    pub view : (q : K) → find o a.map q ≡ spec.1 q

  pub record DeleteRefines (key : K) (m : Umap K V) (d : UmapDeleted K V) : Type ℓ where
    pub value : d.value ≡ elim (find o m key) [ none ↦ none | some e ↦ some e.1 ]
    pub valid : IsValid o d.map
    pub gone : find o d.map key ≡ none
    pub others : (q : K) → q ≢ key → find o d.map q ≡ find o m q

  module _ (law : IsLawful o) where
    replace-AddRefines :
        (m : Umap K V) (key : K) (value : V) (e : K × V)
        → IsValid o m
        → find o m key ≡ some e
        → AddRefines
            (if noreplace m.flags
              then (fail eexist, find o m)
              else if data_failed o value
              then (fail clone_errno, find o m)
              else (done, change o (key, o.d_clone value) (some (key, o.d_clone value)) (find o m)))
            (replace o m key e.1 value)
    unfolding replace
    replace-AddRefines m key value e v h =
        if_related AddRefines (noreplace m.flags)
          (λ t. record { ret = refl; valid = v; view = λ q. refl })
          (λ f.
            if_related AddRefines (data_failed o value)
              (λ t. record { ret = refl; valid = v; view = λ q. refl })
              (λ f'.
                (let c = set-Changed o law m key (o.d_clone value) e v h in
                  record { ret = refl; valid = c.valid; view = c.view })))

    add_node-AddRefines :
        (node_memory : Bool) (m : Umap K V) (view : View K V) (key : K) (value : V)
        → IsValid o m
        → ((q : K) → find o m q ≡ view q)
        → view key ≡ none
        → AddRefines
            (if not node_memory
              then (fail enomem, view)
              else if key_failed o key || data_failed o value
              then (fail clone_errno, view)
              else (done, change o (key, o.d_clone value) (some (key, o.d_clone value)) view))
            (add_node o node_memory m key value)
    unfolding add_node change
    add_node-AddRefines node_memory m view key value v same h =
        if_related AddRefines (not node_memory) (λ t. record { ret = refl; valid = v; view = same })
          (λ f.
            if_related AddRefines (key_failed o key || data_failed o value)
              (λ t. record { ret = refl; valid = v; view = same })
              (λ f'.
                let cloned : o.k_clone key ≡ key = law.clone_key key (ground arith) in
                let c = insert-Changed o law m (key, o.d_clone value) v (same key ∙ h) in
                subst
                  (λ k.
                    AddRefines
                      (done, change o (key, o.d_clone value) (some (key, o.d_clone value)) view)
                      (record {
                        ret = done;
                        map = record m {
                          buckets =
                              update_bucket (bk_idx o (prime m.power) key)
                                (λ b. b ++ (k, o.d_clone value) ∷ []) m.buckets;
                          items = m.items + 1;
                        };
                        released = [];
                      }))
                  (sym cloned)
                  (record {
                    ret = refl;
                    valid = c.valid;
                    view = λ q.
                        c.view q
                        ∙ ap
                            (λ x.
                              if is_at o q (key, o.d_clone value)
                              then some (key, o.d_clone value)
                              else x)
                            (same q);
                  })))

    pub add-AddRefines :
        (memory node_memory : Bool) (m : Umap K V) (key : K) (value : V)
        → IsValid o m
        → AddRefines
            (add_view (noreplace m.flags) (is_short memory node_memory m) (find o m) key value)
            (add o memory node_memory m key value)
    unfolding add add_view_at
    add-AddRefines memory node_memory m key value v = found (find o m key) refl
      where
        sized :
            (r : Option (Umap K V))
            → RelaidIf o law m r
            → find o m key ≡ none
            → AddRefines
                (add_view_at
                  (noreplace m.flags)
                  (elim r as (λ _. Bool) [ none ↦ true | some m' ↦ not node_memory ])
                  (find o m)
                  key
                  value
                  none)
                (elim r as (λ _. UmapAdded K V) [
                  | none ↦ record { ret = fail enomem; map = m; released = [] }
                  | some m' ↦ add_node o node_memory m' key value
                ])
        sized none rel h = record { ret = refl; valid = v; view = λ q. refl }
        sized (some m') rel h =
            add_node-AddRefines node_memory m' (find o m) key value rel.valid rel.same h

        found :
            (r : Option (K × V))
            → find o m key ≡ r
            → AddRefines
                (add_view_at
                  (noreplace m.flags)
                  (is_short memory node_memory m)
                  (find o m)
                  key
                  value
                  r)
                (elim r as (λ _. UmapAdded K V) [
                  | some e ↦ replace o m key e.1 value
                  | none ↦ elim (resize o memory m) [
                    | none ↦ record { ret = fail enomem; map = m; released = [] }
                    | some m' ↦ add_node o node_memory m' key value
                  ]
                ])
        found none h = sized (resize o memory m) (resize-RelaidIf o law memory m v) h
        found (some e) h = replace-AddRefines m key value e v h

    -- HXumap_del on a valid map, with or without memory for a smaller layout: it returns the datum of
    -- the key or NULL, and leaves a valid map without the key and with the same entry for each other key.
    pub del-DeleteRefines :
        (memory : Bool) (m : Umap K V) (key : K)
        → IsValid o m
        → DeleteRefines key m (del o memory m key)
    unfolding del change find
    del-DeleteRefines memory m key v = found (find o m key) refl
      where
        found :
            (r : Option (K × V))
            → find o m key ≡ r
            → DeleteRefines key m (elim r as (λ _. UmapDeleted K V) [
              | none ↦ record { value = none; map = m; released = [] }
              | some e ↦ record {
                value = some e.1;
                map = shrink o memory (record m {
                  buckets =
                      update_bucket (bk_idx o (prime m.power) key) (unlink_in o key) m.buckets;
                  tid = (m.tid + 1) % uint_mod;
                  items = m.items - 1;
                });
                released =
                    (if o.k_free then free_key e.0 ∷ [] else [])
                    ++ (if o.d_free then free_data e.1 ∷ [] else []);
              }
            ])
        found none h = record { value = rw h; valid = v; gone = h; others = λ q d. refl }
        found (some e) h =
            let at : key ≡ e.0 = find_in-key o law _ key e h in
            let c : Changed o e none m (record m {
              buckets = update_bucket (bk_idx o (prime m.power) key) (unlink_in o key) m.buckets;
              tid = (m.tid + 1) % uint_mod;
              items = m.items - 1;
            }) =
              subst
                (λ k. Changed o e none m (record m {
                  buckets = update_bucket (bk_idx o (prime m.power) k) (unlink_in o k) m.buckets;
                  tid = (m.tid + 1) % uint_mod;
                  items = m.items - 1;
                }))
                (sym at)
                (unlink-Changed o law m e ((m.tid + 1) % uint_mod) v
                  (subst (λ k. find o m k ≡ some e) at h)) in
            let s = shrink-Relaid o law memory _ c.valid in
            let here : is_at o key e ≡ true =
              subst (λ k. is_at o k e ≡ true) (sym at) (is_at_refl o law e) in
            record {
              value = rw h;
              valid = s.valid;
              gone = s.same key ∙ c.view key ∙ ap (λ t. if t then none else find o m key) here;
              others = λ q d.
                  s.same q
                  ∙ c.view q
                  ∙ ap (λ t. if t then none else find o m q)
                      (is_at-other o law q e (λ t. d (t ∙ sym at)));
            }
