-- ===== src/Storage/Distinct.antt =====
-- The shards hold no key twice, so that the clean-up takes away only what is expired.
use coalago.Base.{
  ℕ, ◌≤◌, ◌≡◌, refl, sym, ap, ◌∙◌, Bool, true, none, List, [], ◌∷◌, filter, ltb, ◌==◌, bytes_eq,
  bytes_eq_iff, bytes_eq_self, arith, Bool-cases, Option-cases, inl, inr,
}
use coalago.Storage.{
  Item, Cache, shard, load, other, erase, put, in_shard, set_item, delete_item, get_item, is_kept,
  cleanup,
}
use coalago.Storage.View.{load-erase, found_at, held, live}

module _ {V : Type 0} where
  abbrev pub IsDistinct : List (Item V) → Type 0
  IsDistinct [] = Unit {0}
  IsDistinct (i ∷ is) = (load i.key is ≡ none) × IsDistinct is

  load-filter :
      (p : Item V → Bool) (k : List ℕ) (is : List (Item V))
      → load k is ≡ none
      → load k (filter p is) ≡ none
  unfolding load
  load-filter p k [] h = refl
  load-filter p k (i ∷ is) h = elim (Bool-cases (bytes_eq i.key k)) [
    | inl e ↦ (let h' = rw e at h in cc h')
    | inr e ↦ elim (Bool-cases (p i)) [
      | inl q ↦ rw (q, e) (load-filter p k is (rw e at h))
      | inr q ↦ rw q (load-filter p k is (rw e at h))
    ]
  ]

  filter-IsDistinct :
      (p : Item V → Bool) (is : List (Item V)) → IsDistinct is → IsDistinct (filter p is)
  filter-IsDistinct p [] d = tt
  filter-IsDistinct p (i ∷ is) (h, d) = elim (Bool-cases (p i)) [
    | inl q ↦ rw q (load-filter p i.key is h, filter-IsDistinct p is d)
    | inr q ↦ rw q (filter-IsDistinct p is d)
  ]

  put-IsDistinct : (i : Item V) (is : List (Item V)) → IsDistinct is → IsDistinct (put i is)
  unfolding put erase
  put-IsDistinct i is d = (
    (unfold erase in load-erase i.key i.key is) ∙ rw (bytes_eq_self i.key) refl,
    filter-IsDistinct (other i.key) is d,
  )

  -- No shard holds a key twice.
  abbrev pub IsCache : Cache V → Type 0
  IsCache c = (j : ℕ) → IsDistinct (c.shards j)

  in_shard-IsCache :
      (key : List ℕ) (f : List (Item V) → List (Item V)) (c : Cache V)
      → ((is : List (Item V)) → IsDistinct is → IsDistinct (f is))
      → IsCache c
      → IsCache (in_shard key f c)
  unfolding in_shard
  in_shard-IsCache key f c h d = λ j. elim (Bool-cases (j == shard key)) [
    | inl e ↦ rw e (h (c.shards j) (d j))
    | inr e ↦ rw e (d j)
  ]

  pub set_item-IsCache :
      (now : ℕ) (key : List ℕ) (v : V) (c : Cache V) → IsCache c → IsCache (set_item now key v c)
  unfolding set_item
  set_item-IsCache now key v c d = in_shard-IsCache key (put _) c (put-IsDistinct _) d

  pub delete_item-IsCache : (key : List ℕ) (c : Cache V) → IsCache c → IsCache (delete_item key c)
  unfolding delete_item erase
  delete_item-IsCache key c d = in_shard-IsCache key (erase key) c (filter-IsDistinct (other key)) d

  pub get_item-IsCache :
      (now : ℕ) (key : List ℕ) (c : Cache V) → IsCache c → IsCache (get_item now key c).1
  unfolding get_item
  get_item-IsCache now key c d = elim (Option-cases (load key (c.shards (shard key)))) [
    | inl e ↦ rw (e, get_item) d
    | inr (i, e) ↦
        rw (e, get_item)
          (elim (Bool-cases (ltb i.expires_at now)) [
            | inl q ↦ rw q (delete_item-IsCache key c d)
            | inr q ↦ rw q d
          ])
  ]

  pub cleanup-IsCache : (now : ℕ) (c : Cache V) → IsCache c → IsCache (cleanup now c)
  unfolding cleanup
  cleanup-IsCache now c d = λ j. filter-IsDistinct (is_kept now) (c.shards j) (d j)

  found_at-filter :
      (now' now : ℕ) (k : List ℕ) (is : List (Item V))
      → now ≤ now'
      → IsDistinct is
      → found_at now' (load k (filter (is_kept now) is)) ≡ found_at now' (load k is)
  unfolding load
  found_at-filter now' now k [] h d = refl
  found_at-filter now' now k (i ∷ is) h (new, d) = elim (Bool-cases (ltb i.expires_at now)) [
    | inl late ↦ elim (Bool-cases (bytes_eq i.key k)) [
      | inl e ↦
          let late' : ltb i.expires_at now' ≡ true = ground arith in
          let gone : load k is ≡ none =
            ap (λ x. load x is) (sym ((bytes_eq_iff i.key k).0 e)) ∙ new in
          rw (late, e, late') (found_at-filter now' now k is h d ∙ rw gone refl)
      | inr e ↦ rw (late, e) (found_at-filter now' now k is h d)
    ]
    | inr kept ↦ elim (Bool-cases (bytes_eq i.key k)) [
      | inl e ↦ rw (kept, e) refl
      | inr e ↦ rw (kept, e) (found_at-filter now' now k is h d)
    ]
  ]

  -- The clean-up takes away nothing that Get would still find.
  pub live-cleanup :
      (now' now : ℕ) (k : List ℕ) (c : Cache V)
      → now ≤ now'
      → IsCache c
      → live now' k (cleanup now c) ≡ live now' k c
  unfolding live held cleanup
  live-cleanup now' now k c h d = found_at-filter now' now k (c.shards (shard k)) h (d (shard k))
