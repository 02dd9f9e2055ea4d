-- ===== src/Storage/View.antt =====
-- The cache as a map from keys to values and their times.
use coalago.Base.{
  ℕ, ◌+◌, ◌≤◌, ◌≡◌, refl, sym, ap, ◌∙◌, true, false, Option, none, some, List, [], ◌∷◌, ltb, ◌==◌,
  ==_self, if◌then◌else◌, bytes_eq, bytes_eq_iff, arith, Bool-cases, Option-cases, inl, inr,
}
use coalago.Storage.{
  Item, Cache, shard, load, erase, put, in_shard, set_item, delete_item, get_item,
}

-- Keys that differ from one and not from the other.
apart : (a b k : List ℕ) → bytes_eq a k ≡ true → bytes_eq a b ≡ false → bytes_eq b k ≡ false
apart a b k q e = elim (Bool-cases (bytes_eq b k)) [
  | inl p ↦
      let same : a ≡ b = (bytes_eq_iff a k).0 q ∙ sym ((bytes_eq_iff b k).0 p) in
      let yes = (bytes_eq_iff a b).1 same in cc (yes, e)
  | inr p ↦ p
]

other_shard : (k key : List ℕ) → (shard k == shard key) ≡ false → bytes_eq key k ≡ false
other_shard k key e = elim (Bool-cases (bytes_eq key k)) [
  | inl p ↦
      let same : shard k ≡ shard key = ap shard (sym ((bytes_eq_iff key k).0 p)) in
      let yes : (shard k == shard key) ≡ true = rw same (==_self (shard key)) in cc (yes, e)
  | inr p ↦ p
]

module _ {V : Type 0} where
  pub load-erase :
      (k key : List ℕ) (is : List (Item V))
      → load k (erase key is) ≡ (if bytes_eq key k then none else load k is)
  unfolding load erase
  load-erase k key [] = elim (Bool-cases (bytes_eq key k)) [ inl e ↦ rw e refl | inr e ↦ rw e refl ]
  load-erase k key (i ∷ is) = elim (Bool-cases (bytes_eq i.key key)) [
    | inl e ↦
        let same : bytes_eq i.key k ≡ bytes_eq key k =
          ap (λ x. bytes_eq x k) ((bytes_eq_iff _ _).0 e) in
        rw (e, erase)
          (load-erase k key is ∙ elim (Bool-cases (bytes_eq key k)) [
            | inl q ↦ rw q refl
            | inr q ↦ rw (q, same, q) refl
          ])
    | inr e ↦
        rw (e, erase)
          (elim (Bool-cases (bytes_eq i.key k)) [
            | inl q ↦ rw (q, apart i.key key k q e) refl
            | inr q ↦ rw q (load-erase k key is)
          ])
  ]

  load-put :
      (k : List ℕ) (i : Item V) (is : List (Item V))
      → load k (put i is) ≡ (if bytes_eq i.key k then some i else load k is)
  unfolding load put
  load-put k i is = elim (Bool-cases (bytes_eq i.key k)) [
    | inl e ↦ rw e refl
    | inr e ↦ rw e (load-erase k i.key is ∙ rw e refl)
  ]

  -- What the cache holds under a key.
  unfoldable pub held : List ℕ → Cache V → Option (Item V)
  held k c = load k (c.shards (shard k))

  held-in_shard :
      (k key : List ℕ) (f : List (Item V) → List (Item V)) (b : Option (Item V)) (c : Cache V)
      → ((is : List (Item V)) → load k (f is) ≡ (if bytes_eq key k then b else load k is))
      → held k (in_shard key f c) ≡ (if bytes_eq key k then b else held k c)
  unfolding held in_shard
  held-in_shard k key f b c h = elim (Bool-cases (shard k == shard key)) [
    | inl e ↦ rw e (h _)
    | inr e ↦ rw (e, other_shard k key e) refl
  ]

  -- What Get finds under a key at a time.
  abbrev pub found_at : ℕ → Option (Item V) → Option V
  found_at now none = none
  found_at now (some i) = if ltb i.expires_at now then none else some i.value

  unfoldable pub live : ℕ → List ℕ → Cache V → Option V
  live now k c = found_at now (held k c)

  pub live-set_item :
      (now' now : ℕ) (k key : List ℕ) (v : V) (c : Cache V)
      → live now' k (set_item now key v c) ≡ (
          if bytes_eq key k
          then (if ltb (now + c.ttl) now' then none else some v)
          else live now' k c)
  unfolding live set_item
  live-set_item now' now k key v c =
      rw (held-in_shard k key (put item) (some item) c (load-put k item))
        (elim (Bool-cases (bytes_eq key k)) [ inl e ↦ rw e refl | inr e ↦ rw e refl ])
    where
      item : Item V
      item = record { key = key; value = v; expires_at = now + c.ttl }

  pub live-delete_item :
      (now : ℕ) (k key : List ℕ) (c : Cache V)
      → live now k (delete_item key c) ≡ (if bytes_eq key k then none else live now k c)
  unfolding live delete_item
  live-delete_item now k key c =
      rw (held-in_shard k key (erase key) none c (load-erase k key))
        (elim (Bool-cases (bytes_eq key k)) [ inl e ↦ rw e refl | inr e ↦ rw e refl ])

  pub get_item-live : (now : ℕ) (k : List ℕ) (c : Cache V) → (get_item now k c).0 ≡ live now k c
  unfolding get_item live held
  get_item-live now k c = elim (Option-cases (load k (c.shards (shard k)))) [
    | inl e ↦ rw (e, get_item) refl
    | inr (i, e) ↦
        rw (e, get_item)
          (elim (Bool-cases (ltb i.expires_at now)) [ inl q ↦ rw q refl | inr q ↦ rw q refl ])
  ]

  live-expired :
      (now : ℕ) (k : List ℕ) (c : Cache V) (i : Item V)
      → load k (c.shards (shard k)) ≡ some i
      → ltb i.expires_at now ≡ true
      → live now k c ≡ none
  unfolding live held
  live-expired now k c i e q = rw (e, q) refl

  -- Get may delete an expired item, which is not seen at any later time.
  pub live-get_item :
      (now' now : ℕ) (k key : List ℕ) (c : Cache V)
      → now ≤ now'
      → live now' k (get_item now key c).1 ≡ live now' k c
  unfolding get_item
  live-get_item now' now k key c h = elim (Option-cases (load key (c.shards (shard key)))) [
    | inl e ↦ rw (e, get_item) refl
    | inr (i, e) ↦
        rw (e, get_item)
          (elim (Bool-cases (ltb i.expires_at now)) [
            | inl q ↦ rw q (
                live-delete_item now' k key c ∙ elim (Bool-cases (bytes_eq key k)) [
                  | inl p ↦
                      let late : ltb i.expires_at now' ≡ true = ground arith in
                      rw p (
                        sym (
                          sym (ap (λ x. live now' x c) ((bytes_eq_iff key k).0 p))
                          ∙ live-expired now' key c i e late))
                  | inr p ↦ rw p refl
                ])
            | inr q ↦ rw q refl
          ])
  ]
