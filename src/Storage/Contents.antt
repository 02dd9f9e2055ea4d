-- ===== src/Storage/Contents.antt =====
-- storage.go: what holds of every value of a cache.
use mathlib.Core.Option
use coalago.Base.{
  ℕ, ◌≡◌, Bool, Option, none, some, List, [], ◌∷◌, filter, All, ltb, ◌==◌, bytes_eq, Bool-cases,
  Option-cases, inl, inr,
}
use coalago.Storage.{
  Item, Cache, shard, load, other, erase, put, in_shard, new_sharded_cache, set_item, delete_item,
  get_item,
}

module _ {V : Type 0} (P : V → Type 0) where
  abbrev pub Everywhere : List (Item V) → Type 0
  Everywhere is = All (λ i. P i.value) is

  -- Every value that is stored has the property.
  pub record StoresOnly (c : Cache V) : Type 0 where
    pub at_shard : (j : ℕ) → Everywhere (c.shards j)

  -- What a lookup finds has it.
  pub data IfFound : Option V → Type 0 where
    missing : IfFound none
    found : (v : V) → P v → IfFound (some v)

  filter-Everywhere :
      (test : Item V → Bool) (is : List (Item V)) → Everywhere is → Everywhere (filter test is)
  filter-Everywhere test [] h = h
  filter-Everywhere test (i ∷ is) (x, xs) = elim (Bool-cases (test i)) [
    | inl e ↦ rw e (x, filter-Everywhere test is xs)
    | inr e ↦ rw e (filter-Everywhere test is xs)
  ]

  load-IfFound :
      (key : List ℕ) (is : List (Item V)) (o : Option (Item V))
      → load key is ≡ o
      → Everywhere is
      → IfFound (Option.map (λ i. i.value) o)
  unfolding load
  load-IfFound key [] none e h = IfFound.missing
  load-IfFound key [] (some i) e h = cc e
  load-IfFound key (j ∷ is) o e (x, xs) = elim (Bool-cases (bytes_eq j.key key)) [
    | inl q ↦ (let e' = rw q at e in rw (← e') (IfFound.found j.value x))
    | inr q ↦ load-IfFound key is o (rw q at e) xs
  ]

  in_shard-StoresOnly :
      (key : List ℕ) (f : List (Item V) → List (Item V)) (c : Cache V)
      → ((is : List (Item V)) → Everywhere is → Everywhere (f is))
      → StoresOnly c
      → StoresOnly (in_shard key f c)
  unfolding in_shard
  in_shard-StoresOnly key f c keeps h = record {
    at_shard = λ j. elim (Bool-cases (j == shard key)) [
      | inl e ↦ rw e (keeps (c.shards j) (h.at_shard j))
      | inr e ↦ rw e (h.at_shard j)
    ];
  }

  -- The operations keep it; Set needs it of the new value, Get gives it of the value that it finds.
  pub set_item-StoresOnly :
      (now : ℕ) (key : List ℕ) (v : V) (c : Cache V)
      → P v
      → StoresOnly c
      → StoresOnly (set_item now key v c)
  unfolding set_item put erase
  set_item-StoresOnly now key v c q h =
      in_shard-StoresOnly key _ c (λ is all. (q, filter-Everywhere (other key) is all)) h

  pub delete_item-StoresOnly :
      (key : List ℕ) (c : Cache V) → StoresOnly c → StoresOnly (delete_item key c)
  unfolding delete_item erase
  delete_item-StoresOnly key c h =
      in_shard-StoresOnly key _ c (λ is all. filter-Everywhere (other key) is all) h

  pub get_item-StoresOnly :
      (now : ℕ) (key : List ℕ) (c : Cache V)
      → StoresOnly c
      → IfFound (get_item now key c).0 × StoresOnly (get_item now key c).1
  unfolding get_item
  get_item-StoresOnly now key c h = elim (Option-cases (load key (c.shards (shard key)))) [
    | inl e ↦ rw (e, get_item) (IfFound.missing, h)
    | inr (i, e) ↦
        rw (e, get_item)
          (elim (Bool-cases (ltb i.expires_at now)) [
            | inl q ↦ rw q (IfFound.missing, delete_item-StoresOnly key c h)
            | inr q ↦ rw q (load-IfFound key (c.shards (shard key)) (some i) e (h.at_shard _), h)
          ])
  ]

  pub new_sharded_cache-StoresOnly : (ttl : ℕ) → StoresOnly (new_sharded_cache ttl)
  unfolding new_sharded_cache
  new_sharded_cache-StoresOnly ttl = record { at_shard = λ j. tt }
