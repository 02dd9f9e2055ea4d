-- ===== src/Storage.antt =====
-- storage.go: the sharded cache, with the time as an argument, and the session storage over it.
pub mod View
pub mod Contents
pub mod Distinct
pub mod History
pub mod Sessions
pub mod Pools
use coalago.Base.{
  ℕ, zero, suc, ◌+◌, ◌*◌, ◌%◌, Bool, true, false, Option, none, some, List, [], ◌∷◌, ◌++◌, length,
  filter, ltb, leb, not, ◌==◌, if◌then◌else◌, bytes_eq, bit_xor,
}

-- cacheItem, under its key.
pub record Item (V : Type 0) : Type 0 where
  pub key : List ℕ
  pub value : V
  pub expires_at : ℕ

-- shardedCache; a shard is the list of its items, whose keys are distinct.
pub record Cache (V : Type 0) : Type 0 where
  pub shards : ℕ → List (Item V)
  pub ttl : ℕ

abbrev pub shard_count : ℕ
shard_count = 64

-- fnv32, from the hash of the bytes before.
fnv_from : ℕ → List ℕ → ℕ
fnv_from hash [] = hash
fnv_from hash (b ∷ bs) = fnv_from (bit_xor (hash * 16777619 % 0x1_0000_0000) b) bs

unfoldable pub fnv32 : List ℕ → ℕ
unfolding fnv_from
fnv32 key = fnv_from 2166136261 key

-- The number of the shard of a key.
unfoldable pub shard : List ℕ → ℕ
shard key = fnv32 key % shard_count

module _ {V : Type 0} where
  -- The methods Load, Store and Delete of a sync.Map.
  unfoldable pub load : List ℕ → List (Item V) → Option (Item V)
  load key [] = none
  load key (i ∷ is) = let rest = load key is in if bytes_eq i.key key then some i else rest

  abbrev pub other : List ℕ → Item V → Bool
  other key i = not (bytes_eq i.key key)

  unfoldable pub erase : List ℕ → List (Item V) → List (Item V)
  erase key is = filter (other key) is

  unfoldable pub put : Item V → List (Item V) → List (Item V)
  put i is = i ∷ erase i.key is

  -- A change of the shard of a key.
  unfoldable pub in_shard : List ℕ → (List (Item V) → List (Item V)) → Cache V → Cache V
  in_shard key f c = record c {
    shards = λ j. if j == shard key then f (c.shards j) else c.shards j;
  }

  -- newShardedCache
  unfoldable pub new_sharded_cache : ℕ → Cache V
  new_sharded_cache ttl = record { shards = λ j. []; ttl = ttl }

  -- Set, at the time `now`.
  unfoldable pub set_item : ℕ → List ℕ → V → Cache V → Cache V
  set_item now key v c =
      in_shard key (put (record { key = key; value = v; expires_at = now + c.ttl })) c

  -- Delete
  unfoldable pub delete_item : List ℕ → Cache V → Cache V
  delete_item key c = in_shard key (erase key) c

  -- Get
  unfoldable pub get_item : ℕ → List ℕ → Cache V → Option V × Cache V
  get_item now key c = elim (load key (c.shards (shard key))) [
    | none ↦ (none, c)
    | some i ↦ if ltb i.expires_at now then (none, delete_item key c) else (some i.value, c)
  ]

  -- LoadOrStore: the value, whether it was there, and the cache after it.
  unfoldable pub load_or_store : ℕ → List ℕ → V → Cache V → V × Bool × Cache V
  load_or_store now key v c =
      let item : Item V = record { key = key; value = v; expires_at = now + c.ttl } in
      elim (load key (c.shards (shard key))) [
        | none ↦ (v, false, in_shard key (put item) c)
        | some i ↦
            if ltb now i.expires_at
            then (i.value, true, c)
            else (v, false, in_shard key (put item) (in_shard key (erase key) c))
      ]

  -- One tick of cleanupLoop.
  abbrev pub is_kept : ℕ → Item V → Bool
  is_kept now i = not (ltb i.expires_at now)

  unfoldable pub cleanup : ℕ → Cache V → Cache V
  cleanup now c = record c { shards = λ j. filter (is_kept now) (c.shards j) }

  -- ItemCount: the loop over the first `k` shards.
  unfoldable pub count_items : ℕ → ℕ → Cache V → ℕ
  count_items zero now c = 0
  count_items (suc k) now c =
      count_items k now c + length (filter (λ i. ltb now i.expires_at) (c.shards k))

  unfoldable pub item_count : ℕ → Cache V → ℕ
  item_count now c = count_items shard_count now c
