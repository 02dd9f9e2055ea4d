-- ===== src/Storage/History.antt =====
-- The cache against a plain map: whatever the calls, with times that do not fall.
use coalago.Base.{
  ℕ, ◌+◌, ◌≤◌, ◌≡◌, refl, sym, ap, ◌∙◌, Bool, true, false, Option, none, some, List, [], ◌∷◌, ltb,
  if◌then◌else◌, bytes_eq, arith, Bool-cases, Option-cases, inl, inr,
}
use coalago.Storage.{
  Cache, shard, load, in_shard, new_sharded_cache, set_item, delete_item, get_item, load_or_store,
  cleanup,
}
use coalago.Storage.View.{held, live, live-set_item, live-delete_item, get_item-live, live-get_item}
use coalago.Storage.Distinct.{
  IsCache, set_item-IsCache, delete_item-IsCache, get_item-IsCache, cleanup-IsCache, live-cleanup,
}

-- A call on the cache.
pub data Call (V : Type 0) : Type 0 where
  set : List ℕ → V → Call V
  delete : List ℕ → Call V
  get : List ℕ → Call V
  load_or_set : List ℕ → V → Call V
  clean : Call V

-- What a call gives back: nothing, what Get found, or what LoadOrStore gives, and whether it was there.
pub data Answer (V : Type 0) : Type 0 where
  done : Answer V
  found : Option V → Answer V
  loaded : V → Bool → Answer V

-- The plain map: what will be found at each time under each key.
abbrev pub Plain : Type 0 → Type 0
Plain V = ℕ → List ℕ → Option V

module _ {V : Type 0} where
  -- The call at the time `now`: its answer, and the cache after it.
  unfoldable pub call : ℕ → Call V → Cache V → Answer V × Cache V
  call now (Call.set key v) c = (Answer.done, set_item now key v c)
  call now (Call.delete key) c = (Answer.done, delete_item key c)
  call now (Call.get key) c = let (v, c') = get_item now key c in (Answer.found v, c')
  call now (Call.load_or_set key v) c =
      let (answer, there, c') = load_or_store now key v c in (Answer.loaded answer there, c')
  call now Call.clean c = (Answer.done, cleanup now c)

  abbrev plain_set : ℕ → ℕ → List ℕ → V → Plain V → Plain V
  plain_set ttl now key v s =
      λ t k. if bytes_eq key k then (if ltb (now + ttl) t then none else some v) else s t k

  -- The calls on it. LoadOrStore takes only a value that is found a moment later still: at the very end
  -- of a value's time Get finds it, and LoadOrStore replaces it.
  unfoldable pub plain_call : ℕ → ℕ → Call V → Plain V → Answer V × Plain V
  plain_call ttl now (Call.set key v) s = (Answer.done, plain_set ttl now key v s)
  plain_call ttl now (Call.delete key) s =
      (Answer.done, λ t k. if bytes_eq key k then none else s t k)
  plain_call ttl now (Call.get key) s = (Answer.found (s now key), s)
  plain_call ttl now (Call.load_or_set key v) s = elim (s (now + 1) key) [
    | some v' ↦ (Answer.loaded v' true, s)
    | none ↦ (Answer.loaded v false, plain_set ttl now key v s)
  ]
  plain_call ttl now Call.clean s = (Answer.done, s)

  -- The cache at a time and the map agree on all times from then on.
  record Agrees (ttl now : ℕ) (c : Cache V) (s : Plain V) : Type 0 where
    ttl_ok : c.ttl ≡ ttl
    cache_ok : IsCache c
    same : (t : ℕ) (k : List ℕ) → now ≤ t → live t k c ≡ s t k

  ttl-get_item : (now : ℕ) (key : List ℕ) (c : Cache V) → (get_item now key c).1.ttl ≡ c.ttl
  unfolding get_item delete_item in_shard
  ttl-get_item now key c = elim (Option-cases (load key (c.shards (shard key)))) [
    | inl e ↦ rw (e, get_item) refl
    | inr (i, e) ↦
        rw (e, get_item)
          (elim (Bool-cases (ltb i.expires_at now)) [ inl q ↦ rw q refl | inr q ↦ rw q refl ])
  ]

  set-Agrees :
      (ttl now : ℕ) (key : List ℕ) (v : V) (c : Cache V) (s : Plain V)
      → Agrees ttl now c s
      → Agrees ttl now (set_item now key v c) (plain_set ttl now key v s)
  set-Agrees ttl now key v c s a = record {
    ttl_ok = unfold set_item in_shard in a.ttl_ok;
    cache_ok = set_item-IsCache now key v c a.cache_ok;
    same = λ t k h.
        live-set_item t now k key v c
        ∙ ap
            (λ n. if bytes_eq key k then (if ltb (now + n) t then none else some v) else live t k c)
            a.ttl_ok
        ∙ ap (λ x. if bytes_eq key k then (if ltb (now + ttl) t then none else some v) else x)
            (a.same t k h);
  }

  -- LoadOrStore of a key whose item is expired deletes that first.
  reset-Agrees :
      (ttl now : ℕ) (key : List ℕ) (v : V) (c : Cache V) (s : Plain V)
      → Agrees ttl now c s
      → Agrees ttl now (set_item now key v (delete_item key c)) (plain_set ttl now key v s)
  reset-Agrees ttl now key v c s a = record {
    ttl_ok = unfold set_item delete_item in_shard in a.ttl_ok;
    cache_ok = set_item-IsCache now key v _ (delete_item-IsCache key c a.cache_ok);
    same = λ t k h.
        live-set_item t now k key v (delete_item key c)
        ∙ ap
            (λ n.
              if bytes_eq key k
              then (if ltb (now + n) t then none else some v)
              else live t k (delete_item key c))
            ttl_ok'
        ∙ elim (Bool-cases (bytes_eq key k)) [
          | inl e ↦ rw e refl
          | inr e ↦ rw e (live-delete_item t k key c ∙ rw e (a.same t k h))
        ];
  }
    where
      ttl_ok' : (delete_item key c).ttl ≡ ttl
      ttl_ok' = unfold delete_item in_shard in a.ttl_ok

  load_or_store-Agrees :
      (ttl now : ℕ) (key : List ℕ) (v : V) (c : Cache V) (s : Plain V)
      → Agrees ttl now c s
      → ((call now (Call.load_or_set key v) c).0
          ≡ (plain_call ttl now (Call.load_or_set key v) s).0)
        × Agrees ttl now
            (call now (Call.load_or_set key v) c).1
            (plain_call ttl now (Call.load_or_set key v) s).1
  unfolding call plain_call load_or_store in_shard
  load_or_store-Agrees ttl now key v c s a =
      let seen = a.same (now + 1) key (omega arith) in
      elim (Option-cases (load key (c.shards (shard key)))) [
        | inl e ↦
            let nothing : s (now + 1) key ≡ none = sym seen ∙ (unfold live held in rw e refl) in
            rw (e, load_or_store)
              (rw (nothing, plain_call) (refl, unfold set_item in (set-Agrees ttl now key v c s a)))
        | inr (i, e) ↦ elim (Bool-cases (ltb now i.expires_at)) [
          | inl q ↦
              let fresh : ltb i.expires_at (now + 1) ≡ false = ground arith in
              let found : s (now + 1) key ≡ some i.value =
                sym seen ∙ (unfold live held in rw (e, fresh) refl) in
              rw (e, load_or_store) (rw q (rw (found, plain_call) (refl, a)))
          | inr q ↦
              let late : ltb i.expires_at (now + 1) ≡ true = ground arith in
              let nothing : s (now + 1) key ≡ none =
                sym seen ∙ (unfold live held in rw (e, late) refl) in
              rw (e, load_or_store)
                (rw q (
                  rw (nothing, plain_call)
                    (refl, unfold set_item delete_item in (reset-Agrees ttl now key v c s a))))
        ]
      ]

  call-Agrees :
      (ttl now : ℕ) (o : Call V) (c : Cache V) (s : Plain V)
      → Agrees ttl now c s
      → ((call now o c).0 ≡ (plain_call ttl now o s).0)
        × Agrees ttl now (call now o c).1 (plain_call ttl now o s).1
  unfolding call plain_call
  call-Agrees ttl now (Call.set key v) c s a = (refl, set-Agrees ttl now key v c s a)
  call-Agrees ttl now (Call.delete key) c s a = (
    refl,
    record {
      ttl_ok = unfold delete_item in_shard in a.ttl_ok;
      cache_ok = delete_item-IsCache key c a.cache_ok;
      same = λ t k h.
          live-delete_item t k key c ∙ ap (λ x. if bytes_eq key k then none else x) (a.same t k h);
    },
  )
  call-Agrees ttl now (Call.get key) c s a = (
    ap Answer.found (get_item-live now key c ∙ a.same now key (omega arith)),
    record {
      ttl_ok = ttl-get_item now key c ∙ a.ttl_ok;
      cache_ok = get_item-IsCache now key c a.cache_ok;
      same = λ t k h. live-get_item t now k key c h ∙ a.same t k h;
    },
  )
  call-Agrees ttl now (Call.load_or_set key v) c s a = load_or_store-Agrees ttl now key v c s a
  call-Agrees ttl now Call.clean c s a = (
    refl,
    record {
      ttl_ok = unfold cleanup in a.ttl_ok;
      cache_ok = cleanup-IsCache now c a.cache_ok;
      same = λ t k h. live-cleanup t now k c h a.cache_ok ∙ a.same t k h;
    },
  )

  -- The answers of a list of timed calls.
  unfoldable pub answers : List (ℕ × Call V) → Cache V → List (Answer V)
  answers [] c = []
  answers ((now, o) ∷ os) c = (call now o c).0 ∷ answers os (call now o c).1

  unfoldable pub plain_answers : ℕ → List (ℕ × Call V) → Plain V → List (Answer V)
  plain_answers ttl [] s = []
  plain_answers ttl ((now, o) ∷ os) s =
      (plain_call ttl now o s).0 ∷ plain_answers ttl os (plain_call ttl now o s).1

  -- The times of the calls, from `now` on, do not fall.
  abbrev pub Rises : ℕ → List (ℕ × Call V) → Type 0
  Rises now [] = Unit {0}
  Rises now ((t, o) ∷ os) = (now ≤ t) × Rises t os

  answers_from :
      (ttl now : ℕ) (os : List (ℕ × Call V)) (c : Cache V) (s : Plain V)
      → Rises now os
      → Agrees ttl now c s
      → answers os c ≡ plain_answers ttl os s
  unfolding answers plain_answers
  answers_from ttl now [] c s r a = refl
  answers_from ttl now ((t, o) ∷ os) c s (h, r) a =
      let later : Agrees ttl t c s = record {
        ttl_ok = a.ttl_ok;
        cache_ok = a.cache_ok;
        same = λ u k l. a.same u k (omega arith);
      } in
      let (answer, after) = call-Agrees ttl t o c s later in
      rw (answer, answers_from ttl t os (call t o c).1 (plain_call ttl t o s).1 r after) refl

  -- Whatever calls are made on a new cache, at times that do not fall: Set, Get, LoadOrStore with its
  -- flag, Delete and the clean-up give the answers of a plain map with no shards, no removal and no
  -- clean-up. In it Get finds a value up to the end of its time and at the end itself; LoadOrStore
  -- loads a value only before the end, and at the end it stores its own instead.
  pub answers-plain_answers :
      (ttl now : ℕ) (os : List (ℕ × Call V))
      → Rises now os
      → answers os (new_sharded_cache ttl) ≡ plain_answers ttl os (λ t k. none)
  unfolding new_sharded_cache
  answers-plain_answers ttl now os r =
      answers_from ttl now os _ _ r (record {
        ttl_ok = refl;
        cache_ok = λ j. tt;
        same = λ t k h. unfold live held load in refl;
      })
