-- ===== src/Storage/Pools.antt =====
-- storage.go: the TCP connections, the ids of proxied sessions, and the count of all sessions.
use coalago.Base.{ℕ, ◌+◌, ◌≡◌, refl, ◌∙◌, Option, none, some, List, [], ◌∷◌, ltb, if◌then◌else◌}
use coalago.Base.Tests.{bytes_eq}
use coalago.Storage.{Cache, set_item, get_item, delete_item, item_count}
use coalago.Storage.Sessions.{tcp_key}
use coalago.Storage.View.{live-set_item, live-delete_item, get_item-live}

-- sessionsTotalCount, over the pools in sessionStorages.
unfoldable pub sessions_total_count : {S : Type 0} → ℕ → List (Cache S) → ℕ
sessions_total_count now [] = 0
sessions_total_count now (c ∷ cs) = item_count now c + sessions_total_count now cs

same_address : (a b : List ℕ) → bytes_eq (tcp_key a) (tcp_key b) ≡ bytes_eq a b
unfolding tcp_key bytes_eq
same_address a b = refl

module _ {C : Type 0} where
  -- SetTCP, GetTCP and DeleteTCP of connectionStorage
  unfoldable pub set_tcp : ℕ → List ℕ → C → Cache C → Cache C
  set_tcp now addr conn c = set_item now (tcp_key addr) conn c

  unfoldable pub get_tcp : ℕ → List ℕ → Cache C → Option C × Cache C
  get_tcp now addr c = get_item now (tcp_key addr) c

  unfoldable pub delete_tcp : List ℕ → Cache C → Cache C
  delete_tcp addr c = delete_item (tcp_key addr) c

  -- A connection that is set is found at its own address, until its time is over; at other addresses
  -- GetTCP finds what it found before.
  get_tcp-set_tcp :
      (now later : ℕ) (addr other : List ℕ) (conn : C) (c : Cache C)
      → (get_tcp later other (set_tcp now addr conn c)).0 ≡ (
          if bytes_eq addr other
          then (if ltb (now + c.ttl) later then none else some conn)
          else (get_tcp later other c).0)
  unfolding get_tcp set_tcp
  get_tcp-set_tcp now later addr other conn c =
      get_item-live later (tcp_key other) _
      ∙ live-set_item later now (tcp_key other) (tcp_key addr) conn c
      ∙ rw (same_address, get_item-live) refl

  -- After DeleteTCP the connection is gone, and those at other addresses are as before.
  get_tcp-delete_tcp :
      (now : ℕ) (addr other : List ℕ) (c : Cache C)
      → (get_tcp now other (delete_tcp addr c)).0
        ≡ (if bytes_eq addr other then none else (get_tcp now other c).0)
  unfolding get_tcp delete_tcp
  get_tcp-delete_tcp now addr other c =
      get_item-live now (tcp_key other) _
      ∙ live-delete_item now (tcp_key other) (tcp_key addr) c
      ∙ rw (same_address, get_item-live) refl
