-- ===== src/Storage/Sessions.antt =====
-- storage.go: the session storage, and the keys of the connection storage.
use coalago.Base.{
  ℕ, ◌+◌, ◌≡◌, refl, ap, ◌∙◌, Bool, true, false, Option, none, some, List, [], ◌++◌, length, ltb,
  ◌==◌, if◌then◌else◌, bytes_eq_self, arith, Bool-cases, inl, inr,
}
use coalago.Base.Text.{codes}
use coalago.Storage.{Cache, set_item, get_item, delete_item}
use coalago.Storage.View.{live-set_item, live-delete_item, get_item-live}

-- The key of a session: the sender counts only without a proxy.
unfoldable pub session_key : List ℕ → List ℕ → List ℕ → List ℕ
session_key sender receiver proxy =
    (if length proxy == 0 then sender else []) ++ (receiver ++ proxy)

-- The key of a TCP connection.
unfoldable pub tcp_key : List ℕ → List ℕ
tcp_key addr = codes "tcp:" ++ addr

module _ {S : Type 0} where
  -- The methods Set, Get and Delete of sessionStorageImpl.
  unfoldable pub set_session : ℕ → List ℕ → List ℕ → List ℕ → S → Cache S → Cache S
  set_session now sender receiver proxy s c = set_item now (session_key sender receiver proxy) s c

  unfoldable pub get_session : ℕ → List ℕ → List ℕ → List ℕ → Cache S → Option S × Cache S
  get_session now sender receiver proxy c = get_item now (session_key sender receiver proxy) c

  unfoldable pub delete_session : List ℕ → List ℕ → List ℕ → Cache S → Cache S
  delete_session sender receiver proxy c = delete_item (session_key sender receiver proxy) c

  -- sessionStorageImpl.LoadOrStore: a Get, and a Set where it finds nothing.
  unfoldable pub load_or_store_session :
      ℕ → List ℕ → List ℕ → List ℕ → S → Cache S → S × Bool × Cache S
  load_or_store_session now sender receiver proxy s c =
      let key = session_key sender receiver proxy in
      let r = get_item now key c in
      elim r.0 [ some s' ↦ (s', true, r.1) | none ↦ (s, false, set_item now key s r.1) ]

  -- Set of a session, and a later Get for the same receiver and proxy: the session is there until its
  -- time is over. The sender has to be the same only where there is no proxy.
  pub get_session-set_session :
      (now later : ℕ) (sender sender' receiver proxy : List ℕ) (s : S) (c : Cache S)
      → (length proxy ≡ 0 → sender ≡ sender')
      → (get_session later sender' receiver proxy (set_session now sender receiver proxy s c)).0
        ≡ (if ltb (now + c.ttl) later then none else some s)
  unfolding get_session set_session
  get_session-set_session now later sender sender' receiver proxy s c h =
      get_item-live later (session_key sender' receiver proxy) _
      ∙ live-set_item later now (session_key sender' receiver proxy)
          (session_key sender receiver proxy) s c
      ∙ rw (same_key, bytes_eq_self (session_key sender' receiver proxy)) refl
    where
      same_key : session_key sender receiver proxy ≡ session_key sender' receiver proxy
      same_key =
          unfold session_key in
          (elim (Bool-cases (length proxy == 0)) [
            | inl e ↦ rw e (ap (λ x. x ++ (receiver ++ proxy)) (h (ground arith)))
            | inr e ↦ rw e refl
          ])

  -- Delete of a session: a Get for the same receiver and proxy finds nothing afterwards.
  pub get_session-delete_session :
      (now : ℕ) (sender receiver proxy : List ℕ) (c : Cache S)
      → (get_session now sender receiver proxy (delete_session sender receiver proxy c)).0 ≡ none
  unfolding get_session delete_session
  get_session-delete_session now sender receiver proxy c =
      get_item-live now (session_key sender receiver proxy) _
      ∙ live-delete_item now (session_key sender receiver proxy) (session_key sender receiver proxy)
          c
      ∙ rw (bytes_eq_self (session_key sender receiver proxy)) refl
