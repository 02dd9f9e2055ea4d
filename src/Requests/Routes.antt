-- ===== src/Requests/Routes.antt =====
-- server.go: which resource a request gets.
use coalago.Base.{
  ℕ, ◌+◌, ◌/◌, ◌%◌, ◌<◌, ◌≡◌, refl, ap, ◌∙◌, true, false, none, some, List, [], ◌∷◌, ◌++◌, ◌&&◌,
  ◌==◌, if◌then◌else◌, bytes_eq, arith, Option-cases, inl, inr,
}
use coalago.Base.Tests.{bytes_eq as bytes_eq'}
use coalago.Base.Text.{trim, itoa, itoa_from}
use coalago.Requests.{Resource, Resources, resource_key, add_resource, find_resource, get_resource}

bytes_eq-snoc :
    (p q : List ℕ) (a b : ℕ) → bytes_eq (p ++ (a ∷ [])) (q ++ (b ∷ [])) ≡ bytes_eq p q && (a == b)
unfolding bytes_eq'
bytes_eq-snoc [] [] a b = ground arith
bytes_eq-snoc [] (y ∷ []) a b = ground arith
bytes_eq-snoc [] (y ∷ z ∷ q) a b = ground arith
bytes_eq-snoc (x ∷ []) [] a b = ground arith
bytes_eq-snoc (x ∷ w ∷ p) [] a b = ground arith
bytes_eq-snoc (x ∷ p) (y ∷ q) a b = ground (arith, bytes_eq-snoc p q a b)

itoa_digit : (n : ℕ) → n < 10 → itoa n ≡ (n + 48) ∷ []
unfolding itoa_from
itoa_digit n h =
    let small : (n / 10 == 0) ≡ true = ground arith in
    let same : n % 10 ≡ n = omega arith in rw (small, same) refl

-- The keys tell paths and methods apart.
resource_key-same :
    (p q : List ℕ) (m n : ℕ)
    → m < 10
    → n < 10
    → bytes_eq (resource_key p m) (resource_key q n) ≡ bytes_eq p q && (m == n)
unfolding resource_key
resource_key-same p q m n hm hn =
    rw (itoa_digit m hm, itoa_digit n hn)
      (bytes_eq-snoc p q (m + 48) (n + 48) ∙ ap (λ b. bytes_eq p q && b) digits)
  where
    digits : (m + 48 == n + 48) ≡ (m == n)
    digits = ground arith

find_resource-add_resource :
    (key : List ℕ) (r : Resource) (rs : Resources)
    → find_resource key (add_resource r rs)
      ≡ (if bytes_eq (resource_key r.path r.method) key then some r else find_resource key rs)
unfolding find_resource add_resource
find_resource-add_resource key r rs = refl

-- After addResource of a resource whose path is not "*", a lookup gives the resource of the path "*"
-- for the method, if there was one; else the new resource, if the path, trimmed, and the method are
-- its own; and else what is there for them already.
pub get_resource-add_resource :
    (path : List ℕ) (method : ℕ) (r : Resource) (rs : Resources)
    → method < 10
    → r.method < 10
    → bytes_eq r.path (b'*' ∷ []) ≡ false
    → get_resource path method (add_resource r rs)
      ≡ (elim (find_resource (resource_key (b'*' ∷ []) method) rs) [
        | some w ↦ some w
        | none ↦
            if bytes_eq r.path (trim path) && (r.method == method)
            then some r
            else find_resource (resource_key (trim path) method) rs
      ])
unfolding get_resource
get_resource-add_resource path method r rs hm hr plain =
    rw (missed, get_resource)
      (elim (Option-cases (find_resource (resource_key (b'*' ∷ []) method) rs)) [
        | inl e ↦ rw (e, get_resource) hit
        | inr (w, e) ↦ rw (e, get_resource) refl
      ])
  where
    missed :
        find_resource (resource_key (b'*' ∷ []) method) (add_resource r rs)
        ≡ find_resource (resource_key (b'*' ∷ []) method) rs
    missed =
        find_resource-add_resource (resource_key (b'*' ∷ []) method) r rs
        ∙ rw (resource_key-same r.path (b'*' ∷ []) r.method method hr hm, plain) refl

    hit : find_resource (resource_key (trim path) method) (add_resource r rs) ≡ (
        if bytes_eq r.path (trim path) && (r.method == method)
        then some r
        else find_resource (resource_key (trim path) method) rs)
    hit =
        find_resource-add_resource (resource_key (trim path) method) r rs
        ∙ rw (resource_key-same r.path (trim path) r.method method hr hm) refl
