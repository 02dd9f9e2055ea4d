-- ===== src/Message/OptionLists.antt =====
-- options.go: what the option lists answer after AddOption, RemoveOptions and CloneOptions.
use coalago.Base.{
  ℕ, ◌≡◌, refl, false, Option, none, some, List, [], ◌∷◌, All, ◌++◌, ◌==◌, ==_iff, filter,
  if◌then◌else◌, arith, Bool-cases, inl, inr, ◌≢◌, ◌∙◌, sym,
}
use coalago.Message.{
  CoapMessage, has_code, lacks_code, first_with, get_options, get_option, remove_options,
  add_options, clone_options, add_option,
}
use coalago.Options.{Value, CoapOption, is_repeatable_option}

filter-lacks_code_self :
    (id : ℕ) (os : List CoapOption) → filter (has_code id) (filter (lacks_code id) os) ≡ []
filter-lacks_code_self id [] = refl
filter-lacks_code_self id (o ∷ os) = ground (arith, filter-lacks_code_self id os)

filter-lacks_code_ne :
    (id code : ℕ) (os : List CoapOption)
    → code ≢ id
    → filter (has_code id) (filter (lacks_code code) os) ≡ filter (has_code id) os
filter-lacks_code_ne id code [] h = refl
filter-lacks_code_ne id code (o ∷ os) h = ground (arith, filter-lacks_code_ne id code os h)

filter-snoc :
    (id : ℕ) (os : List CoapOption) (o : CoapOption)
    → filter (has_code id) (os ++ (o ∷ []))
      ≡ (if o.code == id then filter (has_code id) os ++ (o ∷ []) else filter (has_code id) os)
filter-snoc id [] o = refl
filter-snoc id (p ∷ os) o = ground (arith, filter-snoc id os o)

abbrev pub first_of_all : List CoapOption → Option CoapOption
first_of_all [] = none
first_of_all (o ∷ os) = some o

first_with-filter :
    (id : ℕ) (os : List CoapOption) → first_with id os ≡ first_of_all (filter (has_code id) os)
first_with-filter id [] = refl
first_with-filter id (o ∷ os) = ground (arith, first_with-filter id os)

-- GetOption returns the first of what GetOptions returns, or nil where that is empty.
pub get_option-get_options :
    (id : ℕ) (m : CoapMessage) → get_option id m ≡ first_of_all (get_options id m)
unfolding get_option get_options
get_option-get_options id m = first_with-filter id m.options

-- RemoveOptions removes the options with its code, and no other.
pub get_options-remove_options :
    (id code : ℕ) (m : CoapMessage)
    → get_options id (remove_options code m) ≡ (if code == id then [] else get_options id m)
unfolding get_options remove_options
get_options-remove_options id code m = elim (Bool-cases (code == id)) [
  | inl e ↦ rw (e, (==_iff code id).0 e) (filter-lacks_code_self id m.options)
  | inr e ↦ rw e (filter-lacks_code_ne id code m.options (λ p. ground arith))
]

-- AddOption puts its value behind the others of its code if the code is repeatable, and in their
-- place if not; the options with other codes stay as they are.
pub get_options-add_option :
    (id code : ℕ) (v : Value) (m : CoapMessage)
    → get_options id (add_option code v m) ≡ (
        if code == id
        then (if is_repeatable_option code then get_options id m else [])
          ++ (record { code = code; value = v } ∷ [])
        else get_options id m)
unfolding add_option get_options
get_options-add_option id code v m = elim (Bool-cases (is_repeatable_option code)) [
  | inl r ↦ rw r (filter-snoc id m.options _)
  | inr r ↦ rw r (
      filter-snoc id (filter (lacks_code code) m.options) _ ∙ elim (Bool-cases (code == id)) [
        | inl e ↦ rw (e, (==_iff code id).0 e, filter-lacks_code_self id m.options)
        | inr e ↦ rw e (filter-lacks_code_ne id code m.options (λ p. ground arith))
      ])
]

-- Where the code is not repeatable, AddOption leaves exactly its own value under the code.
pub get_option-add_option :
    (id code : ℕ) (v : Value) (m : CoapMessage)
    → is_repeatable_option code ≡ false
    → get_option id (add_option code v m)
      ≡ (if code == id then some (record { code = code; value = v }) else get_option id m)
get_option-add_option id code v m h =
    rw (get_option-get_options id (add_option code v m), get_options-add_option id code v m, h)
      (elim (Bool-cases (code == id)) [
        | inl e ↦ rw e
        | inr e ↦ rw e (sym (get_option-get_options id m))
      ])

-- AddOptions leaves the options with other codes than those added.
pub get_options-add_options_ne :
    (id : ℕ) (os : List CoapOption) (m : CoapMessage)
    → All (λ o. o.code ≢ id) os
    → get_options id (add_options os m) ≡ get_options id m
unfolding add_options
get_options-add_options_ne id [] m h = refl
get_options-add_options_ne id (o ∷ os) m (h, hs) =
    get_options-add_options_ne id os (add_option o.code o.value m) hs
    ∙ rw (get_options-add_option id o.code o.value m) (elim (Bool-cases (o.code == id)) [
      | inl e ↦ absurd (h ((==_iff o.code id).0 e))
      | inr e ↦ rw e
    ])

pub filter-codes : (c : ℕ) (os : List CoapOption) → All (λ o. o.code ≡ c) (filter (has_code c) os)
filter-codes c [] = tt
filter-codes c (o ∷ os) = elim (Bool-cases (o.code == c)) [
  | inl e ↦ rw e ((==_iff o.code c).0 e, filter-codes c os)
  | inr e ↦ rw e (filter-codes c os)
]

pub All-ne :
    (c id : ℕ) (os : List CoapOption)
    → c ≢ id
    → All (λ o. o.code ≡ c) os
    → All (λ o. o.code ≢ id) os
All-ne c id [] h a = tt
All-ne c id (o ∷ os) h (a, as') = (λ e. h (sym a ∙ e), All-ne c id os h as')

-- CloneOptions leaves the options with other codes than those that it is given.
pub get_options-clone_options_ne :
    (id : ℕ) (cm : CoapMessage) (codes : List ℕ) (m : CoapMessage)
    → All (λ c. c ≢ id) codes
    → get_options id (clone_options cm codes m) ≡ get_options id m
unfolding clone_options get_options
get_options-clone_options_ne id cm [] m h = refl
get_options-clone_options_ne id cm (c ∷ codes) m (h, hs) =
    get_options-clone_options_ne id cm codes (add_options (get_options c cm) m) hs
    ∙ get_options-add_options_ne id (get_options c cm) m
        (All-ne c id _ h (filter-codes c cm.options))

pub get_option-clone_options_ne :
    (id : ℕ) (cm : CoapMessage) (codes : List ℕ) (m : CoapMessage)
    → All (λ c. c ≢ id) codes
    → get_option id (clone_options cm codes m) ≡ get_option id m
get_option-clone_options_ne id cm codes m h =
    rw
      (
        get_option-get_options id (clone_options cm codes m),
        get_options-clone_options_ne id cm codes m h,
      )
      (sym (get_option-get_options id m))
