-- ===== src/Message/Cloned.antt =====
-- options.go: what CloneOptions copies.
use mathlib.Core.List.{append_assoc, append-nil}
use mathlib.Core.Path.{subst}
use coalago.Base.{
  ℕ, ◌≡◌, ◌≢◌, refl, sym, ap, ◌∙◌, Bool, true, false, List, [], ◌∷◌, ◌++◌, ◌==◌, ◌||◌, ==_iff, All,
  if◌then◌else◌, arith, Bool-cases, inl, inr,
}
use coalago.Message.{CoapMessage, get_options, add_option, add_options, clone_options}
use coalago.Message.OptionLists.{
  get_options-add_option, get_options-add_options_ne, get_options-clone_options_ne, filter-codes,
  All-ne,
}
use coalago.Options.{CoapOption, is_repeatable_option}

abbrev last_of : CoapOption → List CoapOption → CoapOption
last_of o [] = o
last_of o (p ∷ os) = last_of p os

-- What a message has under a code after it gets the options `new`: under a repeatable code they stand
-- behind the old ones, and else the last of them stands in their place.
abbrev pub merged : Bool → List CoapOption → List CoapOption → List CoapOption
merged true old new = old ++ new
merged false old [] = old
merged false old (o ∷ os) = last_of o os ∷ []

abbrev pub has : ℕ → List ℕ → Bool
has id [] = false
has id (c ∷ codes) = (c == id) || has id codes

abbrev pub Differ : List ℕ → Type 0
Differ [] = Unit {0}
Differ (c ∷ codes) = All (λ d. d ≢ c) codes × Differ codes

merged-cons :
    (b : Bool) (old : List CoapOption) (o : CoapOption) (os : List CoapOption)
    → merged b ((if b then old else []) ++ (o ∷ [])) os ≡ merged b old (o ∷ os)
merged-cons true old o os = append_assoc old (o ∷ []) os
merged-cons false old o [] = refl
merged-cons false old o (p ∷ os) = refl

merged-nil : (b : Bool) (old : List CoapOption) → old ≡ merged b old []
merged-nil true old = sym (append-nil old)
merged-nil false old = refl

added :
    (id : ℕ) (o : CoapOption) (m : CoapMessage)
    → o.code ≡ id
    → get_options id (add_option o.code o.value m)
      ≡ (if is_repeatable_option id then get_options id m else []) ++ (o ∷ [])
added id o m h =
    get_options-add_option id o.code o.value m
    ∙ rw ((==_iff o.code id).1 h)
        (ap (λ c. (if is_repeatable_option c then get_options id m else []) ++ (o ∷ [])) h)

options_under : (c : ℕ) (cm : CoapMessage) → All (λ o. o.code ≡ c) (get_options c cm)
unfolding get_options
options_under c cm = filter-codes c cm.options

get_options-add_options :
    (id : ℕ) (os : List CoapOption) (m : CoapMessage)
    → All (λ o. o.code ≡ id) os
    → get_options id (add_options os m) ≡ merged (is_repeatable_option id) (get_options id m) os
unfolding add_options
get_options-add_options id [] m h = merged-nil _ _
get_options-add_options id (o ∷ os) m (h, hs) =
    get_options-add_options id os (add_option o.code o.value m) hs
    ∙ ap (λ x. merged (is_repeatable_option id) x os) (added id o m h)
    ∙ merged-cons (is_repeatable_option id) (get_options id m) o os

-- CloneOptions, for codes that differ: under a code that it is given, a message gets the options that
-- the other message has under it, behind its own if the code is repeatable, and else the last of them
-- in place of its own, if there is one; the options with other codes stay as they are.
pub get_options-clone_options :
    (id : ℕ) (cm : CoapMessage) (codes : List ℕ) (m : CoapMessage)
    → Differ codes
    → get_options id (clone_options cm codes m) ≡ (
        if has id codes
        then merged (is_repeatable_option id) (get_options id m) (get_options id cm)
        else get_options id m)
unfolding clone_options
get_options-clone_options id cm [] m h = refl
get_options-clone_options id cm (c ∷ codes) m (h, hs) = elim (Bool-cases (c == id)) [
  | inl e ↦
      let same = (==_iff c id).0 e in
      rw e (
        get_options-clone_options_ne id cm codes (add_options (get_options c cm) m)
          (subst (λ x. All (λ d. d ≢ x) codes) same h)
        ∙ ap (λ x. get_options id (add_options (get_options x cm) m)) same
        ∙ get_options-add_options id (get_options id cm) m (options_under id cm))
  | inr e ↦ rw e (
      get_options-clone_options id cm codes (add_options (get_options c cm) m) hs
      ∙ ap (λ x. if has id codes then merged (is_repeatable_option id) x (get_options id cm) else x)
          (get_options-add_options_ne id (get_options c cm) m
            (All-ne c id _ (λ p. ground arith) (options_under c cm))))
]
