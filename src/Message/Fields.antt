-- ===== src/Message/Fields.antt =====
-- The option operations change nothing but the options.
use coalago.Base.{ℕ, ◌≡◌, refl, ◌∙◌, Bool-cases, inl, inr, List, [], ◌∷◌}
use coalago.Message.{CoapMessage, add_option, add_options, clone_options, get_options, get_option}
use coalago.Options.{Value, CoapOption, is_repeatable_option}

-- `f` is what a message says apart from its options.
module _ {X : Type 0} (f : CoapMessage → X)
    (ignores : (m : CoapMessage) (os : List CoapOption) → f (record m { options = os }) ≡ f m) where
  pub add_option-keeps : (code : ℕ) (v : Value) (m : CoapMessage) → f (add_option code v m) ≡ f m
  unfolding add_option
  add_option-keeps code v m = elim (Bool-cases (is_repeatable_option code)) [
    | inl e ↦ rw e (ignores m _)
    | inr e ↦ rw e (ignores m _)
  ]

  pub add_options-keeps : (os : List CoapOption) (m : CoapMessage) → f (add_options os m) ≡ f m
  unfolding add_options
  add_options-keeps [] m = refl
  add_options-keeps (o ∷ os) m =
      add_options-keeps os (add_option o.code o.value m) ∙ add_option-keeps o.code o.value m

  pub clone_options-keeps :
      (cm : CoapMessage) (codes : List ℕ) (m : CoapMessage) → f (clone_options cm codes m) ≡ f m
  unfolding clone_options
  clone_options-keeps cm [] m = refl
  clone_options-keeps cm (c ∷ codes) m =
      clone_options-keeps cm codes (add_options (get_options c cm) m)
      ∙ add_options-keeps (get_options c cm) m

-- Two messages with the same options answer alike.
pub get_option-same :
    (id : ℕ) (m n : CoapMessage) → m.options ≡ n.options → get_option id m ≡ get_option id n
unfolding get_option
get_option-same id m n e = rw e refl

pub get_options-same :
    (id : ℕ) (m n : CoapMessage) → m.options ≡ n.options → get_options id m ≡ get_options id n
unfolding get_options
get_options-same id m n e = rw e refl
