-- ===== src/Uri/Path.antt =====
-- SetURIPath and GetURIPath.
use mathlib.Core.List.{append-nil, append_assoc, reverse, reverse-cons, map-append}
use coalago.Base.{
  ℕ, ◌≤◌, ◌≡◌, refl, sym, ap, ◌∙◌, Bool, List, [], ◌∷◌, ◌++◌, length, All, ◌==◌, ==_iff, ◌≢◌, arith,
  Bool-cases, inl, inr, not, filter,
}
use coalago.Base.Text.{join, split, split_from}
use coalago.Constants.{option_uri_path}
use coalago.Message.{CoapMessage, get_options_as_string, add_option}
use coalago.Message.OptionLists.{get_options-add_option}
use coalago.Message.Fields.{add_option-keeps}
use coalago.Options.{CoapOption, Value, string_value, is_repeatable_option}
use coalago.Uri.{get_uri_path, add_path_parts, set_uri_path}

is_part : List ℕ → Bool
is_part s = not (length s == 0)

-- The parts of a path: what stands between its slashes, without the empty ones.
pub path_parts : List ℕ → List (List ℕ)
path_parts path = filter is_part (split path b'/')

added_part :
    (part : List ℕ) (m : CoapMessage)
    → get_options_as_string option_uri_path (add_option option_uri_path (Value.str part) m)
      ≡ get_options_as_string option_uri_path m ++ (part ∷ [])
unfolding get_options_as_string
added_part part m =
    rw (get_options-add_option option_uri_path option_uri_path (Value.str part) m)
      (unfold is_repeatable_option string_value in map-append _ _ _)

add_path_parts-parts :
    (parts : List (List ℕ)) (m : CoapMessage)
    → get_options_as_string option_uri_path (add_path_parts parts m)
      ≡ get_options_as_string option_uri_path m ++ filter is_part parts
unfolding add_path_parts is_part
add_path_parts-parts [] m = sym (append-nil _)
add_path_parts-parts (part ∷ parts) m = elim (Bool-cases (length part == 0)) [
  | inl e ↦ rw e (add_path_parts-parts parts m)
  | inr e ↦ rw e (add_path_parts-parts parts _ ∙ rw (added_part part m, append_assoc))
]

-- SetURIPath puts the nonempty parts of the path behind those that the message has.
pub set_uri_path-parts :
    (path : List ℕ) (m : CoapMessage)
    → get_options_as_string option_uri_path (set_uri_path path m)
      ≡ get_options_as_string option_uri_path m ++ path_parts path
unfolding set_uri_path path_parts
set_uri_path-parts path m = add_path_parts-parts (split path b'/') m

-- A path segment as the options hold it: not empty, and without a slash.
abbrev pub IsSegment : List ℕ → Type 0
IsSegment s = (1 ≤ length s) × All (λ b. b ≢ b'/') s

split_from-part :
    (acc s : List ℕ) → All (λ b. b ≢ b'/') s → split_from acc b'/' s ≡ (reverse acc ++ s) ∷ []
unfolding split_from
split_from-part acc [] h = rw append-nil
split_from-part acc (b ∷ s) (hb, hs) = elim (Bool-cases (b == b'/')) [
  | inl e ↦ absurd (hb ((==_iff b b'/').0 e))
  | inr e ↦ rw (e, split_from) (split_from-part (b ∷ acc) s hs ∙ rw (reverse-cons, append_assoc))
]

split_from-slash :
    (acc s rest : List ℕ)
    → All (λ b. b ≢ b'/') s
    → split_from acc b'/' (s ++ (b'/' ∷ rest)) ≡ (reverse acc ++ s) ∷ split_from [] b'/' rest
unfolding split_from
split_from-slash acc [] rest h = rw append-nil
split_from-slash acc (b ∷ s) rest (hb, hs) = elim (Bool-cases (b == b'/')) [
  | inl e ↦ absurd (hb ((==_iff b b'/').0 e))
  | inr e ↦
      rw (e, split_from) (split_from-slash (b ∷ acc) s rest hs ∙ rw (reverse-cons, append_assoc))
]

split-join :
    (s : List ℕ) (ss : List (List ℕ))
    → All IsSegment (s ∷ ss)
    → split (join (s ∷ ss) (b'/' ∷ [])) b'/' ≡ s ∷ ss
unfolding join
split-join s [] (h, hs) = split_from-part [] s h.1
split-join s (t ∷ ss) (h, hs) =
    split_from-slash [] s (join (t ∷ ss) (b'/' ∷ [])) h.1 ∙ ap (◌∷◌ s) (split-join t ss hs)

filter-segments : (ss : List (List ℕ)) → All IsSegment ss → filter is_part ss ≡ ss
unfolding is_part
filter-segments [] h = refl
filter-segments (s ∷ ss) (h, hs) = ground (arith, filter-segments ss hs)

-- The parts of the path that GetURIPath builds from segments are those segments.
path_parts-join :
    (ss : List (List ℕ)) → All IsSegment ss → path_parts (b'/' ∷ join ss (b'/' ∷ [])) ≡ ss
unfolding path_parts split_from join
path_parts-join [] h = unfold is_part in refl
path_parts-join (s ∷ ss) h = unfold is_part in (rw (split-join s ss h) (filter-segments (s ∷ ss) h))

-- SetURIPath of what GetURIPath gives: a message without path options gets the segments of the
-- other, if each is a nonempty string without a slash.
pub set_uri_path-get_uri_path :
    (m n : CoapMessage)
    → All IsSegment (get_options_as_string option_uri_path n)
    → get_options_as_string option_uri_path m ≡ []
    → get_options_as_string option_uri_path (set_uri_path (get_uri_path n) m)
      ≡ get_options_as_string option_uri_path n
unfolding get_uri_path
set_uri_path-get_uri_path m n h e =
    set_uri_path-parts (get_uri_path n) m ∙ rw e (path_parts-join _ h)

-- SetURIPath changes nothing but the options.
module _ {X : Type 0} (f : CoapMessage → X)
    (ignores : (m : CoapMessage) (os : List CoapOption) → f (record m { options = os }) ≡ f m) where
  add_path_parts-keeps :
      (parts : List (List ℕ)) (m : CoapMessage) → f (add_path_parts parts m) ≡ f m
  unfolding add_path_parts
  add_path_parts-keeps [] m = refl
  add_path_parts-keeps (part ∷ parts) m =
      add_path_parts-keeps parts _ ∙ elim (Bool-cases (length part == 0)) [
        | inl e ↦ rw e refl
        | inr e ↦ rw e (add_option-keeps f ignores option_uri_path (Value.str part) m)
      ]

  pub set_uri_path-keeps : (path : List ℕ) (m : CoapMessage) → f (set_uri_path path m) ≡ f m
  unfolding set_uri_path
  set_uri_path-keeps path m = add_path_parts-keeps (split path b'/') m
