-- ===== src/Util/Strings/Search.antt =====
-- What `icontains` and `firstMatchingKeyword` decide.
use binary_atlas.Prelude.{
  ◌⊎◌, inl, inr, ◌≡◌, refl, ap, ◌↔◌, inl, inr, true, false, none, some, List, [], ◌∷◌, ◌++◌,
  Bool-cases, All, arith,
}
use binary_atlas.Prelude.Text.{Text}
use binary_atlas.Util.Strings.{
  to_lower_copy, starts_with, find_text, icontains, first_matching_keyword,
}

-- `needle` stands in `haystack` after some text and before some text.
abbrev pub Within : Text → Text → Type 0
Within needle haystack = (before after : Text) × (haystack ≡ before ++ (needle ++ after))

starts_with_sound :
    (needle haystack : Text)
    → starts_with needle haystack ≡ true
    → (after : Text) × (haystack ≡ needle ++ after)
unfolding starts_with
starts_with_sound [] haystack h = (haystack, refl)
starts_with_sound (c ∷ cs) [] h = cc
starts_with_sound (c ∷ cs) (d ∷ ds) h =
    let (after, e) = starts_with_sound cs ds (ground arith) in
    (after, let q : c ≡ d = ground arith in cc)

starts_with_append : (needle after : Text) → starts_with needle (needle ++ after) ≡ true
unfolding starts_with
starts_with_append [] after = refl
starts_with_append (c ∷ cs) after = ground (arith, starts_with_append cs after)

find_text_sound :
    (needle haystack : Text) → find_text needle haystack ≡ true → Within needle haystack
unfolding find_text
find_text_sound needle [] h = let (after, e) = starts_with_sound needle [] h in ([], after, e)
find_text_sound needle (d ∷ ds) h = elim (Bool-cases (starts_with needle (d ∷ ds))) [
  | inl here ↦ let (after, e) = starts_with_sound needle (d ∷ ds) here in ([], after, e)
  | inr later ↦
      let (before, after, e) = find_text_sound needle ds (ground arith) in
      (d ∷ before, after, ap (◌∷◌ d) e)
]

find_text_append :
    (needle before after : Text) → find_text needle (before ++ (needle ++ after)) ≡ true
unfolding find_text
find_text_append [] [] [] = refl
find_text_append [] [] (a ∷ as') = refl
find_text_append (c ∷ cs) [] after = ground (arith, starts_with_append (c ∷ cs) after)
find_text_append needle (b ∷ bs) after = ground (arith, find_text_append needle bs after)

-- `icontains` is true exactly when the lower-cased needle stands somewhere in the lower-cased text.
pub icontains_iff :
    (haystack needle : Text)
    → (icontains haystack needle ≡ true) ↔ Within (to_lower_copy needle) (to_lower_copy haystack)
unfolding icontains
icontains_iff haystack needle = (
  find_text_sound (to_lower_copy needle) (to_lower_copy haystack),
  λ (before, after, e). rw e (find_text_append (to_lower_copy needle) before after),
)

-- `firstMatchingKeyword` returns nothing where the text contains none of the keywords, and otherwise
-- the first one that it contains.
pub first_matching_keyword_lem :
    (value : Text) (keywords : List Text)
    → ((first_matching_keyword value keywords ≡ none)
        × All (λ k. icontains value k ≡ false) keywords)
      ⊎ ((k : Text) × (first_matching_keyword value keywords ≡ some k)
          × ((before after : List Text) × (keywords ≡ before ++ k ∷ after)
              × (icontains value k ≡ true)
              × All (λ j. icontains value j ≡ false) before))
unfolding first_matching_keyword
first_matching_keyword_lem value [] = inl (refl, tt)
first_matching_keyword_lem value (j ∷ js) = elim (Bool-cases (icontains value j)) [
  | inl hit ↦ inr (j, rw hit refl, ([], js, refl, hit, tt))
  | inr miss ↦ elim (first_matching_keyword_lem value js) [
    | inl (e, none_match) ↦ inl (rw miss e, (miss, none_match))
    | inr (k, e, (before, after, split, found, none_before)) ↦
        inr (k, rw miss e, (j ∷ before, after, ap (◌∷◌ j) split, found, (miss, none_before)))
  ]
]
