-- ===== src/Core/Image/Executable.antt =====
-- Which addresses count as executable.
use binary_atlas.Prelude.{◌≡◌, refl, ◌&&◌, List, [], ◌∷◌, any, arith}
use binary_atlas.Core.Types.{Address, Section, range_contains}
use binary_atlas.Core.Image.{BinaryImage, section_ranges, executable_ranges, is_executable_address}

sections_agree :
    (a : Address) (ss : List Section)
    → any (λ s. s.executable && range_contains s.range a) ss
      ≡ any (λ r. range_contains r a) (section_ranges ss)
unfolding section_ranges
sections_agree a [] = refl
sections_agree a (s ∷ ss) = ground (arith, sections_agree a ss)

-- An address is executable exactly when one of the executable ranges contains it.
pub is_executable_address-ranges :
    (image : BinaryImage) (a : Address)
    → is_executable_address image a ≡ any (λ r. range_contains r a) (executable_ranges image)
unfolding is_executable_address executable_ranges
is_executable_address-ranges image a = sections_agree a image.sections
