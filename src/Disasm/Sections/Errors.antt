-- ===== src/Disasm/Sections/Errors.antt =====
-- Lemmas on `Disassembler::disassemble`: the kind of its errors.
use binary_atlas.Prelude.{
  ℕ, ◌≡◌, refl, Option, none, some, List, [], ◌∷◌, inl, inr, Bool-cases, arith,
}
use binary_atlas.Prelude.Text.{Text}
use binary_atlas.Core.Error.{disassembly_error, Result, success, failure, ◌>>=◌}
use binary_atlas.Core.Types.{Address, Section}
use binary_atlas.Core.Image.{BinaryImage}
use binary_atlas.Disasm.Instruction.{DisassemblyOptions}
use binary_atlas.Disasm.Index.{DisassemblyResult, empty_result, add_all}
use binary_atlas.Disasm.Capstone.{Capstone}
use binary_atlas.Disasm.Buffer.{disassemble_buffer}
use binary_atlas.Disasm.Sections.{
  cut_slice, requested_start, section_slice, disassemble_section, disassemble_sections,
  check_requested, disassemble,
}

-- A result that is a value or a disassembly error.
abbrev pub OnlyDisassembly : {A : Type 0} → Result A → Type 0
OnlyDisassembly (success a) = Unit
OnlyDisassembly (failure err) = err.code ≡ disassembly_error

bind-OnlyDisassembly :
    {A B : Type 0} (m : Result A) (f : A → Result B)
    → OnlyDisassembly m
    → ((a : A) → OnlyDisassembly (f a))
    → OnlyDisassembly (m >>= f)
bind-OnlyDisassembly (success a) f h k = k a
bind-OnlyDisassembly (failure err) f h k = h

cut_slice-OnlyDisassembly :
    (bytes : List ℕ) (offset start n : ℕ) → OnlyDisassembly (cut_slice bytes offset start n)
unfolding cut_slice
cut_slice-OnlyDisassembly bytes offset start n = ground arith

section_slice-OnlyDisassembly :
    (image : BinaryImage) (options : DisassemblyOptions) (s : Section)
    → OnlyDisassembly (section_slice image options s)
unfolding section_slice
section_slice-OnlyDisassembly image options s = ground arith

disassemble_buffer-OnlyDisassembly :
    (c : Capstone) (bytes : List ℕ) (base : Address) (name : Text) (image : Option BinaryImage)
    → OnlyDisassembly (disassemble_buffer c bytes base name image)
unfolding disassemble_buffer
disassemble_buffer-OnlyDisassembly c bytes base name image = elim (Bool-cases c.opens) [
  | inr e ↦ rw e refl
  | inl e ↦ rw e (elim (Bool-cases c.allocates) [ inr k ↦ rw k refl | inl k ↦ rw k tt ])
]

module _ (c : Capstone) (image : BinaryImage) (options : DisassemblyOptions) where
  disassemble_section-OnlyDisassembly :
      (s : Section) (result : DisassemblyResult)
      → OnlyDisassembly (disassemble_section c image options s result)
  unfolding disassemble_section
  disassemble_section-OnlyDisassembly s result =
      bind-OnlyDisassembly (section_slice image options s) _
        (section_slice-OnlyDisassembly image options s) decoded
    where
      decoded :
          (slice : Option (List ℕ))
          → OnlyDisassembly (elim slice [
            | none ↦ success result
            | some bytes ↦
                disassemble_buffer c bytes (requested_start options s) s.name (some image)
                >>= λ partial. success (add_all result partial.instructions)
          ])
      decoded none = tt
      decoded (some bytes) =
          bind-OnlyDisassembly
            (disassemble_buffer c bytes (requested_start options s) s.name (some image)) _
            (disassemble_buffer-OnlyDisassembly c bytes (requested_start options s) s.name
              (some image))
            (λ partial. tt)

  disassemble_sections-OnlyDisassembly :
      (ss : List Section) (result : DisassemblyResult)
      → OnlyDisassembly (disassemble_sections c image options ss result)
  unfolding disassemble_sections
  disassemble_sections-OnlyDisassembly [] result = tt
  disassemble_sections-OnlyDisassembly (s ∷ ss) result =
      bind-OnlyDisassembly (disassemble_section c image options s result) _
        (disassemble_section-OnlyDisassembly s result) (disassemble_sections-OnlyDisassembly ss)

  -- Where no section is asked for by its name.
  pub disassemble-OnlyDisassembly :
      options.section_name ≡ none → OnlyDisassembly (disassemble c image options)
  unfolding disassemble check_requested
  disassemble-OnlyDisassembly all =
      bind-OnlyDisassembly (disassemble_sections c image options image.sections empty_result) _
        (disassemble_sections-OnlyDisassembly image.sections empty_result) (λ r. rw all tt)
