-- ===== src/Disasm/Index.antt =====
-- `DisassemblyResult`: the instructions in the order of decoding, and their index by address.
pub mod Invariant
use binary_atlas.Prelude.{
  ℕ, suc, ◌+◌, Bool, Option, none, some, List, [], ◌∷◌, ◌++◌, ltb, if◌then◌else◌, ◌>>=?◌, length,
  get_elem?, keep_if,
}
use binary_atlas.Prelude.Sets.{map_find, map_put, from_lower_bound}
use binary_atlas.Prelude.Text.{Text, str_eq}
use binary_atlas.Core.Types.{Address}
use binary_atlas.Disasm.Instruction.{Instruction}

pub record DisassemblyResult : Type 0 where
  pub instructions : List Instruction
  pub address_index : List (Address × ℕ)
  pub invalid_instruction_count : ℕ

abbrev pub empty_result : DisassemblyResult
empty_result = record { instructions = []; address_index = []; invalid_instruction_count = 0 }

-- `nullptr` is `none`. The read of `instructions_` is in bounds (`IsIndexed` in `Invariant`).
unfoldable pub find : DisassemblyResult → Address → Option Instruction
find r address = map_find address r.address_index >>=? λ i. get_elem? r.instructions i

-- The loop of `inAddressRange` from an entry of the index on.
unfoldable pub collect_below : DisassemblyResult → Address → List (Address × ℕ) → List Instruction
collect_below r end [] = []
collect_below r end ((a, i) ∷ entries) =
    let rest = collect_below r end entries in
    if ltb a end then elim (get_elem? r.instructions i) [ none ↦ rest | some x ↦ x ∷ rest ] else []

unfoldable pub in_address_range : DisassemblyResult → Address → Address → List Instruction
unfolding collect_below
in_address_range r start end = collect_below r end (from_lower_bound start r.address_index)

unfoldable pub in_section : DisassemblyResult → Text → List Instruction
in_section r section_name = keep_if (λ i. str_eq i.section_name section_name) r.instructions

unfoldable pub add_instruction : DisassemblyResult → Instruction → DisassemblyResult
add_instruction r instruction = record {
  invalid_instruction_count =
      if instruction.invalid then r.invalid_instruction_count + 1 else r.invalid_instruction_count;
  address_index = map_put instruction.address (length r.instructions) r.address_index;
  instructions = r.instructions ++ instruction ∷ [];
}

-- The loop that adds the instructions of one result to another.
unfoldable pub add_all : DisassemblyResult → List Instruction → DisassemblyResult
unfolding add_instruction
add_all r [] = r
add_all r (i ∷ is) = add_all (add_instruction r i) is
