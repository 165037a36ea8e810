-- ===== src/Format/Ranges.antt =====
-- src/format/elf_parser.cpp: the loops of `parseBuffer` over the section and the program headers.
pub mod Fits
use Prim.Native.Nat.{bit_and}
use binary_atlas.Prelude.{
  ℕ, ◌+◌, Bool, not, ◌&&◌, List, [], ◌∷◌, ◌++◌, ◌==◌, ltb, is_empty, if◌then◌else◌,
}
use binary_atlas.Prelude.Text.{Text, lit}
use binary_atlas.Util.Arithmetic.{checked_range_end, range_fits_within}
use binary_atlas.Util.Strings.{decimal}
use binary_atlas.Core.Error.{Result, success, parse, reject_if, or_fail, ◌>>◌, ◌>>=◌}
use binary_atlas.Core.Types.{AddressRange, Section, Segment}
use binary_atlas.Format.ElfTypes.{Elf, Elf64Shdr, Elf64Phdr}
use binary_atlas.Format.Codes.{program_header_type_name}
use binary_atlas.Format.Reads.{read_c_string}

-- `(flags & flag) != 0U`
abbrev pub has_flag : ℕ → ℕ → Bool
has_flag flags flag = not (bit_and flags flag == 0)

abbrev pub section_label : Text → ℕ → Text
section_label name index =
    if is_empty name then lit "section[" ++ (decimal index ++ lit "]") else name

module _ (e : Elf) where
  abbrev pub to_section : Elf64Shdr → Text → ℕ → Section
  to_section h name end = record {
    name = name;
    range = record { start = h.sh_addr; end = end };
    file_offset = h.sh_offset;
    file_size = h.sh_size;
    alignment = h.sh_addralign;
    flags = h.sh_flags;
    type = h.sh_type;
    executable = has_flag h.sh_flags e.shf_execinstr;
    writable = has_flag h.sh_flags e.shf_write;
    alloc = has_flag h.sh_flags e.shf_alloc;
  }

  -- A round of the loop over the section headers, at `index`.
  unfoldable pub parse_section : ℕ → List ℕ → ℕ → Elf64Shdr → Result Section
  unfolding checked_range_end range_fits_within read_c_string
  parse_section file_size shstrtab index h =
      let name = read_c_string shstrtab h.sh_name in
      let label = section_label name index in
      do
        end ←
            or_fail (checked_range_end 64 h.sh_addr h.sh_size)
              (parse (lit "section range overflows address space: " ++ label))
        reject_if
            (not (h.sh_type == e.sht_nobits)
              && ltb 0 h.sh_size
              && not (range_fits_within 64 h.sh_offset h.sh_size file_size))
            (parse (lit "section extends beyond file contents: " ++ label))
        success (to_section h name end)

  unfoldable pub parse_sections : ℕ → List ℕ → ℕ → List Elf64Shdr → Result (List Section)
  unfolding parse_section
  parse_sections file_size shstrtab index [] = success []
  parse_sections file_size shstrtab index (h ∷ hs) = do
    section ← parse_section file_size shstrtab index h
    rest ← parse_sections file_size shstrtab (index + 1) hs
    success (section ∷ rest)

  abbrev pub segment_label : ℕ → Text
  segment_label index = lit "segment[" ++ (decimal index ++ lit "]")

  abbrev pub to_segment : Elf64Phdr → ℕ → Segment
  to_segment h end = record {
    type_name = program_header_type_name e h.p_type;
    range = record { start = h.p_vaddr; end = end };
    file_offset = h.p_offset;
    file_size = h.p_filesz;
    memory_size = h.p_memsz;
    flags = h.p_flags;
    type = h.p_type;
    executable = has_flag h.p_flags e.pf_x;
    writable = has_flag h.p_flags e.pf_w;
    readable = has_flag h.p_flags e.pf_r;
  }

  -- A round of the loop over the program headers, at `index`.
  unfoldable pub parse_segment : ℕ → ℕ → Elf64Phdr → Result Segment
  unfolding checked_range_end range_fits_within program_header_type_name
  parse_segment file_size index h = do
    end ←
        or_fail (checked_range_end 64 h.p_vaddr h.p_memsz)
          (parse (lit "segment range overflows address space: " ++ segment_label index))
    reject_if (ltb 0 h.p_filesz && not (range_fits_within 64 h.p_offset h.p_filesz file_size))
        (parse (lit "segment extends beyond file contents: " ++ segment_label index))
    success (to_segment h end)

  unfoldable pub parse_segments : ℕ → ℕ → List Elf64Phdr → Result (List Segment)
  unfolding parse_segment
  parse_segments file_size index [] = success []
  parse_segments file_size index (h ∷ hs) = do
    segment ← parse_segment file_size index h
    rest ← parse_segments file_size (index + 1) hs
    success (segment ∷ rest)
