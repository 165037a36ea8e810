-- ===== src/Heuristics/Vtable.antt =====
-- src/heuristics/detector.cpp: `detectVtableRegions`.
pub mod Runs
pub mod Regions
use binary_atlas.Prelude.{
  ℕ, zero, suc, ◌+◌, ◌-◌, ◌*◌, ◌%◌, ◌^◌, Bool, true, false, not, ◌||◌, Option, none, some, List, [],
  ◌∷◌, ◌++◌, if◌then◌else◌, leb, ltb, length, min,
}
use binary_atlas.Prelude.Text.{Text, lit}
use binary_atlas.Util.ByteReader.{subspan, le_value}
use binary_atlas.Util.Strings.{decimal, format_hex}
use binary_atlas.Core.Types.{Address, Section}
use binary_atlas.Core.Image.{BinaryImage, is_executable_address}
use binary_atlas.Heuristics.Finding.{HeuristicFinding, clamp_confidence}

-- `readLittleEndianPointer` at an offset of the file, on a machine that stores the lowest byte first.
abbrev pub read_little_endian_pointer : List ℕ → ℕ → ℕ
read_little_endian_pointer bytes offset = le_value (subspan offset 8 bytes)

-- The finding for a run of `run_length` pointers at `cursor`.
unfoldable pub vtable_finding : Section → ℕ → ℕ → HeuristicFinding
unfolding clamp_confidence
vtable_finding section cursor run_length =
    let region_address = (section.range.start + cursor) % 2 ^ 64 in
    record {
      category = lit "candidate_vtable_region";
      address = some region_address;
      function = none;
      confidence = clamp_confidence (55 + 8 * (run_length - 3));
      evidence =
          (decimal run_length ++ lit " consecutive executable pointers")
          ∷ (lit "section=" ++ section.name)
          ∷ (lit "address=" ++ format_hex region_address)
          ∷ [];
      explanation =
          lit
            "A non-executable data region contains multiple consecutive pointers into executable code, which often appears in C++ virtual table layouts.";
    }

module _ (image : BinaryImage) (section : Section) where
  -- The pointer number `index` behind the cursor is the address of code.
  abbrev pub is_code_pointer : ℕ → ℕ → Bool
  is_code_pointer cursor index =
      is_executable_address image
        (read_little_endian_pointer image.file_bytes (section.file_offset + cursor + index * 8))

module _ (image : BinaryImage) (section : Section) (available : ℕ) where
  -- The inner loop, from `run_length` on. Each round takes eight bytes of what is available.
  unfoldable pub run_from : ℕ → ℕ → ℕ → ℕ
  unfolding is_executable_address
  run_from zero cursor run_length = run_length
  run_from (suc fuel) cursor run_length =
      let longer = run_from fuel cursor (run_length + 1) in
      if leb (cursor + (run_length + 1) * 8) available
      then if not (is_code_pointer image section cursor run_length) then run_length else longer
      else run_length

  -- The outer loop, from `cursor` on. Each round advances the cursor by eight or more.
  unfoldable pub vtable_loop : ℕ → ℕ → List HeuristicFinding
  unfolding run_from vtable_finding
  vtable_loop zero cursor = []
  vtable_loop (suc fuel) cursor =
      let run_length = run_from available cursor 0 in
      let behind = vtable_loop fuel (cursor + run_length * 8) in
      let next = vtable_loop fuel (cursor + 8) in
      if leb (cursor + 8) available
      then if leb 3 run_length then vtable_finding section cursor run_length ∷ behind else next
      else []

-- The section's bytes that are in the file.
abbrev pub available_bytes : BinaryImage → Section → ℕ
available_bytes image section =
    min section.file_size (length image.file_bytes - section.file_offset)

abbrev pub is_skipped : BinaryImage → Section → Bool
is_skipped image section =
    section.executable
    || not section.alloc
    || ltb section.file_size 24
    || leb (length image.file_bytes) section.file_offset

unfoldable pub section_regions : BinaryImage → Section → List HeuristicFinding
unfolding vtable_loop
section_regions image section =
    if is_skipped image section
    then []
    else vtable_loop image section (available_bytes image section) (available_bytes image section) 0

unfoldable pub regions_of : BinaryImage → List Section → List HeuristicFinding
unfolding section_regions
regions_of image [] = []
regions_of image (s ∷ ss) = section_regions image s ++ regions_of image ss

unfoldable pub detect_vtable_regions : BinaryImage → List HeuristicFinding
unfolding regions_of
detect_vtable_regions image = regions_of image image.sections
