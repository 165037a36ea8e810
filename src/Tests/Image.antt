-- ===== src/Tests/Image.antt =====
-- A small image with one executable section, one data section and a segment.
use binary_atlas.Prelude.{
  ◌+◌, none, ℕ, ◌≡◌, refl, ◌⊎◌, inl, inr, true, false, some, [], ◌∷◌, length, ◌<◌, In, All, arith,
}
use binary_atlas.Prelude.Text.{lit}
use binary_atlas.Util.Arithmetic.{checked_add, cast_unsigned}
use binary_atlas.Util.ByteReader.Bounds.{IsSpan}
use binary_atlas.Core.Types.{BinaryFormat, Architecture, Endianness, Section}
use binary_atlas.Core.Image.{
  BinaryImage, Extent, section_extent, va_to_file_offset, file_offset_to_va, read_bytes,
}
use binary_atlas.Core.Image.Translation.{
  extents, IsWordSized, Translates, Coherent, va_to_file_offset_sound, va_to_file_offset_complete,
  file_offset_to_va_va, read_bytes_lem,
}

abbrev pub text_section : Section
text_section = record {
  name = lit ".text";
  range = record { start = 0x1000; end = 0x1004 };
  file_offset = 2;
  file_size = 4;
  alignment = 16;
  flags = 6;
  type = 1;
  executable = true;
  writable = false;
  alloc = true;
}

abbrev pub data_section : Section
data_section = record {
  name = lit ".data";
  range = record { start = 0x2000; end = 0x2002 };
  file_offset = 6;
  file_size = 2;
  alignment = 8;
  flags = 3;
  type = 1;
  executable = false;
  writable = true;
  alloc = true;
}

abbrev pub sample_image : BinaryImage
sample_image = record {
  metadata = record {
    format = BinaryFormat.elf;
    architecture = Architecture.x86_64;
    endianness = Endianness.little;
    format_version = lit "ELF64";
    source_path = lit "sample";
    file_size = 8;
    entry_point = 0x1000;
    abi = 0;
    abi_version = 0;
    type = 2;
    machine = 62;
    stripped = true;
  };
  source_path = lit "sample";
  file_bytes = 10 ∷ 11 ∷ 0x55 ∷ 0x90 ∷ 0xff ∷ 0xc3 ∷ 16 ∷ 17 ∷ [];
  sections = text_section ∷ data_section ∷ [];
  segments = [];
  symbols = [];
  relocations = [];
  imports = [];
  exports = [];
  extracted_strings = [];
}

sized : All IsWordSized (extents sample_image)
sized = omega arith

coherent : Coherent (extents sample_image)
coherent e f o (inl p) (inl q) c d = ground arith
coherent e f o (inl p) (inr (inl q)) c d = ground arith
coherent e f o (inr (inl p)) (inl q) c d = ground arith
coherent e f o (inr (inl p)) (inr (inl q)) c d = ground arith
coherent e f o (inr (inr z)) n c d = absurd z
coherent e f o (inl p) (inr (inr z)) c d = absurd z
coherent e f o (inr (inl p)) (inr (inr z)) c d = absurd z

translated : va_to_file_offset sample_image 0x1002 ≡ some 4
unfolding va_to_file_offset checked_add cast_unsigned
translated = refl

va_to_file_offset_sound_example : (e : Extent) × In e (extents sample_image) × Translates e 0x1002 4
va_to_file_offset_sound_example = va_to_file_offset_sound sample_image 0x1002 4 sized translated

va_to_file_offset_complete_example : (p : ℕ) × (va_to_file_offset sample_image 0x2001 ≡ some p)
va_to_file_offset_complete_example =
    va_to_file_offset_complete sample_image 0x2001 7 (section_extent data_section) sized
      (inr (inl refl)) (omega arith)

file_offset_to_va_va_example : file_offset_to_va sample_image 4 ≡ some 0x1002
file_offset_to_va_va_example = file_offset_to_va_va sample_image 0x1002 4 sized coherent translated

read_bytes_lem_example :
    ((va_to_file_offset sample_image 0x1001 ≡ none) × (read_bytes sample_image 0x1001 3 ≡ []))
    ⊎ ((o : ℕ) × (va_to_file_offset sample_image 0x1001 ≡ some o)
        × (((length sample_image.file_bytes < o + 3) × (read_bytes sample_image 0x1001 3 ≡ []))
            ⊎ IsSpan sample_image.file_bytes o 3 (read_bytes sample_image 0x1001 3)))
read_bytes_lem_example = read_bytes_lem sample_image 0x1001 3 (omega arith) (omega arith)

read_bytes_runs : read_bytes sample_image 0x1001 3 ≡ 0x90 ∷ 0xff ∷ 0xc3 ∷ []
unfolding read_bytes checked_add cast_unsigned
read_bytes_runs = refl
