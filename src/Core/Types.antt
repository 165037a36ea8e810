-- ===== src/Core/Types.antt =====
-- include/binaryatlas/core/types.hpp: addresses, ranges and the records of a parsed binary.
pub mod Names
use binary_atlas.Prelude.{ℕ, ◌-◌, Bool, true, false, ◌&&◌, Option, List, leb, ltb, if◌then◌else◌}
use binary_atlas.Prelude.Int.{ℤ}
use binary_atlas.Prelude.Text.{Text}

-- A `std::uint64_t`.
abbrev pub Address : Type 0
Address = ℕ

pub record AddressRange : Type 0 where
  pub start : Address
  pub end : Address

abbrev pub range_contains : AddressRange → Address → Bool
range_contains r address = leb r.start address && ltb address r.end

abbrev pub range_size : AddressRange → ℕ
range_size r = if leb r.start r.end then r.end - r.start else 0

pub data BinaryFormat : Type 0 where
  unknown elf pe macho : BinaryFormat

pub data Architecture : Type 0 where
  unknown x86_64 : Architecture

pub data Endianness : Type 0 where
  unknown little big : Endianness

pub data SymbolType : Type 0 where
  unknown no_type function object section file tls : SymbolType

pub data SymbolBinding : Type 0 where
  unknown local global weak : SymbolBinding

pub record BinaryMetadata : Type 0 where
  pub format : BinaryFormat
  pub architecture : Architecture
  pub endianness : Endianness
  pub format_version : Text
  pub source_path : Text
  pub file_size : ℕ
  pub entry_point : ℕ
  pub abi : ℕ
  pub abi_version : ℕ
  pub type : ℕ
  pub machine : ℕ
  pub stripped : Bool

pub record Section : Type 0 where
  pub name : Text
  pub range : AddressRange
  pub file_offset : ℕ
  pub file_size : ℕ
  pub alignment : ℕ
  pub flags : ℕ
  pub type : ℕ
  pub executable : Bool
  pub writable : Bool
  pub alloc : Bool

pub record Segment : Type 0 where
  pub type_name : Text
  pub range : AddressRange
  pub file_offset : ℕ
  pub file_size : ℕ
  pub memory_size : ℕ
  pub flags : ℕ
  pub type : ℕ
  pub executable : Bool
  pub writable : Bool
  pub readable : Bool

pub record Symbol : Type 0 where
  pub name : Text
  pub section_name : Text
  pub source_table : Text
  pub address : Address
  pub size : ℕ
  pub type : SymbolType
  pub binding : SymbolBinding
  pub defined : Bool
  pub imported : Bool
  pub exported : Bool

pub record Relocation : Type 0 where
  pub section_name : Text
  pub symbol_name : Text
  pub address : Address
  pub type : ℕ
  pub addend : ℤ
  pub has_addend : Bool

pub record ExtractedString : Type 0 where
  pub section_name : Text
  pub address : Address
  pub value : Text

pub data InstructionFlowKind : Type 0 where
  invalid normal call_direct call_indirect jump_conditional jump_unconditional jump_indirect
        return_flow trap :
      InstructionFlowKind

pub record MemoryReference : Type 0 where
  pub instruction_address : Address
  pub target : Address
  pub resolved : Bool
  pub rip_relative : Bool
  pub expression : Text

pub data BlockEdgeType : Type 0 where
  fallthrough true_branch false_branch jump call_fallthrough unresolved_indirect return_edge :
      BlockEdgeType
