-- ===== src/Format/ElfTypes.antt =====
-- What src/format/elf_parser.cpp uses of elf.h, which is not part of the repository: the fields of the
-- structures, their layouts and the constants. `IsElf` states the documented range of some
-- fields.
use binary_atlas.Prelude.{ℕ, ◌^◌, ◌<◌, List}
use binary_atlas.Prelude.Int.{ℤ}
use binary_atlas.Util.ByteReader.{Layout}

pub record Elf64Ehdr : Type 0 where
  pub e_ident : List ℕ
  pub e_type : ℕ
  pub e_machine : ℕ
  pub e_version : ℕ
  pub e_entry : ℕ
  pub e_phoff : ℕ
  pub e_shoff : ℕ
  pub e_phentsize : ℕ
  pub e_phnum : ℕ
  pub e_shentsize : ℕ
  pub e_shnum : ℕ
  pub e_shstrndx : ℕ

pub record Elf64Shdr : Type 0 where
  pub sh_name : ℕ
  pub sh_type : ℕ
  pub sh_flags : ℕ
  pub sh_addr : ℕ
  pub sh_offset : ℕ
  pub sh_size : ℕ
  pub sh_link : ℕ
  pub sh_addralign : ℕ
  pub sh_entsize : ℕ

pub record Elf64Phdr : Type 0 where
  pub p_type : ℕ
  pub p_flags : ℕ
  pub p_offset : ℕ
  pub p_vaddr : ℕ
  pub p_filesz : ℕ
  pub p_memsz : ℕ

pub record Elf64Sym : Type 0 where
  pub st_name : ℕ
  pub st_info : ℕ
  pub st_shndx : ℕ
  pub st_value : ℕ
  pub st_size : ℕ

pub record Elf64Rel : Type 0 where
  pub r_offset : ℕ
  pub r_info : ℕ

pub record Elf64Rela : Type 0 where
  pub r_offset : ℕ
  pub r_info : ℕ
  pub r_addend : ℤ

pub record Elf : Type 0 where
  pub ehdr : Layout Elf64Ehdr
  pub shdr : Layout Elf64Shdr
  pub phdr : Layout Elf64Phdr
  pub sym : Layout Elf64Sym
  pub rel : Layout Elf64Rel
  pub rela : Layout Elf64Rela
  -- The indices of `e_ident` and the values that the header is tested for.
  pub ei_class : ℕ
  pub ei_data : ℕ
  pub ei_osabi : ℕ
  pub ei_abiversion : ℕ
  pub elfclass64 : ℕ
  pub elfdata2lsb : ℕ
  pub em_x86_64 : ℕ
  pub ev_current : ℕ
  pub pn_xnum : ℕ
  pub shn_xindex : ℕ
  pub shn_undef : ℕ
  -- Section types and flags, segment types and flags.
  pub sht_nobits : ℕ
  pub sht_symtab : ℕ
  pub sht_dynsym : ℕ
  pub sht_rela : ℕ
  pub sht_rel : ℕ
  pub shf_execinstr : ℕ
  pub shf_write : ℕ
  pub shf_alloc : ℕ
  pub pt_null : ℕ
  pub pt_load : ℕ
  pub pt_dynamic : ℕ
  pub pt_interp : ℕ
  pub pt_note : ℕ
  pub pt_phdr : ℕ
  pub pt_tls : ℕ
  pub pf_x : ℕ
  pub pf_w : ℕ
  pub pf_r : ℕ
  -- Symbol types and bindings.
  pub stt_notype : ℕ
  pub stt_func : ℕ
  pub stt_object : ℕ
  pub stt_section : ℕ
  pub stt_file : ℕ
  pub stt_tls : ℕ
  pub stb_local : ℕ
  pub stb_global : ℕ
  pub stb_weak : ℕ
  -- The macros `ELF64_ST_TYPE`, `ELF64_ST_BIND`, `ELF64_R_SYM` and `ELF64_R_TYPE`.
  pub st_type : ℕ → ℕ
  pub st_bind : ℕ → ℕ
  pub r_sym : ℕ → ℕ
  pub r_type : ℕ → ℕ

-- The sizes in a header are `uint64_t` fields.
pub record IsElf (e : Elf) : Type 0 where
  pub sh_size_word : (bytes : List ℕ) → (e.shdr.decode bytes).sh_size < 2 ^ 64
  pub p_filesz_word : (bytes : List ℕ) → (e.phdr.decode bytes).p_filesz < 2 ^ 64
  pub p_memsz_word : (bytes : List ℕ) → (e.phdr.decode bytes).p_memsz < 2 ^ 64
