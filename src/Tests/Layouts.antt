-- ===== src/Tests/Layouts.antt =====
-- The layouts and constants of elf.h, as the parameter of the parser.
use Prim.Native.Nat.{bit_and}
use binary_atlas.Prelude.{ℕ, ◌/◌, ◌%◌, ◌^◌, List, take, arith}
use binary_atlas.Prelude.Int.{pos}
use binary_atlas.Util.Arithmetic.{signed, static_cast}
use binary_atlas.Util.ByteReader.{le_field}
use binary_atlas.Format.ElfTypes.{Elf, IsElf}

abbrev word : ℕ → List ℕ → ℕ
word offset bytes = le_field offset 8 bytes % 2 ^ 64

abbrev pub test_elf : Elf
test_elf = record {
  ehdr = record {
    size_of = 64;
    decode = λ b. record {
      e_ident = take 16 b;
      e_type = le_field 16 2 b;
      e_machine = le_field 18 2 b;
      e_version = le_field 20 4 b;
      e_entry = word 24 b;
      e_phoff = word 32 b;
      e_shoff = word 40 b;
      e_phentsize = le_field 54 2 b;
      e_phnum = le_field 56 2 b;
      e_shentsize = le_field 58 2 b;
      e_shnum = le_field 60 2 b;
      e_shstrndx = le_field 62 2 b;
    };
  };
  shdr = record {
    size_of = 64;
    decode = λ b. record {
      sh_name = le_field 0 4 b;
      sh_type = le_field 4 4 b;
      sh_flags = word 8 b;
      sh_addr = word 16 b;
      sh_offset = word 24 b;
      sh_size = word 32 b;
      sh_link = le_field 40 4 b;
      sh_addralign = word 48 b;
      sh_entsize = word 56 b;
    };
  };
  phdr = record {
    size_of = 56;
    decode = λ b. record {
      p_type = le_field 0 4 b;
      p_flags = le_field 4 4 b;
      p_offset = word 8 b;
      p_vaddr = word 16 b;
      p_filesz = word 32 b;
      p_memsz = word 40 b;
    };
  };
  sym = record {
    size_of = 24;
    decode = λ b. record {
      st_name = le_field 0 4 b;
      st_info = le_field 4 1 b;
      st_shndx = le_field 6 2 b;
      st_value = word 8 b;
      st_size = word 16 b;
    };
  };
  rel = record { size_of = 16; decode = λ b. record { r_offset = word 0 b; r_info = word 8 b } };
  rela = record {
    size_of = 24;
    decode = λ b. record {
      r_offset = word 0 b;
      r_info = word 8 b;
      r_addend = static_cast (signed 64) (pos (word 16 b));
    };
  };
  ei_class = 4;
  ei_data = 5;
  ei_osabi = 7;
  ei_abiversion = 8;
  elfclass64 = 2;
  elfdata2lsb = 1;
  em_x86_64 = 62;
  ev_current = 1;
  pn_xnum = 0xffff;
  shn_xindex = 0xffff;
  shn_undef = 0;
  sht_nobits = 8;
  sht_symtab = 2;
  sht_dynsym = 11;
  sht_rela = 4;
  sht_rel = 9;
  shf_execinstr = 4;
  shf_write = 1;
  shf_alloc = 2;
  pt_null = 0;
  pt_load = 1;
  pt_dynamic = 2;
  pt_interp = 3;
  pt_note = 4;
  pt_phdr = 6;
  pt_tls = 7;
  pf_x = 1;
  pf_w = 2;
  pf_r = 4;
  stt_notype = 0;
  stt_func = 2;
  stt_object = 1;
  stt_section = 3;
  stt_file = 4;
  stt_tls = 6;
  stb_local = 0;
  stb_global = 1;
  stb_weak = 2;
  st_type = λ info. bit_and info 0xf;
  st_bind = λ info. info / 16;
  r_sym = λ info. info / 2 ^ 32;
  r_type = λ info. info % 2 ^ 32;
}

pub test_elf-IsElf : IsElf test_elf
test_elf-IsElf = record {
  sh_size_word = λ b. omega arith;
  p_filesz_word = λ b. omega arith;
  p_memsz_word = λ b. omega arith;
}
