-- ===== src/Format/Parse/Outcome.antt =====
-- Lemmas on `parseBuffer`: which files it refuses, and as what.
use binary_atlas.Prelude.{
  ℕ, ◌≡◌, ◌≢◌, ◌↔◌, ◌⊎◌, inl, inr, refl, not, Bool, true, false, some, none, List, [], ◌∷◌, ◌==◌,
  length, take, Bool-cases, Option, arith,
}
use binary_atlas.Prelude.Text.{Text, lit}
use binary_atlas.Util.Arithmetic.{cast_unsigned, unsigned}
use binary_atlas.Util.ByteReader.{read_object}
use binary_atlas.Core.Error.{
  parse_error, unsupported_format, Result, success, failure, ◌>>=◌, ◌>>◌, reject_if, or_fail,
  unsupported, parse,
}
use binary_atlas.Core.Image.{BinaryImage}
use binary_atlas.Format.ElfTypes.{Elf, Elf64Ehdr}
use binary_atlas.Format.Reads.{has_prefix}
use binary_atlas.Format.Reads.Errors.{OnlyParse, fails}
use binary_atlas.Format.Parse.{elf_magic, ident, check_header, parse_tables, parse_buffer}
use binary_atlas.Format.Parse.Errors.{parse_tables-OnlyParse}

pub has_prefix_iff :
    (bytes prefix : List ℕ)
    → (has_prefix bytes prefix ≡ true) ↔ (take (length prefix) bytes ≡ prefix)
unfolding has_prefix
has_prefix_iff bytes [] = (λ h. refl, λ h. refl)
has_prefix_iff [] (p ∷ ps) = ground arith
has_prefix_iff (b ∷ bytes) (p ∷ ps) = ground (arith, has_prefix_iff bytes ps)

-- A header of an ELF file of another class, byte order or machine, or with extended numbering.
abbrev pub IsForeign : Elf → Elf64Ehdr → Type 0
IsForeign e h =
    (ident e h e.ei_class ≢ e.elfclass64)
    ⊎ (ident e h e.ei_data ≢ e.elfdata2lsb)
    ⊎ (h.e_machine ≢ e.em_x86_64)
    ⊎ (h.e_shnum ≡ 0)
    ⊎ (h.e_shnum ≡ e.pn_xnum)
    ⊎ (h.e_shstrndx ≡ e.shn_xindex)

-- What the test of the header says, and what the parser says of a file.
abbrev HeaderOutcome : Elf → Elf64Ehdr → Result (Unit {0}) → Type 0
HeaderOutcome e h (success u) = ¬ IsForeign e h × (h.e_version ≡ e.ev_current)
HeaderOutcome e h (failure err) =
    ((err.code ≡ parse_error) × (h.e_version ≢ e.ev_current))
    ⊎ ((err.code ≡ unsupported_format) × IsForeign e h)

abbrev pub Outcome : Elf → List ℕ → Result BinaryImage → Type 0
Outcome e bytes (success image) =
    (take 4 bytes ≡ elf_magic)
    × ((h : Elf64Ehdr) × (read_object e.ehdr (record { bytes = bytes }) 0 ≡ some h)
        × ¬ IsForeign e h
        × (h.e_version ≡ e.ev_current))
Outcome e bytes (failure err) =
    (err.code ≡ parse_error)
    ⊎ ((err.code ≡ unsupported_format)
        × ((take 4 bytes ≢ elf_magic)
            ⊎ ((h : Elf64Ehdr) × (read_object e.ehdr (record { bytes = bytes }) 0 ≡ some h)
                × IsForeign e h)))

module _ (e : Elf) where
  check_header_outcome : (h : Elf64Ehdr) → HeaderOutcome e h (check_header e h)
  unfolding check_header
  check_header_outcome h = elim (Bool-cases (ident e h e.ei_class == e.elfclass64)) [
    | inr a ↦ rw a (inr (refl, inl (λ q. ground (arith, a, q))))
    | inl a ↦ rw a (elim (Bool-cases (ident e h e.ei_data == e.elfdata2lsb)) [
      | inr b ↦ rw b (inr (refl, inr (inl (λ q. ground (arith, b, q)))))
      | inl b ↦ rw b (elim (Bool-cases (h.e_machine == e.em_x86_64)) [
        | inr c ↦ rw c (inr (refl, inr (inr (inl (λ q. ground (arith, c, q))))))
        | inl c ↦ rw c (elim (Bool-cases (h.e_version == e.ev_current)) [
          | inr d ↦ rw d (inl (refl, λ q. ground (arith, d, q)))
          | inl d ↦ rw d (elim (Bool-cases (h.e_shnum == 0)) [
            | inl k ↦ rw k (inr (refl, inr (inr (inr (inl (ground (arith, k)))))))
            | inr k ↦ rw k (elim (Bool-cases (h.e_shnum == e.pn_xnum)) [
              | inl l ↦ rw l (inr (refl, inr (inr (inr (inr (inl (ground (arith, l))))))))
              | inr l ↦ rw l (elim (Bool-cases (h.e_shstrndx == e.shn_xindex)) [
                | inl m ↦ rw m (inr (refl, inr (inr (inr (inr (inr (ground (arith, m))))))))
                | inr m ↦ rw m (λ f. ground (arith, a, b, c, k, l, m, f), ground (arith, d))
              ])
            ])
          ])
        ])
      ])
    ])
  ]

  module _ (source_name : Text) (bytes : List ℕ) where
    from_tables :
        (h : Elf64Ehdr) (r : Result BinaryImage)
        → OnlyParse r
        → take 4 bytes ≡ elf_magic
        → read_object e.ehdr (record { bytes = bytes }) 0 ≡ some h
        → ¬ IsForeign e h × (h.e_version ≡ e.ev_current)
        → Outcome e bytes r
    from_tables h (success image) o magic read ok = (magic, (h, read, ok.0, ok.1))
    from_tables h (failure err) (fails message) magic read ok = inl refl

    from_header :
        (size : ℕ) (h : Elf64Ehdr) (r : Result (Unit {0}))
        → HeaderOutcome e h r
        → take 4 bytes ≡ elf_magic
        → read_object e.ehdr (record { bytes = bytes }) 0 ≡ some h
        → Outcome e bytes (r >> parse_tables e source_name bytes size h)
    from_header size h (success u) ok magic read =
        from_tables h (parse_tables e source_name bytes size h)
          (parse_tables-OnlyParse e source_name bytes size h) magic read ok
    from_header size h (failure err) (inl p) magic read = inl p.0
    from_header size h (failure err) (inr q) magic read = inr (q.0, inr (h, read, q.1))

    from_read :
        (size : ℕ) (o : Option Elf64Ehdr)
        → take 4 bytes ≡ elf_magic
        → read_object e.ehdr (record { bytes = bytes }) 0 ≡ o
        → Outcome e bytes (
            or_fail o (parse (lit "truncated ELF header")) >>= λ h.
            check_header e h >> parse_tables e source_name bytes size h)
    from_read size none magic read = inl refl
    from_read size (some h) magic read =
        from_header size h (check_header e h) (check_header_outcome h) magic read

    from_size :
        (o : Option ℕ)
        → take 4 bytes ≡ elf_magic
        → Outcome e bytes (
            or_fail o (parse (lit "file exceeds supported host size limits")) >>= λ size.
            or_fail
              (read_object e.ehdr (record { bytes = bytes }) 0)
              (parse (lit "truncated ELF header"))
            >>= λ h. check_header e h >> parse_tables e source_name bytes size h)
    from_size none magic = inl refl
    from_size (some size) magic =
        from_read size (read_object e.ehdr (record { bytes = bytes }) 0) magic refl

    from_magic :
        (b : Bool)
        → has_prefix bytes elf_magic ≡ b
        → Outcome e bytes (
            reject_if (not b) (unsupported (lit "unsupported file magic"))
            >> (or_fail
                  (cast_unsigned (unsigned 64) (length bytes))
                  (parse (lit "file exceeds supported host size limits"))
                >>= λ size.
                    or_fail
                      (read_object e.ehdr (record { bytes = bytes }) 0)
                      (parse (lit "truncated ELF header"))
                    >>= λ h. check_header e h >> parse_tables e source_name bytes size h))
    from_magic false h = inr (refl, inl (λ q. cc (h, (has_prefix_iff bytes elf_magic).1 q)))
    from_magic true h =
        from_size (cast_unsigned (unsigned 64) (length bytes))
          ((has_prefix_iff bytes elf_magic).0 h)

    -- `parseBuffer` takes only files that begin with the ELF magic, whose header is that of a 64-bit
    -- little-endian x86-64 file without extended numbering, and of the current version. Where it
    -- fails, the error is a parse error, or the file is refused as unsupported; and that only
    -- where the magic is missing or the header is that of another kind of file.
    pub parse_buffer-Outcome : Outcome e bytes (parse_buffer e source_name bytes)
    unfolding parse_buffer
    parse_buffer-Outcome = from_magic (has_prefix bytes elf_magic) refl
