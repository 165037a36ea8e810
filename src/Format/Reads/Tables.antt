-- ===== src/Format/Reads/Tables.antt =====
-- What `readBoundedSpan` and `readTable` return.
use binary_atlas.Prelude.{
  ℕ, zero, suc, ◌+◌, ◌*◌, ◌^◌, ◌≤◌, ◌<◌, ◌≡◌, refl, ap, ◌∙◌, ◌≢◌, ◌||◌, ◌⊎◌, inl, inr, true, false,
  none, some, List, [], ◌∷◌, ◌++◌, ◌==◌, ltb, leb, length, Bool-cases, arith,
}
use binary_atlas.Prelude.Text.{Text, lit}
use binary_atlas.Util.Arithmetic.{checked_add, checked_multiply, range_fits_within}
use binary_atlas.Util.Arithmetic.Exact.{
  checked_add_lem, checked_multiply_lem, range_fits_within_iff, cast_size_t,
}
use binary_atlas.Util.ByteReader.{
  ByteReader, Layout, size, subspan, can_read, read_span, read_object,
}
use binary_atlas.Core.Error.{parse_error, Error, success, failure, parse}
use binary_atlas.Format.Reads.{read_bounded_span, read_entry, read_entries, read_table}

-- For a size of 64 bits and a file below 2^64 bytes, `readBoundedSpan` returns the bytes of the range
-- where it lies in the file, and a parse error where it does not.
pub read_bounded_span_lem :
    (reader : ByteReader) (offset n : ℕ) (label : Text)
    → n < 2 ^ 64
    → length reader.bytes < 2 ^ 64
    → ((offset + n ≤ length reader.bytes)
        × (read_bounded_span reader offset n label ≡ success (subspan offset n reader.bytes)))
      ⊎ ((length reader.bytes < offset + n)
          × (read_bounded_span reader offset n label
              ≡ failure (parse (label ++ lit " extends beyond file contents"))))
unfolding read_bounded_span size read_span can_read
read_bounded_span_lem reader offset n label hn hl =
    let whole = cast_size_t (length reader.bytes) hl in
    elim (Bool-cases (range_fits_within 64 offset n (length reader.bytes))) [
      | inr e ↦
          let out : length reader.bytes < offset + n =
            ground (arith, e, range_fits_within_iff 64 offset n (length reader.bytes) hn hl) in
          inr (out, rw (whole, e) refl)
      | inl e ↦
          let fits : offset + n ≤ length reader.bytes =
            (range_fits_within_iff 64 offset n (length reader.bytes) hn hl).0 e in
          let readable : read_span reader offset n ≡ some (subspan offset n reader.bytes) =
            ground arith in
          inl
            (fits, rw (whole, e, cast_size_t offset (omega arith), cast_size_t n hn, readable) refl)
    ]

-- The entries that stand one behind the other from `offset` on.
abbrev pub table_at : {T : Type 0} → Layout T → List ℕ → ℕ → ℕ → List T
table_at layout bytes offset zero = []
table_at layout bytes offset (suc n) =
    layout.decode (subspan offset layout.size_of bytes)
    ∷ table_at layout bytes (offset + layout.size_of) n

le_product : (s n : ℕ) → 0 < s → n ≤ s * n
le_product zero n h = absurd (omega arith)
le_product (suc s) n h = omega arith

le_entry : (s n : ℕ) → 0 < n → s ≤ s * n
le_entry s zero h = absurd (omega arith)
le_entry s (suc n) h = omega arith

module _ {T : Type 0} (layout : Layout T) (reader : ByteReader) (offset : ℕ) (label : Text)
    (word : length reader.bytes < 2 ^ 64) where
  read_entry-fits :
      (index : ℕ)
      → offset + layout.size_of * index + layout.size_of ≤ length reader.bytes
      → 0 < layout.size_of
      → read_entry layout reader offset layout.size_of label index
        ≡ success
            (layout.decode (subspan (offset + layout.size_of * index) layout.size_of reader.bytes))
  unfolding read_entry read_object can_read size
  read_entry-fits index fits positive =
      let place = offset + layout.size_of * index in
      let product : checked_multiply 64 layout.size_of index ≡ some (layout.size_of * index) =
        ground (arith, checked_multiply_lem 64 layout.size_of index (omega arith)) in
      let sum : checked_add 64 offset (layout.size_of * index) ≡ some place =
        ground (arith, checked_add_lem 64 offset (layout.size_of * index) (omega arith)) in
      let read : read_object layout reader place
          ≡ some (layout.decode (subspan place layout.size_of reader.bytes)) =
        ground arith in
      rw (product, sum, cast_size_t place (omega arith), read) refl

  read_entries-table_at :
      (index n : ℕ)
      → offset + layout.size_of * (index + n) ≤ length reader.bytes
      → 0 < layout.size_of
      → read_entries layout reader offset layout.size_of label index n
        ≡ success (table_at layout reader.bytes (offset + layout.size_of * index) n)
  unfolding read_entries
  read_entries-table_at index zero fits positive = refl
  read_entries-table_at index (suc n) fits positive =
      let place = offset + layout.size_of * index in
      let next : offset + layout.size_of * (index + 1) ≡ place + layout.size_of = omega arith in
      let here : place + layout.size_of ≤ length reader.bytes = omega (arith, fits) in
      let beyond : offset + layout.size_of * (index + 1 + n) ≤ length reader.bytes =
        omega (arith, fits) in
      rw
        (
          read_entry-fits index here positive,
          read_entries-table_at (index + 1) n beyond positive,
          next,
        )
        refl

  read_table-some :
      (count : ℕ)
      → 0 < count
      → offset + layout.size_of * count ≤ length reader.bytes
      → 0 < layout.size_of
      → read_table layout reader offset layout.size_of label count
        ≡ success (table_at layout reader.bytes offset count)
  unfolding read_table size
  read_table-some count some_left fits positive =
      let total = layout.size_of * count in
      let entry : layout.size_of < 2 ^ 64 =
        omega (arith, fits, some_left, le_entry layout.size_of count some_left) in
      let many : count < 2 ^ 64 = omega (arith, fits, le_product layout.size_of count positive) in
      let same : (layout.size_of == layout.size_of) ≡ true = ground arith in
      let some_entries : (count == 0) ≡ false = ground arith in
      let product : checked_multiply 64 layout.size_of count ≡ some total =
        ground (arith, checked_multiply_lem 64 layout.size_of count entry, fits) in
      let inside : range_fits_within 64 offset total (length reader.bytes) ≡ true =
        (range_fits_within_iff 64 offset total (length reader.bytes) (omega (arith, fits)) word).1
          fits in
      rw
        (
          same,
          product,
          some_entries,
          cast_size_t (length reader.bytes) word,
          inside,
          cast_size_t count many,
        )
        (read_entries-table_at 0 count (omega (arith, fits)) positive
          ∙ ap (λ o. success (table_at layout reader.bytes o count)) (omega arith))

  read_table-fits :
      (count : ℕ)
      → (count ≡ 0) ⊎ (offset + layout.size_of * count ≤ length reader.bytes)
      → 0 < layout.size_of
      → read_table layout reader offset layout.size_of label count
        ≡ success (table_at layout reader.bytes offset count)
  unfolding read_table
  read_table-fits zero fits positive = ground arith
  read_table-fits (suc n) (inl e) positive = absurd (omega (arith, e))
  read_table-fits (suc n) (inr fits) positive = read_table-some (suc n) (omega arith) fits positive

  read_table-beyond :
      (count : ℕ)
      → 0 < count
      → length reader.bytes < offset + layout.size_of * count
      → layout.size_of < 2 ^ 64
      → (e : Error) × (read_table layout reader offset layout.size_of label count ≡ failure e)
        × (e.code ≡ parse_error)
  unfolding read_table size
  read_table-beyond count positive beyond entry =
      let total = layout.size_of * count in
      let same : (layout.size_of == layout.size_of) ≡ true = ground arith in
      let some_entries : (count == 0) ≡ false = ground arith in
      elim (Bool-cases (ltb total (2 ^ 64))) [
        | inr e ↦
            let product : checked_multiply 64 layout.size_of count ≡ none =
              ground (arith, e, checked_multiply_lem 64 layout.size_of count entry) in
            (
              parse (lit "overflow while parsing " ++ label),
              rw (same, product, some_entries) refl,
              refl,
            )
        | inl e ↦
            let product : checked_multiply 64 layout.size_of count ≡ some total =
              ground (arith, e, checked_multiply_lem 64 layout.size_of count entry) in
            let outside : range_fits_within 64 offset total (length reader.bytes) ≡ false = ground (
              arith,
              e,
              beyond,
              range_fits_within_iff 64 offset total (length reader.bytes) (ground (arith, e)) word,
            ) in
            (
              parse (lit "truncated " ++ label ++ lit " table"),
              rw (same, product, some_entries, cast_size_t (length reader.bytes) word, outside)
                  refl,
              refl,
            )
      ]

  read_table-other :
      (entry_size count : ℕ)
      → (entry_size == layout.size_of) ≡ false
      → read_table layout reader offset entry_size label count
        ≡ failure (parse (lit "unexpected " ++ label ++ lit " entry size"))
  unfolding read_table
  read_table-other entry_size count e = rw e refl

-- For a file below 2^64 bytes and an entry type of 1 to 2^64 - 1 bytes, `readTable` fails with a parse
-- error where the entry size is not that of the type, or where there are entries and they do not
-- lie in the file. Otherwise it returns them, each decoded at its place.
pub read_table_lem :
    {T : Type 0} (layout : Layout T) (reader : ByteReader) (offset entry_size : ℕ) (label : Text)
    (count : ℕ)
    → length reader.bytes < 2 ^ 64
    → 0 < layout.size_of
    → layout.size_of < 2 ^ 64
    → ((entry_size ≡ layout.size_of)
        × ((count ≡ 0) ⊎ (offset + layout.size_of * count ≤ length reader.bytes))
        × (read_table layout reader offset entry_size label count
            ≡ success (table_at layout reader.bytes offset count)))
      ⊎ (((entry_size ≢ layout.size_of)
            ⊎ ((0 < count) × (length reader.bytes < offset + layout.size_of * count)))
          × ((e : Error) × (read_table layout reader offset entry_size label count ≡ failure e)
              × (e.code ≡ parse_error)))
read_table_lem layout reader offset entry_size label count word positive small =
    elim (Bool-cases (entry_size == layout.size_of)) [
      | inr differ ↦ inr (
        inl (λ e. ground (arith, differ, e)),
        (_, read_table-other layout reader offset label word entry_size count differ, refl),
      )
      | inl equal ↦
          let same : entry_size ≡ layout.size_of = ground arith in
          elim (Bool-cases
            (count == 0 || leb (offset + layout.size_of * count) (length reader.bytes))) [
              | inl e ↦
                  let fits : (count ≡ 0) ⊎ (offset + layout.size_of * count ≤ length reader.bytes) =
                    ground arith in
                  inl (
                    same,
                    fits,
                    ap (λ s. read_table layout reader offset s label count) same
                        ∙ read_table-fits layout reader offset label word count fits positive,
                  )
              | inr e ↦
                  let beyond : (0 < count)
                      × (length reader.bytes < offset + layout.size_of * count) =
                    ground arith in
                  let (error, fails, code) =
                    read_table-beyond layout reader offset label word count beyond.0 beyond.1
                      small in
                  inr (
                    inr beyond,
                    (
                      error,
                      ap (λ s. read_table layout reader offset s label count) same ∙ fails,
                      code,
                    ),
                  )
            ]
    ]
