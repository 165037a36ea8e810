-- ===== src/Format/Reads/Decoded.antt =====
-- Lemmas on `readTable`: where its entries come from.
use binary_atlas.Prelude.{
  ℕ, zero, suc, ◌+◌, ◌≡◌, subst, not, some, inl, inr, List, [], ◌++◌, ◌==◌, ◌>>=?◌, if_true,
  if_false, All, Bool-cases, arith,
}
use binary_atlas.Prelude.Text.{Text, lit}
use binary_atlas.Util.Arithmetic.{
  checked_add, checked_multiply, cast_unsigned, range_fits_within, unsigned, size_t,
}
use binary_atlas.Util.ByteReader.{ByteReader, Layout, size, read_object, can_read, subspan}
use binary_atlas.Core.Error.{
  success, parse, reject_if, or_fail, >>=-eq-success, or_fail-eq-success, success_inj,
}
use binary_atlas.Format.Reads.{read_entry, read_entries, read_table}

module _ {T : Type 0} (layout : Layout T) (reader : ByteReader) (offset entry_size : ℕ)
    (label : Text) (P : T → Type 0) (decoded : (bytes : List ℕ) → P (layout.decode bytes)) where
  read_object-holds : (at : ℕ) (x : T) → read_object layout reader at ≡ some x → P x
  unfolding read_object
  read_object-holds at x h = elim (Bool-cases (can_read reader at layout.size_of)) [
    | inl e ↦
        let same : layout.decode (subspan at layout.size_of reader.bytes) ≡ x = ground arith in
        subst P same (decoded _)
    | inr e ↦ absurd (ground arith)
  ]

  read_entry-holds :
      (index : ℕ) (x : T) → read_entry layout reader offset entry_size label index ≡ success x → P x
  unfolding read_entry
  read_entry-holds index x h =
      let (at, e, rest) =
        >>=-eq-success
          (or_fail
            (checked_multiply 64 entry_size index
              >>=? checked_add 64 offset
              >>=? cast_unsigned size_t)
            (parse (lit "overflow while parsing " ++ label)))
          _ h in
      read_object-holds at x (or_fail-eq-success _ _ rest)

  read_entries-All :
      (n index : ℕ) (xs : List T)
      → read_entries layout reader offset entry_size label index n ≡ success xs
      → All P xs
  unfolding read_entries
  read_entries-All zero index xs h = subst (All P) (success_inj h) tt
  read_entries-All (suc n) index xs h =
      let (x, first, more) =
        >>=-eq-success (read_entry layout reader offset entry_size label index) _ h in
      let (rest, others, last) =
        >>=-eq-success (read_entries layout reader offset entry_size label (index + 1) n) _ more in
      subst (All P) (success_inj last)
        (read_entry-holds index x first, read_entries-All n (index + 1) rest others)

  -- What holds of all that the layout decodes holds of the entries.
  pub read_table-All :
      (count : ℕ) (xs : List T)
      → read_table layout reader offset entry_size label count ≡ success xs
      → All P xs
  unfolding read_table
  read_table-All count xs h =
      let (u, e1, h1) =
        >>=-eq-success
          (reject_if (not (entry_size == layout.size_of))
            (parse (lit "unexpected " ++ (label ++ lit " entry size"))))
          _ h in
      elim (Bool-cases (count == 0)) [
        | inl e ↦
            let none_left : [] ≡ xs = success_inj (if_true (count == 0) _ _ e h1) in
            subst (All P) none_left tt
        | inr e ↦
            let h2 = if_false (count == 0) _ _ e h1 in
            let (total, e3, h3) =
              >>=-eq-success
                (or_fail (checked_multiply 64 entry_size count)
                  (parse (lit "overflow while parsing " ++ label)))
                _ h2 in
            let (readable, e4, h4) =
              >>=-eq-success
                (or_fail (cast_unsigned (unsigned 64) (size reader))
                  (parse (lit "host size limit exceeded while parsing " ++ label)))
                _ h3 in
            let (v, e5, h5) =
              >>=-eq-success
                (reject_if (not (range_fits_within 64 offset total readable))
                  (parse (lit "truncated " ++ label ++ lit " table")))
                _ h4 in
            let (safe, e6, h6) =
              >>=-eq-success
                (or_fail (cast_unsigned size_t count)
                  (parse (label ++ lit " table exceeds host size limits")))
                _ h5 in
            read_entries-All count 0 xs h6
      ]
