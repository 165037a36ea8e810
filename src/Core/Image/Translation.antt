-- ===== src/Core/Image/Translation.antt =====
-- Lemmas on the address translation of the image.
use binary_atlas.Prelude.{
  ℕ, ◌+◌, ◌-◌, ◌^◌, ◌≤◌, ◌<◌, ◌≡◌, refl, sym, ap, subst, ◌∙◌, ◌⊎◌, inl, inr, true, false, ◌&&◌,
  none, some, List, [], ◌∷◌, ◌++◌, map, leb, ltb, if◌then◌else◌, ◌>>=?◌, length, leb→le, Bool-cases,
  Option-cases, In, All, All-In, arith,
}
use binary_atlas.Util.Arithmetic.{checked_add, cast_unsigned, size_t}
use binary_atlas.Util.Arithmetic.Exact.{checked_add_lem, cast_size_t, cast_ptrdiff_t}
use binary_atlas.Util.ByteReader.{subspan}
use binary_atlas.Util.ByteReader.Bounds.{IsSpan, subspan-IsSpan}
use binary_atlas.Core.Types.{Address, range_contains}
use binary_atlas.Core.Image.{
  BinaryImage, Extent, section_extent, segment_extent, va_loop, or_else, va_to_file_offset,
  offset_outside, offset_loop, file_offset_to_va, read_at, read_bytes,
}

-- All that translation looks at, in the order in which it does.
abbrev pub extents : BinaryImage → List Extent
extents image = map section_extent image.sections ++ map segment_extent image.segments

-- The fields are 64-bit values, and the file range ends below 2 ^ 64.
pub record IsWordSized (e : Extent) : Type 0 where
  pub starts : e.range.start < 2 ^ 64
  pub ends : e.range.end < 2 ^ 64
  pub file_ends : e.file_offset + e.file_size < 2 ^ 64

-- The extent takes `address` to `offset`.
pub record Translates (e : Extent) (address offset : ℕ) : Type 0 where
  pub above : e.range.start ≤ address
  pub below : address < e.range.end
  pub stored : address - e.range.start < e.file_size
  pub placed : offset ≡ e.file_offset + (address - e.range.start)

-- The offset lies in the extent's part of the file.
pub record Covers (e : Extent) (offset : ℕ) : Type 0 where
  pub above : e.file_offset ≤ offset
  pub below : offset < e.file_offset + e.file_size

va_loop-append :
    (a : Address) (xs ys : List Extent)
    → or_else (va_loop a xs) (va_loop a ys) ≡ or_else (va_loop a (xs ++ ys)) none
unfolding va_loop
va_loop-append a [] ys = elim (Option-cases (va_loop a ys)) [ inl e ↦ rw e | inr (r, e) ↦ rw e ]
va_loop-append a (x ∷ xs) ys = ground (arith, va_loop-append a xs ys)

offset_loop-append :
    (o : ℕ) (xs ys : List Extent)
    → or_else (offset_loop o xs) (offset_loop o ys) ≡ or_else (offset_loop o (xs ++ ys)) none
unfolding offset_loop
offset_loop-append o [] ys = elim (Option-cases (offset_loop o ys)) [
  | inl e ↦ rw e
  | inr (r, e) ↦ rw e
]
offset_loop-append o (x ∷ xs) ys = elim (Bool-cases (offset_outside o x)) [
  | inl e ↦ rw e (offset_loop-append o xs ys)
  | inr e ↦ rw e refl
]

va_loop_sound :
    (a o : ℕ) (es : List Extent)
    → All IsWordSized es
    → or_else (va_loop a es) none ≡ some o
    → (e : Extent) × In e es × Translates e a o
unfolding va_loop
va_loop_sound a o [] w h = cc
va_loop_sound a o (e ∷ es) w h =
    elim (Bool-cases (range_contains e.range a && ltb (a - e.range.start) e.file_size)) [
      | inl hit ↦ (
        e,
        inl refl,
        ground (
          arith,
          checked_add_lem 64 e.file_offset (a - e.range.start),
          cast_size_t (e.file_offset + (a - e.range.start)),
        ),
      )
      | inr miss ↦ let (f, m, t) = va_loop_sound a o es w.1 (ground arith) in (f, inr m, t)
    ]

-- In an image of word-sized ranges, what `vaToFileOffset` returns is the place of the address in a
-- section or segment that holds it and has it in the file.
pub va_to_file_offset_sound :
    (image : BinaryImage) (a o : ℕ)
    → All IsWordSized (extents image)
    → va_to_file_offset image a ≡ some o
    → (e : Extent) × In e (extents image) × Translates e a o
unfolding va_to_file_offset
va_to_file_offset_sound image a o w h = va_loop_sound a o (extents image) w (
    sym (va_loop-append a (map section_extent image.sections) (map segment_extent image.segments))
    ∙ h)

translated :
    (e : Extent) (a o : ℕ)
    → IsWordSized e
    → Translates e a o
    → (range_contains e.range a ≡ true)
      × (ltb (a - e.range.start) e.file_size ≡ true)
      × ((checked_add 64 e.file_offset (a - e.range.start) >>=? cast_unsigned size_t) ≡ some o)
translated e a o w t = (
  ground arith,
  ground arith,
  ground (arith, checked_add_lem 64 e.file_offset (a - e.range.start), cast_size_t o),
)

va_loop-none :
    (a : ℕ) (es : List Extent) (e : Extent) (o : ℕ)
    → All IsWordSized es
    → or_else (va_loop a es) none ≡ none
    → In e es
    → ¬ Translates e a o
unfolding va_loop
va_loop-none a [] e o w h m t = m
va_loop-none a (f ∷ es) e o w h (inl q) t =
    let (inside, stored, hit) = translated f a o w.0 (subst (λ x. Translates x a o) q t) in
    ground arith
va_loop-none a (f ∷ es) e o w h (inr m) t =
    elim (Bool-cases (range_contains f.range a && ltb (a - f.range.start) f.file_size)) [
      | inl hit ↦
          let (inside, stored, found) =
            translated f a (f.file_offset + (a - f.range.start)) w.0 (ground arith) in
          ground arith
      | inr miss ↦ va_loop-none a es e o w.1 (ground arith) m t
    ]

-- In an image of word-sized ranges, `vaToFileOffset` returns an offset for every address that some
-- section or segment holds and has in the file.
pub va_to_file_offset_complete :
    (image : BinaryImage) (a o : ℕ) (e : Extent)
    → All IsWordSized (extents image)
    → In e (extents image)
    → Translates e a o
    → (p : ℕ) × (va_to_file_offset image a ≡ some p)
unfolding va_to_file_offset
va_to_file_offset_complete image a o e w m t = elim (Option-cases (va_to_file_offset image a)) [
  | inl h ↦ absurd (
      va_loop-none a (extents image) e o w
        (sym (
            va_loop-append a (map section_extent image.sections)
              (map segment_extent image.segments))
          ∙ h)
        m t)
  | inr found ↦ found
]

-- Any two extents that hold the same part of the file map it to the same addresses.
abbrev pub Coherent : List Extent → Type 0
Coherent es =
    (e f : Extent) (o : ℕ)
    → In e es
    → In f es
    → Covers e o
    → Covers f o
    → e.range.start + (o - e.file_offset) ≡ f.range.start + (o - f.file_offset)

offset_outside_iff : (o : ℕ) (e : Extent) → IsWordSized e → Covers e o → offset_outside o e ≡ false
offset_outside_iff o e w c = ground (arith, checked_add_lem 64 e.file_offset e.file_size)

offset_inside : (o : ℕ) (e : Extent) → IsWordSized e → offset_outside o e ≡ false → Covers e o
offset_inside o e w c = ground (arith, checked_add_lem 64 e.file_offset e.file_size)

offset_loop_first :
    (o : ℕ) (es : List Extent) (e : Extent)
    → All IsWordSized es
    → In e es
    → Covers e o
    → (f : Extent) × In f es
      × Covers f o
      × (or_else (offset_loop o es) none ≡ checked_add 64 f.range.start (o - f.file_offset))
unfolding offset_loop
offset_loop_first o [] e w m c = absurd m
offset_loop_first o (x ∷ es) e w m c = elim (Bool-cases (offset_outside o x)) [
  | inr hit ↦ (x, inl refl, offset_inside o x w.0 hit, rw hit)
  | inl miss ↦
      let rest : In e es = elim m [
        | inl q ↦ absurd (
            cc (
              offset_outside_iff o e (subst IsWordSized (sym q) w.0) c,
              ap (offset_outside o) q,
              miss,
            ))
        | inr r ↦ r
      ] in
      let (f, n, d, eq) = offset_loop_first o es e w.1 rest c in (f, inr n, d, rw miss eq)
]

-- In an image of word-sized ranges whose file ranges are coherent, `fileOffsetToVa` of what
-- `vaToFileOffset` returns is the address again.
pub file_offset_to_va_va :
    (image : BinaryImage) (a o : ℕ)
    → All IsWordSized (extents image)
    → Coherent (extents image)
    → va_to_file_offset image a ≡ some o
    → file_offset_to_va image o ≡ some a
unfolding file_offset_to_va
file_offset_to_va_va image a o w k h =
    let (e, m, t) = va_to_file_offset_sound image a o w h in
    let es = extents image in
    let we : IsWordSized e = All-In IsWordSized e es w m in
    let ce : Covers e o = omega arith in
    let (f, n, cf, eq) = offset_loop_first o es e w m ce in
    let wf : IsWordSized f = All-In IsWordSized f es w n in
    let agree = k e f o m n ce cf in
    rw (cast_size_t o (omega arith)) (
      offset_loop-append o (map section_extent image.sections) (map segment_extent image.segments)
      ∙ eq
      ∙ ground (arith, checked_add_lem 64 f.range.start (o - f.file_offset)))

pub read_at_lem :
    (image : BinaryImage) (o n : ℕ)
    → n < 2 ^ 64
    → length image.file_bytes < 2 ^ 63
    → read_at image o n
      ≡ (if leb (o + n) (length image.file_bytes) then subspan o n image.file_bytes else [])
unfolding read_at
read_at_lem image o n hn hl =
    let e : o + n - o ≡ n = omega arith in
    ground (arith, e, checked_add_lem 64 o n, cast_ptrdiff_t o, cast_ptrdiff_t (o + n))

-- For a size below 2^64 and a file below 2^63 bytes, `readBytes` returns nothing where the address
-- has no place in the file or the range leaves the file, and otherwise as many bytes as were asked
-- for, those of the file at the translated address.
pub read_bytes_lem :
    (image : BinaryImage) (a n : ℕ)
    → n < 2 ^ 64
    → length image.file_bytes < 2 ^ 63
    → ((va_to_file_offset image a ≡ none) × (read_bytes image a n ≡ []))
      ⊎ ((o : ℕ) × (va_to_file_offset image a ≡ some o)
          × (((length image.file_bytes < o + n) × (read_bytes image a n ≡ []))
              ⊎ IsSpan image.file_bytes o n (read_bytes image a n)))
unfolding read_bytes
read_bytes_lem image a n hn hl = elim (Option-cases (va_to_file_offset image a)) [
  | inl h ↦ inl (h, rw (h, read_bytes) refl)
  | inr (o, h) ↦ elim (Bool-cases (leb (o + n) (length image.file_bytes))) [
    | inl fits ↦
        let e : read_bytes image a n ≡ subspan o n image.file_bytes =
          rw (h, read_bytes) (read_at_lem image o n hn hl ∙ rw fits refl) in
        inr (o, h, inr (rw e (subspan-IsSpan o n image.file_bytes (leb→le _ _ fits))))
    | inr beyond ↦ inr (
      o,
      h,
      inl (
        ground (arith, beyond),
        rw (h, read_bytes) (read_at_lem image o n hn hl ∙ rw beyond refl),
      ),
    )
  ]
]
