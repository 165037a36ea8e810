-- ===== src/Disasm/Buffer/Tiling.antt =====
-- Lemmas on `disassembleBufferInternal`: the loop and where its instructions lie.
use binary_atlas.Prelude.{
  ℕ, zero, suc, ◌+◌, ◌%◌, ◌^◌, ◌≤◌, ◌<◌, ◌≡◌, ◌-◌, refl, sym, ap, ◌∙◌, subst, inl, inr, true,
  Option, List, [], ◌∷◌, ◌++◌, length, take, drop, length-take, length-append, List-cases,
  Option-cases, All, All-imp, arith,
}
use binary_atlas.Prelude.Text.{Text}
use binary_atlas.Util.ByteReader.{subspan}
use binary_atlas.Util.ByteReader.Spans.{take-append_length, drop-append_length}
use binary_atlas.Core.Error.{success}
use binary_atlas.Core.Types.{Address}
use binary_atlas.Core.Image.{BinaryImage}
use binary_atlas.Disasm.Instruction.{Instruction}
use binary_atlas.Disasm.Index.{DisassemblyResult, empty_result, add_instruction, add_all}
use binary_atlas.Disasm.Index.Invariant.{
  IsIndexed, empty_result-IsIndexed, add_all-IsIndexed, instructions-add_all,
}
use binary_atlas.Disasm.Capstone.{Capstone, IsDecoder}
use binary_atlas.Disasm.Decode.{build_instruction, build_invalid_instruction}
use binary_atlas.Disasm.Buffer.{Cursor, decode_step, decode_loop, disassemble_buffer}

-- The instructions stand one behind the other from `a` on, none is empty, and their bytes together
-- are `bs`.
abbrev pub Tiles : Address → List Instruction → List ℕ → Type 0
Tiles a [] bs = bs ≡ []
Tiles a (x ∷ xs) bs =
    (rest : List ℕ) × (x.address ≡ a)
    × (0 < x.size)
    × (x.size ≡ length x.bytes)
    × (bs ≡ x.bytes ++ rest)
    × Tiles ((a + x.size) % 2 ^ 64) xs rest

take-append-drop : (n : ℕ) (xs : List ℕ) → xs ≡ take n xs ++ drop n xs
take-append-drop zero xs = refl
take-append-drop (suc n) [] = refl
take-append-drop (suc n) (x ∷ xs) = ap (◌∷◌ x) (take-append-drop n xs)

-- What one round does: it adds one instruction, whose bytes are what it takes from the code.
record Stepped (name : Text) (s t : Cursor) (x : Instruction) : Type 0 where
  placed : x.address ≡ s.address
  named : x.section_name ≡ name
  nonempty : 0 < x.size
  sized : x.size ≡ length x.bytes
  taken : s.code ≡ x.bytes ++ t.code
  moved : t.address ≡ (s.address + x.size) % 2 ^ 64
  added : t.result ≡ add_instruction s.result x

module _ (c : Capstone) (d : IsDecoder c) (name : Text) (image : Option BinaryImage) where
  decode_step-Stepped :
      (s : Cursor) (byte : ℕ) (rest : List ℕ)
      → s.code ≡ byte ∷ rest
      → (x : Instruction) × Stepped name s (decode_step c name image s byte rest) x
  unfolding decode_step build_instruction build_invalid_instruction
  decode_step-Stepped s byte rest e = elim (Option-cases (c.disasm_iter s.code s.address)) [
    | inl stop ↦ (
      build_invalid_instruction s.address byte name,
      rw (stop, decode_step)
          (record {
            placed = refl;
            named = refl;
            nonempty = omega arith;
            sized = refl;
            taken = e;
            moved = refl;
            added = refl;
          }),
    )
    | inr (i, got) ↦
        let same : i.size % 2 ^ 8 ≡ i.size = omega (arith, d.short s.code s.address i got) in
        let copied : take i.size i.bytes ≡ take i.size s.code = d.copied s.code s.address i got in
        (
          build_instruction c i name image,
          rw (got, decode_step)
              (record {
                placed = d.placed s.code s.address i got;
                named = refl;
                nonempty = omega (arith, d.nonempty s.code s.address i got);
                sized = omega (
                  arith,
                  ap length copied,
                  length-take i.size s.code,
                  d.within s.code s.address i got,
                );
                taken =
                    take-append-drop i.size s.code ∙ ap (λ b. b ++ drop i.size s.code) (sym copied);
                moved = ap (λ n. (s.address + n) % 2 ^ 64) (sym same);
                added = refl;
              }),
        )
  ]

  decode_loop-Tiles :
      (fuel : ℕ) (s : Cursor)
      → length s.code ≤ fuel
      → (new : List Instruction) × Tiles s.address new s.code
        × All (λ x. x.section_name ≡ name) new
        × ((decode_loop c name image fuel s).result ≡ add_all s.result new)
        × ((decode_loop c name image fuel s).code ≡ [])
  unfolding decode_loop add_all
  decode_loop-Tiles zero s h = elim (List-cases s.code) [
    | inl e ↦ ([], e, tt, refl, e)
    | inr (b, rest, e) ↦ absurd (omega (arith, ap length e))
  ]
  decode_loop-Tiles (suc fuel) s h = elim (List-cases s.code) [
    | inl e ↦ ([], e, tt, rw (e, decode_loop) refl, rw (e, decode_loop) e)
    | inr (b, rest, e) ↦
        let (x, t) = decode_step-Stepped s b rest e in
        let next = decode_step c name image s b rest in
        let (new, tiles, named, result, code) = decode_loop-Tiles fuel next (
          omega (arith, ap length t.taken, length-append x.bytes next.code, t.nonempty, t.sized)) in
        (
          x ∷ new,
          (
            next.code,
            t.placed,
            t.nonempty,
            t.sized,
            t.taken,
            subst (λ a. Tiles a new next.code) t.moved tiles,
          ),
          (t.named, named),
          rw (e, decode_loop) (result ∙ ap (λ r. add_all r new) t.added),
          rw (e, decode_loop) code,
        )
  ]

  opened :
      (bytes : List ℕ) (base : Address) (r : DisassemblyResult)
      → disassemble_buffer c bytes base name image ≡ success r
      → (c.opens ≡ true) × (c.allocates ≡ true)
  unfolding disassemble_buffer
  opened bytes base r h = ground arith

  -- The decoding of a buffer stops at its end, whatever it holds. Where Capstone opens, the result
  -- is indexed, and its instructions stand one behind the other from the base address on; their
  -- bytes, valid and invalid, are the buffer's, each once and in order.
  pub disassemble_buffer-Tiles :
      (bytes : List ℕ) (base : Address)
      → c.opens ≡ true
      → c.allocates ≡ true
      → (r : DisassemblyResult) × (disassemble_buffer c bytes base name image ≡ success r)
        × IsIndexed r
        × Tiles base r.instructions bytes
        × All (λ x. x.section_name ≡ name) r.instructions
  unfolding disassemble_buffer
  disassemble_buffer-Tiles bytes base opens allocates =
      let s : Cursor = record { code = bytes; address = base; result = empty_result } in
      let (new, tiles, named, result, code) = decode_loop-Tiles (length bytes) s (omega arith) in
      let same : (decode_loop c name image (length bytes) s).result.instructions ≡ new =
        ap (λ (r : DisassemblyResult). r.instructions) result
        ∙ instructions-add_all empty_result new in
      (
        (decode_loop c name image (length bytes) s).result,
        rw (opens, allocates) refl,
        subst IsIndexed (sym result) (add_all-IsIndexed empty_result new empty_result-IsIndexed),
        subst (λ xs. Tiles base xs bytes) (sym same) tiles,
        subst (All (λ x. x.section_name ≡ name)) (sym same) named,
      )

  -- So what it returns has these properties.
  pub disassemble_buffer_success :
      (bytes : List ℕ) (base : Address) (r : DisassemblyResult)
      → disassemble_buffer c bytes base name image ≡ success r
      → IsIndexed r
        × Tiles base r.instructions bytes
        × All (λ x. x.section_name ≡ name) r.instructions
  disassemble_buffer_success bytes base r h =
      let (opens, allocates) = opened bytes base r h in
      let (q, e, indexed, tiles, named) = disassemble_buffer-Tiles bytes base opens allocates in
      let same : q ≡ r = cc in
      (
        subst IsIndexed same indexed,
        subst (λ (p : DisassemblyResult). Tiles base p.instructions bytes) same tiles,
        subst (λ (p : DisassemblyResult). All (λ x. x.section_name ≡ name) p.instructions) same
            named,
      )

-- An instruction that was decoded from `bs`, which stand at `a`.
pub record IsCut (a : Address) (bs : List ℕ) (x : Instruction) : Type 0 where
  pub above : a ≤ x.address
  pub below : x.address + x.size ≤ a + length bs
  pub nonempty : 0 < x.size
  pub copied : x.bytes ≡ subspan (x.address - a) x.size bs

-- The same in front of more bytes.
IsCut-behind :
    (a : Address) (front rest bs : List ℕ) (x : Instruction)
    → bs ≡ front ++ rest
    → IsCut (a + length front) rest x
    → IsCut a bs x
IsCut-behind a front rest bs x taken v =
    let whole : length bs ≡ length front + length rest =
      omega (arith, ap length taken, length-append front rest) in
    record {
      above = omega (arith, v.above);
      below = omega (arith, v.below, whole);
      nonempty = v.nonempty;
      copied =
          v.copied
          ∙ ap (take x.size) (
              sym (
                drop-append_length front rest (x.address - (a + length front)) (x.address - a)
                  (omega (arith, v.above))))
          ∙ ap (λ l. take x.size (drop (x.address - a) l)) (sym taken);
    }

pub Tiles-IsCut :
    (a : Address) (xs : List Instruction) (bs : List ℕ)
    → Tiles a xs bs
    → a + length bs < 2 ^ 64
    → All (IsCut a bs) xs
Tiles-IsCut a [] bs t h = tt
Tiles-IsCut a (x ∷ xs) bs (rest, placed, nonempty, sized, taken, tiles) h =
    let whole : length bs ≡ x.size + length rest =
      omega (arith, ap length taken, length-append x.bytes rest) in
    let next : (a + x.size) % 2 ^ 64 ≡ a + length x.bytes = omega arith in
    let offset : x.address - a ≡ 0 = omega arith in
    (
      record {
        above = omega arith;
        below = omega arith;
        nonempty = nonempty;
        copied =
            sym (take-append_length x.bytes rest)
            ∙ ap (λ l. take (length x.bytes) l) (sym taken)
            ∙ ap (λ n. take n bs) (sym sized)
            ∙ ap (λ n. take x.size (drop n bs)) (sym offset);
      },
      All-imp (IsCut (a + length x.bytes) rest) (IsCut a bs) xs
          (λ y. IsCut-behind a x.bytes rest bs y taken)
          (Tiles-IsCut (a + length x.bytes) xs rest (subst (λ b. Tiles b xs rest) next tiles)
            (omega arith)),
    )
