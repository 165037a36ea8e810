-- ===== src/Engine/Sound.antt =====
-- Lemmas on `BinaryAtlasEngine::analyze`: what holds of a bundle, from the bytes of the file on.
use binary_atlas.Prelude.{
  ℕ, ◌^◌, ◌<◌, ◌≡◌, refl, sym, ap, subst, ◌∙◌, Option, none, some, List, [], ◌∷◌, length, In, All,
  All-imp, All-In, In_of_get_elem?, get_elem?, ◌>>=?◌, arith, inl, inr,
}
use binary_atlas.Prelude.Text.{Text}
use binary_atlas.Prelude.Sets.{map_find}
use binary_atlas.Util.FileIo.{FileContents, readable}
use binary_atlas.Core.Error.{Result, success, failure, ◌>>=◌}
use binary_atlas.Core.Types.{Address, Section}
use binary_atlas.Core.Image.{BinaryImage}
use binary_atlas.Disasm.Capstone.{Capstone, IsDecoder}
use binary_atlas.Disasm.Instruction.{Instruction}
use binary_atlas.Disasm.Index.{DisassemblyResult, find}
use binary_atlas.Disasm.Index.Invariant.{IsIndexed}
use binary_atlas.Disasm.Sections.{disassemble}
use binary_atlas.Disasm.Sections.Extent.{IsPlaced, disassemble-IsPlaced}
use binary_atlas.Format.ElfTypes.{Elf, IsElf}
use binary_atlas.Format.Parse.{parse_buffer, load}
use binary_atlas.Format.Parse.Opened.{load_cases}
use binary_atlas.Format.Parse.Sound.{parse_buffer-fits}
use binary_atlas.Format.Ranges.Fits.{SectionFits}
use binary_atlas.Analysis.Function.{
  AnalysisOptions, ProgramAnalysis, RecoveredFunction, function_addresses,
}
use binary_atlas.Analysis.Recovery.Analyze.{analyze}
use binary_atlas.Analysis.Recovery.Analyze.Disjoint.{analyze_disjoint}
use binary_atlas.Analysis.Recovery.Analyze.Graphs.{IsClosed, analyze-IsClosed}
use binary_atlas.Analysis.Recovery.Walk.Ends.{IsWalkable}
use binary_atlas.Heuristics.Finding.{HeuristicOptions}
use binary_atlas.Engine.{
  AnalysisBundle, whole, to_bundle, engine_load, analyze_disassembly, analyze_image, engine_analyze,
}

-- The instruction at an address is one of the instructions.
find-In :
    (d : DisassemblyResult) (a : Address) (x : Instruction)
    → find d a ≡ some x
    → In x d.instructions
unfolding find
find-In d a x h = go (map_find a d.address_index) h
  where
    go : (o : Option ℕ) → (o >>=? get_elem? d.instructions) ≡ some x → In x d.instructions
    go none h = absurd (cc h)
    go (some i) h = In_of_get_elem? d.instructions i x h

-- Where every instruction was decoded below 2^64, the functions can be walked.
placed-IsWalkable :
    (image : BinaryImage) (d : DisassemblyResult)
    → IsIndexed d
    → All (λ s. s.range.end < 2 ^ 64) image.sections
    → All (λ x. (s : Section) × In s image.sections × IsPlaced image whole s x) d.instructions
    → IsWalkable d
placed-IsWalkable image d indexed words placed = record {
  indexed = indexed;
  nonempty =
      λ a x h. let (s, m, p) = All-In _ x d.instructions placed (find-In d a x h) in p.nonempty;
  small = λ a x h.
      let (s, m, p) = All-In _ x d.instructions placed (find-In d a x h) in
      let word = All-In (λ (s : Section). s.range.end < 2 ^ 64) s image.sections words m in
      omega (arith, p.below, word);
}

All-of_In : {A : Type 0} (P : A → Type 0) (xs : List A) → ((a : A) → In a xs → P a) → All P xs
All-of_In P [] h = tt
All-of_In P (x ∷ xs) h = (h x (inl refl), All-of_In P xs (λ a m. h a (inr m)))

module _ (c : Capstone) (e : Elf) (contents : FileContents) (path : Text) (o : AnalysisOptions)
    (ho : HeuristicOptions) where
  -- A successful run has gone through its stages.
  pub record Ran (b : AnalysisBundle) : Type 0 where
    pub bytes : List ℕ
    pub opened : contents ≡ readable bytes
    pub parsed : parse_buffer e path bytes ≡ success b.image
    pub disassembled : disassemble c b.image whole ≡ success b.disassembly
    pub analyzed : analyze b.image b.disassembly o ≡ some (success b.analysis)

  load-bytes :
      (image : BinaryImage)
      → load e contents path ≡ some (success image)
      → (bytes : List ℕ) × (contents ≡ readable bytes) × (parse_buffer e path bytes ≡ success image)
  load-bytes image h = elim (load_cases e path contents) [
    | inl (u, q) ↦ absurd (cc (h, q))
    | inr (inl (u, q)) ↦ absurd (cc (h, q))
    | inr (inr (bytes, u, q)) ↦ (bytes, u, cc (h, q))
  ]

  from_analysis :
      (image : BinaryImage) (d : DisassemblyResult) (r : Option (Result ProgramAnalysis))
      (b : AnalysisBundle)
      → analyze image d o ≡ r
      → (r >>=? λ r. some (r >>= λ analysis. success (to_bundle ho image d analysis)))
        ≡ some (success b)
      → (a : ProgramAnalysis) × (analyze image d o ≡ some (success a))
        × (to_bundle ho image d a ≡ b)
  from_analysis image d none b q h = absurd (cc h)
  from_analysis image d (some (failure err)) b q h = absurd (cc h)
  from_analysis image d (some (success a)) b q h = (a, q, ground arith)

  pub engine_analyze-Ran :
      (b : AnalysisBundle) → engine_analyze c e contents path o ho ≡ some (success b) → Ran b
  unfolding engine_analyze engine_load analyze_image analyze_disassembly
  engine_analyze-Ran b h = from_image (load e contents path) refl h
    where
      from_disassembly :
          (image : BinaryImage) (r : Result DisassemblyResult)
          → load e contents path ≡ some (success image)
          → disassemble c image whole ≡ r
          → analyze_disassembly o ho image r ≡ some (success b)
          → Ran b
      from_disassembly image (failure err) loaded q h = absurd (cc h)
      from_disassembly image (success d) loaded q h =
          let (bytes, opened, parsed) = load-bytes image loaded in
          let (a, analyzed, built) = from_analysis image d (analyze image d o) b refl h in
          subst Ran built (record {
            bytes = bytes;
            opened = opened;
            parsed = parsed;
            disassembled = q;
            analyzed = analyzed;
          })

      from_image :
          (r : Option (Result BinaryImage))
          → load e contents path ≡ r
          → (r >>=? analyze_image c o ho) ≡ some (success b)
          → Ran b
      from_image none loaded h = absurd (cc h)
      from_image (some (failure err)) loaded h = absurd (cc h)
      from_image (some (success image)) loaded h =
          from_disassembly image (disassemble c image whole) loaded refl h

  -- From the file to the analysis: for a file below 2^63 bytes and a decoder as documented, a bundle of
  -- `BinaryAtlasEngine::analyze` holds an image of the file's bytes; each instruction was decoded
  -- from those bytes in an executable section; the control flow inside each function is closed; and
  -- no instruction is in two functions. The library's conditions on the image are met by the parser.
  pub engine_analyze_sound :
      (b : AnalysisBundle)
      → IsDecoder c
      → IsElf e
      → length b.image.file_bytes < 2 ^ 63
      → engine_analyze c e contents path o ho ≡ some (success b)
      → (contents ≡ readable b.image.file_bytes)
        × All
            (λ x. (s : Section) × In s b.image.sections × IsPlaced b.image whole s x)
            b.disassembly.instructions
        × All (IsClosed b.disassembly) b.analysis.functions
        × ((f g : RecoveredFunction) (a : Address)
            → In f b.analysis.functions
            → In g b.analysis.functions
            → ¬ (f ≡ g)
            → In a (function_addresses f)
            → ¬ In a (function_addresses g))
  engine_analyze_sound b decoder elf small h =
      let r = engine_analyze-Ran b h in
      let (kept, sections, segments) = parse_buffer-fits e elf path r.bytes b.image r.parsed in
      let words =
        All-imp (SectionFits e (length r.bytes)) (λ (s : Section). s.range.end < 2 ^ 64)
          b.image.sections (λ s v. v.word) sections in
      let (indexed, placed) =
        disassemble-IsPlaced c decoder b.image whole b.disassembly small words r.disassembled in
      let walkable = placed-IsWalkable b.image b.disassembly indexed words placed in
      (
        r.opened ∙ ap readable (sym kept),
        placed,
        All-of_In (IsClosed b.disassembly) b.analysis.functions
            (λ f. analyze-IsClosed b.image b.disassembly o b.analysis f walkable r.analyzed),
        λ f g a. analyze_disjoint b.image b.disassembly o b.analysis f g a walkable r.analyzed,
      )
