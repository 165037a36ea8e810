-- ===== src/Analysis/Recovery/Seeds.antt =====
-- Where functions may begin: `collectSeeds` and the helpers above and below it.
pub mod Valid
pub mod Best
use binary_atlas.Prelude.{
  ℕ, ◌+◌, Bool, true, false, not, ◌&&◌, ◌||◌, Option, none, some, List, [], ◌∷◌, ◌++◌,
  if◌then◌else◌, value_or, is_some, is_none, is_empty, ltb, ◌==◌, drop, ◌>>=?◌,
}
use binary_atlas.Prelude.Sets.{insert, map_find, map_put, map_emplace, upper_bound}
use binary_atlas.Prelude.Sort.{sort_by}
use binary_atlas.Prelude.Text.{Text, lit, str_eq, str_lt}
use binary_atlas.Util.Strings.{format_hex}
use binary_atlas.Core.Types.{Address, BinaryMetadata, InstructionFlowKind, Symbol, SymbolType}
use binary_atlas.Core.Image.{BinaryImage, is_executable_address}
use binary_atlas.Disasm.Instruction.{Instruction}
use binary_atlas.Disasm.Index.{DisassemblyResult, find}
use binary_atlas.Analysis.Function.{FunctionSeed}

pub record SeedRecord : Type 0 where
  pub seed : FunctionSeed
  pub priority : ℕ
  pub hard_boundary : Bool

abbrev pub is_function_type : SymbolType → Bool
is_function_type SymbolType.function = true
is_function_type _ = false

unfoldable pub is_function_symbol : Symbol → Bool
is_function_symbol symbol =
    symbol.defined && is_function_type symbol.type && not (symbol.address == 0)

unfoldable pub generated_function_name : Address → Text
generated_function_name address = lit "sub_" ++ drop 2 (format_hex address)

unfoldable pub next_instruction : DisassemblyResult → Address → Option Instruction
next_instruction d address = upper_bound address d.address_index >>=? λ entry. find d entry.0

-- The key in front of `lower_bound(address)`: none where that is the first entry, or the end.
unfoldable pub previous_key : Option Address → Address → List (Address × ℕ) → Option Address
previous_key before address [] = none
previous_key before address ((k, i) ∷ m) =
    let rest = previous_key (some k) address m in if ltb k address then rest else before

unfoldable pub previous_instruction : DisassemblyResult → Address → Option Instruction
unfolding previous_key
previous_instruction d address = previous_key none address d.address_index >>=? find d

abbrev pub is_stop : InstructionFlowKind → Bool
is_stop InstructionFlowKind.return_flow = true
is_stop InstructionFlowKind.trap = true
is_stop InstructionFlowKind.invalid = true
is_stop _ = false

unfoldable pub is_boundary_like : Option Instruction → Bool
is_boundary_like none = true
is_boundary_like (some i) =
    is_stop i.flow_kind || str_eq i.mnemonic (lit "int3") || str_eq i.mnemonic (lit "nop")

abbrev pub is_op : Text → Text → Instruction → Bool
is_op mnemonic operands i = str_eq i.mnemonic mnemonic && str_eq i.operand_text operands

unfoldable pub matches_frame_prologue :
    Option Instruction → Option Instruction → Option Instruction → Bool
matches_frame_prologue none second third = false
matches_frame_prologue (some first) none third = false
matches_frame_prologue (some first) (some second) third =
    (is_op (lit "push") (lit "rbp") first && is_op (lit "mov") (lit "rbp, rsp") second)
    || (str_eq first.mnemonic (lit "endbr64")
        && is_op (lit "push") (lit "rbp") second
        && elim third [ none ↦ false | some t ↦ is_op (lit "mov") (lit "rbp, rsp") t ])

abbrev pub SeedMap : Type 0
SeedMap = List (Address × List SeedRecord)

module _ (image : BinaryImage) (d : DisassemblyResult) where
  -- The lambda `add_seed`.
  unfoldable pub add_seed : Address → Text → Text → ℕ → ℕ → Bool → SeedMap → SeedMap
  unfolding map_put
  add_seed address source label confidence priority hard_boundary m =
      if not (is_executable_address image address) || is_none (find d address)
      then m
      else map_put address
          (value_or (map_find address m) []
            ++ record {
              seed = record {
                address = address;
                source = source;
                label = label;
                confidence = confidence;
              };
              priority = priority;
              hard_boundary = hard_boundary;
            }
              ∷ [])
          m

  unfoldable pub add_symbol_seeds : List Symbol → SeedMap → SeedMap
  unfolding add_seed is_function_symbol
  add_symbol_seeds [] m = m
  add_symbol_seeds (s ∷ ss) m =
      add_symbol_seeds ss
        (if is_function_symbol s then add_seed s.address (lit "symbol") s.name 98 1 true m else m)

  abbrev pub call_target : Instruction → Option Address
  call_target i = elim i.flow_kind [ InstructionFlowKind.call_direct ↦ i.branch_target | _ ↦ none ]

  unfoldable pub add_call_seeds : List Instruction → SeedMap → SeedMap
  unfolding add_seed generated_function_name
  add_call_seeds [] m = m
  add_call_seeds (i ∷ is) m = add_call_seeds is (elim (call_target i) [
    | none ↦ m
    | some t ↦ add_seed t (lit "call_target") (generated_function_name t) 70 2 false m
  ])

  -- The test of the loop over the prologues.
  unfoldable pub is_prologue : Instruction → Bool
  unfolding next_instruction previous_instruction matches_frame_prologue is_boundary_like
  is_prologue i =
      let second = next_instruction d i.address in
      let third = second >>=? λ s. next_instruction d s.address in
      matches_frame_prologue (some i) second third
      && is_boundary_like (previous_instruction d i.address)

  unfoldable pub add_prologue_seeds : List Instruction → SeedMap → SeedMap
  unfolding add_seed is_prologue generated_function_name
  add_prologue_seeds [] m = m
  add_prologue_seeds (i ∷ is) m = add_prologue_seeds is (
      if is_prologue i
      then add_seed i.address (lit "prologue") (generated_function_name i.address) 55 3 false m
      else m)

  -- The map of `collectSeeds` when all seeds are added.
  unfoldable pub seeds_by_address : Bool → SeedMap
  unfolding add_symbol_seeds add_call_seeds add_prologue_seeds
  seeds_by_address enable_prologue_heuristics =
      let entry =
        add_seed image.metadata.entry_point (lit "entry_point") (lit "_start") 100 0 true [] in
      let called = add_call_seeds d.instructions (add_symbol_seeds image.symbols entry) in
      if enable_prologue_heuristics then add_prologue_seeds d.instructions called else called

-- The comparators of the two sorts.
unfoldable pub record_less : SeedRecord → SeedRecord → Bool
record_less left right =
    if left.priority == right.priority
    then str_lt left.seed.label right.seed.label
    else ltb left.priority right.priority

unfoldable pub seed_less : SeedRecord → SeedRecord → Bool
seed_less left right =
    if left.priority == right.priority
    then ltb left.seed.address right.seed.address
    else ltb left.priority right.priority

abbrev pub front_record : List SeedRecord → Option SeedRecord
front_record [] = none
front_record (r ∷ rs) = some r

abbrev pub keep_front : Option SeedRecord → List SeedRecord → List SeedRecord
keep_front none rest = rest
keep_front (some r) rest = r ∷ rest

-- The first record of each address.
unfoldable pub best_records : SeedMap → List SeedRecord
unfolding record_less
best_records [] = []
best_records ((address, records) ∷ m) =
    keep_front (front_record (sort_by record_less records)) (best_records m)

unfoldable pub collect_seeds : BinaryImage → DisassemblyResult → Bool → List SeedRecord
unfolding seeds_by_address best_records seed_less
collect_seeds image d enable_prologue_heuristics =
    sort_by seed_less (best_records (seeds_by_address image d enable_prologue_heuristics))

unfoldable pub seed_reason_map :
    List SeedRecord → List (Address × List FunctionSeed) → List (Address × List FunctionSeed)
unfolding map_put
seed_reason_map [] reasons = reasons
seed_reason_map (r ∷ rs) reasons =
    seed_reason_map rs (
      map_put r.seed.address (value_or (map_find r.seed.address reasons) [] ++ r.seed ∷ []) reasons)

unfoldable pub function_symbol_names : List Symbol → List (Address × Text) → List (Address × Text)
unfolding map_emplace is_function_symbol
function_symbol_names [] names = names
function_symbol_names (s ∷ ss) names = function_symbol_names ss (
    if is_function_symbol s && not (is_empty s.name) && not (is_some (map_find s.address names))
    then map_emplace s.address s.name names
    else names)

unfoldable pub resolve_function_name : Address → List (Address × Text) → BinaryMetadata → Text
unfolding generated_function_name
resolve_function_name entry symbol_names metadata = elim (map_find entry symbol_names) [
  | some name ↦ name
  | none ↦ if entry == metadata.entry_point then lit "_start" else generated_function_name entry
]
