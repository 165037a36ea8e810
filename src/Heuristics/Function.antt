-- ===== src/Heuristics/Function.antt =====
-- src/heuristics/detector.cpp: `functionTextFeatures`, `isRuntimeSupportFunction`,
-- `hasIndirectDispatchShape` and `unresolvedIndirectJumpCount`.
use binary_atlas.Prelude.{
  ℕ, ◌+◌, Bool, true, false, not, ◌&&◌, ◌||◌, Option, none, some, List, [], ◌∷◌, ◌++◌, ◌==◌, leb,
  map, count_if, if◌then◌else◌,
}
use binary_atlas.Prelude.Text.{Text, lit, str_eq}
use binary_atlas.Util.Strings.{find_text, icontains}
use binary_atlas.Core.Types.{BlockEdgeType}
use binary_atlas.Disasm.Index.{DisassemblyResult, find}
use binary_atlas.Disasm.Instruction.{Instruction}
use binary_atlas.Analysis.Function.{BlockEdge, BasicBlock, CallSite, RecoveredFunction}

unfoldable pub function_text_features : RecoveredFunction → List Text
function_text_features f =
    f.name ∷ (f.referenced_strings ++ map (λ (c : CallSite). c.operand_text) f.call_sites)

unfoldable pub is_runtime_support_function : Text → Bool
unfolding str_eq
is_runtime_support_function name =
    str_eq name (lit "_init")
    || str_eq name (lit "_start")
    || str_eq name (lit "_fini")
    || str_eq name (lit "deregister_tm_clones")
    || str_eq name (lit "register_tm_clones")
    || str_eq name (lit "frame_dummy")
    || str_eq name (lit "__do_global_dtors_aux")

-- A memory operand that is not relative to the instruction pointer.
abbrev pub is_memory_call : CallSite → Bool
is_memory_call site =
    find_text (lit "[") site.operand_text && not (icontains site.operand_text (lit "rip"))

-- The first loop returns true at such a call site, after which the count is not read.
unfoldable pub has_memory_call : List CallSite → Bool
unfolding find_text icontains
has_memory_call [] = false
has_memory_call (site ∷ sites) =
    let rest = has_memory_call sites in
    if not site.indirect then rest else if is_memory_call site then true else rest

abbrev pub indirect_count : List CallSite → ℕ
indirect_count sites = count_if (λ (s : CallSite). s.indirect) sites

abbrev pub is_vtable_like : Option Instruction → Bool
is_vtable_like none = false
is_vtable_like (some i) =
    find_text (lit "qword ptr [") i.operand_text && not (icontains i.operand_text (lit "rip"))

unfoldable pub vtable_like_loads : DisassemblyResult → List BasicBlock → ℕ
unfolding find find_text icontains
vtable_like_loads d [] = 0
vtable_like_loads d (b ∷ bs) =
    count_if (λ a. is_vtable_like (find d a)) b.instruction_addresses + vtable_like_loads d bs

unfoldable pub has_indirect_dispatch_shape : RecoveredFunction → DisassemblyResult → Bool
unfolding has_memory_call is_runtime_support_function vtable_like_loads
has_indirect_dispatch_shape f d =
    if has_memory_call f.call_sites
    then true
    else if indirect_count f.call_sites == 0 || is_runtime_support_function f.name
    then false
    else leb 2 (vtable_like_loads d f.blocks)

abbrev pub is_unresolved : BlockEdgeType → Bool
is_unresolved BlockEdgeType.unresolved_indirect = true
is_unresolved _ = false

unfoldable pub unresolved_indirect_jump_count : List BasicBlock → ℕ
unresolved_indirect_jump_count [] = 0
unresolved_indirect_jump_count (b ∷ bs) =
    count_if (λ (e : BlockEdge). is_unresolved e.type) b.outgoing_edges
    + unresolved_indirect_jump_count bs
