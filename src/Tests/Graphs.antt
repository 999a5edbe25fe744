-- ===== src/Tests/Graphs.antt =====
-- Runs of the construction of control-flow graphs.
use droidsaw_hermes.Prelude.{ℕ, ◌≡◌, ◌↔◌, refl, true, List, [], ◌∷◌, arith}
use droidsaw_hermes.Prelude.Sets.{count, contains, set_insert}
use droidsaw_hermes.Errors.{HermesError, Result, ok, err, invalid_exception_handler_target}
use droidsaw_hermes.Decode.{DecodedInst, OpType, Operand, pos}
use droidsaw_hermes.Decode.Control.{
  checked_add_signed, branch_target, is_jump, is_conditional_branch, is_unconditional_jump,
  is_return, is_throw, is_terminator,
}
use droidsaw_hermes.Cfg.{
  Cfg, ExcHandler, BasicBlock, inst_next_offset, string_table, jump_table, string_cases,
  switch_cases,
}
use droidsaw_hermes.Cfg.Boundaries.{
  boundaries, boundaries_loop, inst_boundaries, switch_boundaries, insert_strings, insert_cases,
  handler_boundaries,
}
use droidsaw_hermes.Cfg.Blocks.{
  split_blocks, split_loop, finish_last, finish_previous, collect, insert_block,
}
use droidsaw_hermes.Cfg.Blocks.Runs.{Cut, instructions_of, Consecutive}
use droidsaw_hermes.Cfg.Edges.{
  ids_of, add_edges, add_successors, with_edges, successors_of, push_target, push_case, push_cases,
  edges, edges_from, push_predecessor, push_predecessors,
}
use droidsaw_hermes.Cfg.Edges.Mirror.{predecessors_at}
use droidsaw_hermes.Cfg.Edges.Closed.{AllIn}
use droidsaw_hermes.Cfg.Handlers.{map_handlers, set_handler, exc_predecessors_loop, push_at}
use droidsaw_hermes.Cfg.Handlers.Regions.{ValidTargets, caught_by}
use droidsaw_hermes.Cfg.Order.{
  successors_at, search, search_loop, visit, push_unvisited, unvisited, reverse_post_order,
  index_of,
}
use droidsaw_hermes.Cfg.Order.Reach.{Reach, search-Reach}
use droidsaw_hermes.Cfg.Build.{build, finish, check_layout}
use droidsaw_hermes.Cfg.Build.Layout.{LaidOut}
use droidsaw_hermes.Cfg.Build.Catches.{RegionHandlers}
use droidsaw_hermes.Cfg.Build.WellFormed.{build-Cut, build-Mirrored, build-order, build-Catches}
use droidsaw_hermes.Cfg.Build.Refused.{Refusal, build-Refusal}

abbrev inst : ℕ → ℕ → DecodedInst ℕ
inst at n = record {
  offset = at;
  size = n;
  opcode = 0;
  name = "Mov";
  op = 0;
  operands = [];
  op_types = [];
}

abbrev jump : ℕ → ℕ → DecodedInst ℕ
jump at n = record {
  offset = at;
  size = 2;
  opcode = 1;
  name = "JmpTrue";
  op = 0;
  operands = Operand.addr (pos n) ∷ [];
  op_types = OpType.a1 ∷ [];
}

abbrev ret : ℕ → DecodedInst ℕ
ret at = record {
  offset = at;
  size = 2;
  opcode = 2;
  name = "Ret";
  op = 0;
  operands = [];
  op_types = [];
}

-- A conditional branch over a move, a return, and a catch block.
abbrev rest : List (DecodedInst ℕ)
rest = jump 3 5 ∷ inst 5 3 ∷ ret 8 ∷ ret 10 ∷ []

abbrev region : ℕ → List ExcHandler
region target = record { start = 5; end = 8; target = target } ∷ []

abbrev graph_or : Result HermesError (Cfg ℕ) → Cfg ℕ
graph_or (ok c) = c
graph_or (err e) = record { blocks = []; entry = 9; block_order = []; exc_predecessors = λ _. [] }

abbrev graph : Cfg ℕ
graph = graph_or (build (inst 0 3 ∷ rest) (region 10) [])

abbrev succs : List (BasicBlock ℕ) → List (ℕ × List ℕ × List ℕ)
succs [] = []
succs (b ∷ bs) = (b.id, b.successors, b.predecessors) ∷ succs bs

built : build (inst 0 3 ∷ rest) (region 10) [] ≡ ok graph
unfolding build finish check_layout boundaries boundaries_loop inst_boundaries switch_boundaries
    insert_strings insert_cases handler_boundaries split_blocks split_loop finish_last
    finish_previous collect insert_block add_edges add_successors with_edges successors_of
    push_target push_case push_cases edges edges_from push_predecessor push_predecessors
    map_handlers set_handler exc_predecessors_loop push_at successors_at search search_loop visit
    push_unvisited unvisited reverse_post_order index_of count contains set_insert
    checked_add_signed branch_target is_jump is_conditional_branch is_unconditional_jump is_return
    is_throw is_terminator inst_next_offset string_table jump_table string_cases switch_cases
built = refl

graph_edges :
    succs graph.blocks
    ≡ (0, 8 ∷ 5 ∷ [], []) ∷ (5, 8 ∷ [], 0 ∷ []) ∷ (8, [], 0 ∷ 5 ∷ []) ∷ (10, [], []) ∷ []
unfolding build finish check_layout boundaries boundaries_loop inst_boundaries switch_boundaries
    insert_strings insert_cases handler_boundaries split_blocks split_loop finish_last
    finish_previous collect insert_block add_edges add_successors with_edges successors_of
    push_target push_case push_cases edges edges_from push_predecessor push_predecessors
    map_handlers set_handler exc_predecessors_loop push_at successors_at search search_loop visit
    push_unvisited unvisited reverse_post_order index_of count contains set_insert
    checked_add_signed branch_target is_jump is_conditional_branch is_unconditional_jump is_return
    is_throw is_terminator inst_next_offset string_table jump_table string_cases switch_cases
graph_edges = refl

follows : Consecutive 0 (inst 0 3 ∷ rest) 12
follows = omega arith

build-Cut_example :
    (starts : List ℕ) × (boundaries (inst 0 3 ∷ rest) (region 10) [] ≡ ok starts)
    × Cut starts 0 graph.blocks 12
    × (instructions_of graph.blocks ≡ inst 0 3 ∷ rest)
build-Cut_example = build-Cut (inst 0 3) rest (region 10) [] 12 (omega arith) follows graph built

build-Mirrored_example :
    AllIn (ids_of graph.blocks) (successors_at graph.blocks 5)
    × (count 5 (predecessors_at graph.blocks 8) ≡ count 8 (successors_at graph.blocks 5))
build-Mirrored_example =
    build-Mirrored (inst 0 3) rest (region 10) [] 12 (omega arith) follows graph built 5 8

build-order_example :
    (count 8 graph.block_order ≡ count 8 (ids_of graph.blocks))
    × (graph.entry ≡ 0)
    × (tail : List ℕ) × (graph.block_order ≡ 0 ∷ tail)
build-order_example =
    build-order (inst 0 3) rest (region 10) [] 12 (omega arith) follows graph built 8

build-Catches_example :
    ValidTargets (ids_of graph.blocks) (region 10)
    × RegionHandlers (region 10) graph.blocks
    × LaidOut graph.block_order graph.blocks
    × (graph.exc_predecessors 10 ≡ caught_by 10 graph.blocks)
build-Catches_example =
    build-Catches (inst 0 3) rest (region 10) [] 12 (omega arith) follows graph built 10

search-Reach_example :
    ((search graph.blocks 0).stack ≡ [])
    × ((contains (search graph.blocks 0).post 8 ≡ true) ↔ Reach graph.blocks 0 8)
search-Reach_example = search-Reach graph.blocks 0 8

-- No block starts at 9.
refused : build (inst 0 3 ∷ rest) (region 9) [] ≡ err (invalid_exception_handler_target 9)
unfolding build finish check_layout boundaries boundaries_loop inst_boundaries switch_boundaries
    insert_strings insert_cases handler_boundaries split_blocks split_loop finish_last
    finish_previous collect insert_block add_edges add_successors with_edges successors_of
    push_target push_case push_cases edges edges_from push_predecessor push_predecessors
    map_handlers set_handler count contains set_insert checked_add_signed branch_target is_jump
    is_conditional_branch is_unconditional_jump is_return is_throw is_terminator inst_next_offset
    string_table jump_table string_cases switch_cases
refused = refl

build-Refusal_example :
    (starts : List ℕ) × (blocks : List (BasicBlock ℕ)) × (boundaries (inst 0 3 ∷ rest) (region 9) []
      ≡ ok starts)
    × Cut starts 0 blocks 12
    × (instructions_of blocks ≡ inst 0 3 ∷ rest)
    × Refusal (region 9) [] (invalid_exception_handler_target 9) blocks
build-Refusal_example =
    build-Refusal (inst 0 3) rest (region 9) [] 12 (omega arith) follows
      (invalid_exception_handler_target 9) refused
