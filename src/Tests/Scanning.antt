-- ===== src/Tests/Scanning.antt =====
-- Runs of the cross-reference scanner.
use droidsaw_hermes.Prelude.{◌≡◌, refl, true, [], ◌∷◌, ◌==◌, if◌then◌else◌}
use droidsaw_hermes.Scanner.{
  Input, ScanMode, push_new, add_ref, operand_below, lookup_op, closure_op, read_operand, scan_inst,
  scan_code, scan_function, scan_functions, scan_parsed_with_mode,
}
use droidsaw_hermes.Scanner.References.{Sound, scan_parsed_with_mode-Sound}

-- Opcode 0 loads a string, opcode 1 creates a closure, opcode 2 calls; function 1 is unrecognized.
abbrev demo : Input
demo = record {
  sizes = 2 ∷ 5 ∷ 2 ∷ [];
  str_ops = (0, 1, 1) ∷ [];
  call_ops = (2, 1, 1) ∷ [];
  names = "LoadConstString" ∷ "CreateClosure" ∷ "CallDirect" ∷ [];
  file_data = 0 ∷ 3 ∷ 0 ∷ 3 ∷ 1 ∷ 7 ∷ 7 ∷ 2 ∷ 0 ∷ 0 ∷ 3 ∷ 0 ∷ 9 ∷ 2 ∷ 1 ∷ [];
  string_count = 4;
  function_count = 3;
  is_function_unrecognized = λ fi. fi == 1;
  function_get = λ fi. if fi == 2 then (9, 6) else (0, 9);
}

abbrev both : ScanMode
both = record { xrefs = true; callgraph = true }

strings_found : (scan_parsed_with_mode demo both).string_refs 3 ≡ 0 ∷ 2 ∷ []
unfolding scan_parsed_with_mode scan_functions scan_function scan_code scan_inst lookup_op
    closure_op operand_below read_operand add_ref push_new
strings_found = refl

unknown_string : (scan_parsed_with_mode demo both).string_refs 9 ≡ []
unfolding scan_parsed_with_mode scan_functions scan_function scan_code scan_inst lookup_op
    closure_op operand_below read_operand add_ref push_new
unknown_string = refl

closures_found : (scan_parsed_with_mode demo both).closure_refs 0 ≡ 2 ∷ []
unfolding scan_parsed_with_mode scan_functions scan_function scan_code scan_inst lookup_op
    closure_op operand_below read_operand add_ref push_new
closures_found = refl

calls_found : (scan_parsed_with_mode demo both).call_graph 2 ≡ 1 ∷ []
unfolding scan_parsed_with_mode scan_functions scan_function scan_code scan_inst lookup_op
    closure_op operand_below read_operand add_ref push_new
calls_found = refl

scan_parsed_with_mode-Sound_example : Sound demo both 3 (scan_parsed_with_mode demo both)
scan_parsed_with_mode-Sound_example = scan_parsed_with_mode-Sound demo both
