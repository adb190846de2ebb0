-- ===== src/Tests/Machine.antt =====
-- The virtual machine of src/core/vm/vm.c at concrete inputs.
use aument.Prelude.{ℕ, ◌≡◌, List, [], ◌∷◌, ◌++◌, arith}
use aument.Tests.Values.{natural_float}
use aument.Value.{Value}
use aument.Vm.{Insn, Program, Machine, SourceMap, locate_error}
use aument.Vm.Opcode.{mov_u16, bin_int, arith_op, add, ret}
use aument.Vm.Step.{run}
use aument.Vm.Reference.{erase, ref_run}
use aument.Vm.Refines.{run-ref_run}
use aument.Vm.Locate.{locate_error_boundary}

abbrev pub no_data : Program ℕ
no_data = record {
  data_val = [];
  data_buf = [];
  tl_constant_start = 0;
  source_map = [];
  func_idx = 0;
}

abbrev pub fresh : Machine ℕ
fresh = record {
  regs = Value.none ∷ (Value.none ∷ []);
  locals = [];
  pc = 0;
  const_cache = [];
  printed = [];
}

-- r0 = 2; r1 = 3; r0 = r0 + r1, specialised; return r0
abbrev sum_code : List Insn
sum_code =
    record { op = mov_u16; a = 0; b = 2; c = 0 }
    ∷ (record { op = mov_u16; a = 1; b = 3; c = 0 }
        ∷ (record { op = bin_int (arith_op add); a = 0; b = 1; c = 0 }
            ∷ (record { op = ret; a = 0; b = 0; c = 0 } ∷ [])))

run-ref_run_example :
    run natural_float no_data 10 sum_code fresh
    ≡ ref_run natural_float no_data 10 (erase sum_code) fresh
run-ref_run_example = run-ref_run natural_float no_data 10 sum_code fresh

abbrev entry : ℕ → ℕ → ℕ → SourceMap
entry from to start = record { bc_from = from; bc_to = to; source_start = start; func_idx = 1 }

locate_error_boundary_example :
    locate_error 8 1 ([] ++ (entry 0 8 100 ∷ (entry 8 16 200 ∷ []))) ≡ 100
locate_error_boundary_example = locate_error_boundary 1 0 8 16 100 200 [] [] (omega arith) tt
