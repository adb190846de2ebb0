-- ===== src/Vm/Locate.antt =====
-- `au_vm_locate_error` of src/core/vm/exception.c on the map that src/core/parser/impl/stmt.c
-- writes: one entry for each statement, from its first byte of code to the byte after its last.
use aument.Prelude.{ℕ, ◌≤◌, ◌≡◌, refl, arith, false, List, [], ◌∷◌, ◌++◌, leb, ◌==◌, ◌&&◌}
use aument.Vm.{SourceMap, locate_error}

-- The entry of another function, or one that does not reach the position.
abbrev pub Misses : ℕ → ℕ → SourceMap → Type 0
Misses pc func m = ((m.func_idx == func) && (leb m.bc_from pc && leb pc m.bc_to)) ≡ false

abbrev pub AllMiss : ℕ → ℕ → List SourceMap → Type 0
AllMiss pc func [] = Unit {0}
AllMiss pc func (m ∷ ms) = Misses pc func m × AllMiss pc func ms

skip_misses :
    (pc func : ℕ) (before rest : List SourceMap)
    → AllMiss pc func before
    → locate_error pc func (before ++ rest) ≡ locate_error pc func rest
unfolding locate_error
skip_misses pc func [] rest h = refl
skip_misses pc func (m ∷ before) rest h = rw h.0 (skip_misses pc func before rest h.1)

locate_error-AllMiss :
    (pc func : ℕ) (ms : List SourceMap) → AllMiss pc func ms → locate_error pc func ms ≡ 0
unfolding locate_error
locate_error-AllMiss pc func [] h = refl
locate_error-AllMiss pc func (m ∷ ms) h = rw h.0 (locate_error-AllMiss pc func ms h.1)

-- The first entry of the function that holds the position, both ends included, gives the
-- location; where no entry holds it, the location is 0.
pub locate_error-first :
    (pc func : ℕ) (before after : List SourceMap) (m : SourceMap)
    → AllMiss pc func before
    → m.func_idx ≡ func
    → m.bc_from ≤ pc
    → pc ≤ m.bc_to
    → (locate_error pc func (before ++ (m ∷ after)) ≡ m.source_start)
      × (locate_error pc func before ≡ 0)
unfolding locate_error
locate_error-first pc func before after m miss f lo hi = (
  rw (skip_misses pc func before _ miss) (ground arith),
  locate_error-AllMiss pc func before miss,
)

-- An error at the first instruction of a statement that follows another in one function is
-- reported at the statement before it: the end of an entry, which is exclusive where the entry is
-- written, is read as inclusive.
pub locate_error_boundary :
    (func a b c s t : ℕ) (before after : List SourceMap)
    → a ≤ b
    → AllMiss b func before
    → locate_error b func (
        before
        ++ (record { bc_from = a; bc_to = b; source_start = s; func_idx = func }
            ∷ record { bc_from = b; bc_to = c; source_start = t; func_idx = func }
            ∷ after))
      ≡ s
locate_error_boundary func a b c s t before after h miss =
    (locate_error-first b func before _ _ miss refl h (omega arith)).0
