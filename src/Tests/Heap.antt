-- ===== src/Tests/Heap.antt =====
-- The collector of src/core/rt/malloc/gc.c at concrete inputs.
use aument.Prelude.{ℕ, ◌+◌, ◌≡◌, ◌⊎◌, refl, true, false, none, some, List, [], ◌∷◌, arith}
use aument.Rt.Heap.{
  Ref, Obj, Malloc, Frame, malloc_init, collect, found, update, mark, mark_at, mark_frames, unmark,
  value_ref, obj_ref,
}
use aument.Rt.Array.{Index, size_index, array_get, array_set, array_pop, tuple_get, tuple_set}
use aument.Rt.Array.Laws.{array_set-uncounted}
use aument.Rt.Array.Counted.{array_pop-IsCounted, array_get-IsCounted}
use aument.Rt.Heap.Counts.{IsCounted, slots, total_rc, present, count_refs, points_to}
use aument.Rt.Heap.Marks.{held, any_root}
use aument.Rt.Heap.Roots.{collect-IsCounted, collect-present}
use aument.Rt.Heap.Garbage.{collect-frees}

abbrev object : ℕ → ℕ → List Ref → Obj
object a count values = record {
  addr = a;
  size = 8;
  marked = false;
  rc = count;
  values = values;
  data_size = 0;
}

-- an array at 3, which a register holds, with the string at 2; a function at 4, which a register holds, and an array at 1 with the string
abbrev heap : Malloc
heap = record malloc_init {
  obj_list =
      object 4 0 []
      ∷ (object 3 0 (Ref.str 2 ∷ []) ∷ (object 2 2 [] ∷ (object 1 0 (Ref.str 2 ∷ []) ∷ [])));
  heap_size = 32;
}

abbrev frame : Frame
frame = record {
  self = none;
  retval = Ref.scalar;
  regs = Ref.struct 3 ∷ (Ref.fn 4 ∷ []);
  locals = [];
}

heap-IsCounted : IsCounted heap.obj_list []
unfolding slots total_rc count_refs points_to
heap-IsCounted = record { counted = λ a. ground arith }

heap-IsRooted : (a : ℕ) → held a (frame ∷ []) ≡ true → present a heap.obj_list ≡ true
unfolding held any_root present
heap-IsRooted a h = ground arith

collect-IsCounted_example :
    (m : Malloc) × (collect (frame ∷ []) heap ≡ some m)
    × IsCounted m.obj_list []
    × ((a : ℕ) → slots a m.obj_list ≡ 0 ⊎ (present a m.obj_list ≡ true))
collect-IsCounted_example = collect-IsCounted (frame ∷ []) heap heap-IsCounted heap-IsRooted

collect-present_example :
    (m : Malloc) × (collect (frame ∷ []) heap ≡ some m)
    × ((a : ℕ) → held a (frame ∷ []) ≡ true → present a m.obj_list ≡ true)
collect-present_example = collect-present (frame ∷ []) heap heap-IsCounted heap-IsRooted

-- the function in the register
collect-frees_example :
    (m : Malloc) × (collect (frame ∷ []) heap ≡ some m) × (present 4 m.obj_list ≡ false)
unfolding held any_root total_rc
collect-frees_example = collect-frees (frame ∷ []) heap 4 heap-IsCounted heap-IsRooted refl refl

-- a register that holds an object that is not there
dangling : collect (record frame { retval = Ref.str 9 } ∷ []) heap ≡ none
unfolding collect mark_frames mark mark_at update unmark
dangling = refl

-- the function at 4 is stored in the array at 3, in the place of the string
abbrev with_count : List Obj
with_count =
    object 4 1 []
    ∷ (object 3 0 (Ref.str 2 ∷ []) ∷ (object 2 2 [] ∷ (object 1 0 (Ref.str 2 ∷ []) ∷ [])))

array_set-uncounted_example :
    (w : List Obj) × (array_set 3 (Index.int 0) (Ref.fn 4) heap.obj_list ≡ some (true, w))
    × (tuple_set 3 (Index.int 0) (Ref.fn 4) heap.obj_list ≡ some (true, w))
    × (found 3 w ≡ some (object 3 0 (Ref.fn 4 ∷ [])))
    × ((c : ℕ) → total_rc c w ≡ total_rc c heap.obj_list)
    × ((c : ℕ)
        → slots c w + points_to c (Ref.str 2) ≡ slots c heap.obj_list + points_to c (Ref.fn 4))
unfolding value_ref obj_ref update size_index
array_set-uncounted_example =
    array_set-uncounted 3 0 (Ref.fn 4) (Ref.str 2) heap.obj_list with_count
      (object 3 0 (Ref.str 2 ∷ [])) refl refl refl

array_pop-IsCounted_example :
    (w : List Obj) × (array_pop 3 heap.obj_list ≡ some (Ref.str 2, w))
    × IsCounted w (Ref.str 2 ∷ [])
array_pop-IsCounted_example =
    array_pop-IsCounted 3 0 (Ref.str 2) heap.obj_list (object 3 0 (Ref.str 2 ∷ [])) [] refl refl
      refl heap-IsCounted

abbrev string_counted : List Obj
string_counted =
    object 4 0 []
    ∷ (object 3 0 (Ref.str 2 ∷ []) ∷ (object 2 3 [] ∷ (object 1 0 (Ref.str 2 ∷ []) ∷ [])))

array_get-IsCounted_example :
    (array_get 3 (Index.int 0) heap.obj_list ≡ some (some (Ref.str 2), string_counted))
    × (tuple_get 3 (Index.int 0) heap.obj_list ≡ some (some (Ref.str 2), string_counted))
    × IsCounted string_counted (Ref.str 2 ∷ [])
unfolding value_ref obj_ref update size_index
array_get-IsCounted_example =
    array_get-IsCounted 3 0 (Ref.str 2) heap.obj_list string_counted (object 3 0 (Ref.str 2 ∷ []))
      [] refl refl refl heap-IsCounted
