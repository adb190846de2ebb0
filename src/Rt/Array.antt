-- ===== src/Rt/Array.antt =====
-- The elements of arrays and tuples: src/core/rt/au_array.c and src/core/rt/au_tuple.c. An array or a
-- tuple is an object of the heap, at an address; its elements are the values that the object holds.
-- `none` is undefined behaviour. An insertion, which moves bytes, and the growth of an array are left out.
pub mod Laws
pub mod Counted
use aument.Prelude.{
  ℕ, ◌+◌, ◌-◌, ◌^◌, ◌%◌, Bool, true, false, Option, none, some, List, if◌then◌else◌, ltb, leb,
  ◌>>=◌, length, get_elem?, set, take,
}
use aument.Rt.Heap.{Ref, scalar, Obj, found, update, value_ref, value_deref}

-- a value as an index: an int, or another value
pub data Index : Type 0 where
  int : ℕ → Index
  other : Index

-- an int32_t as a size_t
unfoldable pub size_index : ℕ → ℕ
size_index n = if ltb n (2 ^ 31) then n else 2 ^ 64 - 2 ^ 32 + n

-- The element at an index with a new reference, or `none` for the result 0.
abbrev pub got : List Obj → Option Ref → Option (Option Ref × List Obj)
got objs none = some (none, objs)
got objs (some v) = value_ref v objs >>= λ counted. some (some v, counted)

abbrev pub get_element : ℕ → ℕ → List Obj → Option (Option Ref × List Obj)
get_element a i objs = found a objs >>= λ o. got objs (get_elem? o.values i)

unfoldable pub put : ℕ → Ref → Obj → Option Obj
put i v o = some record o { values = set o.values i v }

-- The value gets a reference, is stored, and the element that is there then loses one.
unfoldable pub store_value : ℕ → ℕ → Ref → List Obj → Option (List Obj)
store_value a i v objs = value_ref v objs >>= λ counted. update (put i v) a counted >>= λ written.
    found a written >>= λ o. get_elem? o.values i >>= λ stored. value_deref stored written

abbrev pub set_element : ℕ → ℕ → Ref → List Obj → Option (Bool × List Obj)
set_element a i v objs = found a objs >>= λ o.
    if leb (length o.values) i
    then some (false, objs)
    else store_value a i v objs >>= λ done. some (true, done)

-- au_obj_array_get and au_obj_array_set
unfoldable pub array_get : ℕ → Index → List Obj → Option (Option Ref × List Obj)
array_get a (int n) objs = get_element a (size_index n) objs
array_get a other objs = some (none, objs)

unfoldable pub array_set : ℕ → Index → Ref → List Obj → Option (Bool × List Obj)
array_set a (int n) v objs = set_element a (size_index n) v objs
array_set a other v objs = some (false, objs)

-- au_obj_tuple_get, au_obj_tuple_set: au_value_get_int aborts for an index that is not an int
unfoldable pub tuple_get : ℕ → Index → List Obj → Option (Option Ref × List Obj)
tuple_get a (int n) objs = get_element a (size_index n) objs
tuple_get a other objs = none

unfoldable pub tuple_set : ℕ → Index → Ref → List Obj → Option (Bool × List Obj)
tuple_set a (int n) v objs = set_element a (size_index n) v objs
tuple_set a other v objs = none

-- au_obj_array_pop: the reference of the array goes to the caller
abbrev pub dropped : Obj → Option Obj
dropped o = some record o { values = take (length o.values - 1) o.values }

unfoldable pub array_pop : ℕ → List Obj → Option (Ref × List Obj)
array_pop a objs = found a objs >>= λ o.
    if leb (length o.values) 0
    then some (scalar, objs)
    else get_elem? o.values (length o.values - 1) >>= λ v.
        update dropped a objs >>= λ left. some (v, left)

-- au_obj_array_len and au_obj_tuple_len
unfoldable pub element_count : ℕ → List Obj → Option ℕ
element_count a objs = found a objs >>= λ o. some (length o.values % 2 ^ 32)
