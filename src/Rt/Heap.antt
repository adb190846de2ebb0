-- ===== src/Rt/Heap.antt =====
-- Objects with reference counts: src/core/rt/malloc/gc.c and src/core/rt/value/ref.h. A pointer is a
-- number, the address of an object's header. What an object's del_fn does is part of the object: it
-- dereferences the values that the object holds and frees its data. `none` is undefined behaviour,
-- an access to an object that is not there, or an abort.
pub mod Counts
pub mod Marks
pub mod Collect
pub mod Roots
pub mod Garbage
use aument.Prelude.{
  ℕ, zero, suc, ◌+◌, ◌-◌, ◌*◌, ◌/◌, ◌^◌, Bool, true, false, ◌&&◌, not, Option, none, some, List, [],
  ◌∷◌, ◌++◌, if◌then◌else◌, ltb, leb, ◌%◌, ◌||◌, ◌==◌, ◌>>=◌, length, map, take, drop,
}

-- A value as far as the collector looks at it.
pub data Ref : Type 0 where
  str : ℕ → Ref
  fn : ℕ → Ref
  struct : ℕ → Ref
  scalar : Ref

-- struct au_obj_malloc_header, with the values it holds and the size of the data it owns
pub record Obj : Type 0 where
  pub addr : ℕ
  pub size : ℕ
  pub marked : Bool
  pub rc : ℕ
  pub values : List Ref
  pub data_size : ℕ

-- struct malloc_data; the newest object stands first
pub record Malloc : Type 0 where
  pub obj_list : List Obj
  pub heap_size : ℕ
  pub heap_threshold : ℕ
  pub do_collect : Bool

-- struct au_vm_frame, as far as the collector reads it
pub record Frame : Type 0 where
  pub self : Option ℕ
  pub retval : Ref
  pub regs : List Ref
  pub locals : List Ref

-- MAX_RC
abbrev pub max_rc : ℕ
max_rc = 2 ^ 32 - 1

abbrev pub initial_heap_threshold : ℕ
initial_heap_threshold = 1000000

abbrev pub malloc_init : Malloc
malloc_init = record {
  obj_list = [];
  heap_size = 0;
  heap_threshold = initial_heap_threshold;
  do_collect = false;
}

-- a size_t wraps around
abbrev pub size_add : ℕ → ℕ → ℕ
size_add a b = (a + b) % 2 ^ 64

abbrev pub size_sub : ℕ → ℕ → ℕ
size_sub a b = (a + (2 ^ 64 - b % 2 ^ 64)) % 2 ^ 64

-- a change of the first object at an address
abbrev pub consed : Obj → Option (List Obj) → Option (List Obj)
consed o none = none
consed o (some rest) = some (o ∷ rest)

unfoldable pub update : (Obj → Option Obj) → ℕ → List Obj → Option (List Obj)
update change a [] = none
update change a (o ∷ rest) =
    let more = consed o (update change a rest) in
    if o.addr == a then (change o >>= λ o'. some (o' ∷ rest)) else more

-- au_obj_ref and au_obj_deref
abbrev pub count_up : Obj → Option Obj
count_up o = if o.rc == max_rc then none else some record o { rc = o.rc + 1 }

abbrev pub count_down : Obj → Option Obj
count_down o = some record o { rc = o.rc - 1 }

unfoldable pub obj_ref : ℕ → List Obj → Option (List Obj)
obj_ref a objs = update count_up a objs

unfoldable pub obj_deref : ℕ → List Obj → Option (List Obj)
obj_deref a objs = update count_down a objs

-- au_value_ref and au_value_deref
abbrev pub with_ref : (ℕ → List Obj → Option (List Obj)) → Ref → List Obj → Option (List Obj)
with_ref f (str a) objs = f a objs
with_ref f (fn a) objs = f a objs
with_ref f (struct a) objs = f a objs
with_ref f scalar objs = some objs

unfoldable pub value_ref : Ref → List Obj → Option (List Obj)
value_ref v objs = with_ref obj_ref v objs

unfoldable pub value_deref : Ref → List Obj → Option (List Obj)
value_deref v objs = with_ref obj_deref v objs

unfoldable pub deref_all : List Ref → List Obj → Option (List Obj)
deref_all [] objs = some objs
deref_all (v ∷ values) objs = value_deref v objs >>= deref_all values

-- The marks: strings and structs alone. The mark is written through the pointer.
abbrev pub with_mark : Obj → Option Obj
with_mark o = some record o { marked = true }

unfoldable pub mark_at : ℕ → List Obj → Option (List Obj)
mark_at a objs = update with_mark a objs

unfoldable pub mark : Ref → List Obj → Option (List Obj)
mark (str a) objs = mark_at a objs
mark (struct a) objs = mark_at a objs
mark _ objs = some objs

unfoldable pub mark_all : List Ref → List Obj → Option (List Obj)
mark_all [] objs = some objs
mark_all (v ∷ values) objs = mark v objs >>= mark_all values

abbrev pub mark_self : Option ℕ → List Obj → Option (List Obj)
mark_self none objs = some objs
mark_self (some a) objs = mark_at a objs

unfoldable pub mark_frames : List Frame → List Obj → Option (List Obj)
mark_frames [] objs = some objs
mark_frames (f ∷ frames) objs =
    mark_self f.self objs
    >>= mark f.retval
    >>= mark_all f.regs
    >>= mark_all f.locals
    >>= mark_frames frames

unfoldable pub unmark : List Obj → List Obj
unmark [] = []
unmark (o ∷ objs) = record o { marked = false } ∷ unmark objs

unfoldable pub should_free : Obj → Bool
should_free o = if o.marked then false else o.rc == 0

-- The sweep: `kept` are the objects before the current one, `rounds` is how many are left. Freeing an
-- object takes it out of the list and dereferences what it holds. The result is the list and the heap's size.
unfoldable pub sweep : ℕ → List Obj → List Obj → ℕ → Option (List Obj × ℕ)
sweep zero kept rest heap_size = some (kept ++ rest, heap_size)
sweep (suc rounds) kept [] heap_size = some (kept, heap_size)
sweep (suc rounds) kept (o ∷ rest) heap_size =
    let keep = sweep rounds (kept ++ (o ∷ [])) rest heap_size in
    let free = deref_all o.values (kept ++ rest) >>= λ objs.
    sweep rounds (take (length kept) objs) (drop (length kept) objs)
      (size_sub (size_sub heap_size o.size) o.data_size) in
    if should_free o then free else keep

-- au_obj_malloc_collect
unfoldable pub collect : List Frame → Malloc → Option Malloc
collect frames m = mark_frames frames (unmark m.obj_list) >>= λ marked.
    sweep (length marked) [] marked m.heap_size >>= λ swept.
    some record m { obj_list = swept.0; heap_size = swept.1 }

-- collect_if_needed; the threshold grows by one half
abbrev pub grow : ℕ → Malloc → Malloc
grow size m =
    if ltb m.heap_threshold (size_add m.heap_size size)
    then record m { heap_threshold = m.heap_threshold * 3 / 2 }
    else m

unfoldable pub collect_if_needed : ℕ → List Frame → Malloc → Option Malloc
collect_if_needed size frames m =
    if m.do_collect && ltb m.heap_threshold (size_add m.heap_size size)
    then (collect frames m >>= λ swept. some (grow size swept))
    else some m

-- au_obj_malloc, at the address that the allocator gives, of an object that holds nothing
unfoldable pub obj_malloc : ℕ → ℕ → List Frame → Malloc → Option Malloc
obj_malloc a size frames m = collect_if_needed size frames m >>= λ ready. some record ready {
  obj_list =
      record { addr = a; size = size; marked = false; rc = 1; values = []; data_size = 0 }
      ∷ ready.obj_list;
  heap_size = size_add ready.heap_size size;
}

abbrev pub found : ℕ → List Obj → Option Obj
found a [] = none
found a (o ∷ objs) = if o.addr == a then some o else found a objs

-- What au_obj_realloc gives: no pointer, one to the data of the object at an address, or one to its header.
pub data Pointer : Type 0 where
  null : Pointer
  data_of header_of : ℕ → Pointer

-- au_obj_realloc of the data of the object at an address, or of no pointer, where b is the address that the
-- allocator gives. A size that fits gives the pointer to the header.
unfoldable pub obj_realloc : Option ℕ → ℕ → ℕ → List Frame → Malloc → Option (Pointer × Malloc)
obj_realloc none b size frames m = some (null, m)
obj_realloc (some a) b size frames m =
    if size == 0
    then some (null, m)
    else found a m.obj_list >>= λ old.
        if leb size old.size
        then some (header_of a, m)
        else obj_malloc b size frames m >>= λ grown.
            update (λ o. some record o { values = old.values; data_size = old.data_size }) b
              grown.obj_list
            >>= λ copied. update (λ o. some record o { rc = 0 }) a copied >>= λ objs.
                some (data_of b, record grown { obj_list = objs })

-- au_data_malloc, au_data_calloc and au_data_free, as far as they count
unfoldable pub data_malloc : ℕ → List Frame → Malloc → Option Malloc
data_malloc size frames m = collect_if_needed size frames m >>= λ ready.
    some record ready { heap_size = size_add ready.heap_size size }

unfoldable pub data_calloc : ℕ → ℕ → List Frame → Malloc → Option Malloc
data_calloc count size frames m =
    let nbytes = count * size % 2 ^ 64 in
    if nbytes == 0 then some m else data_malloc nbytes frames m

unfoldable pub data_free : ℕ → Malloc → Malloc
data_free size m = record m { heap_size = size_sub m.heap_size size }

-- au_data_realloc of a pointer that is not null: only a block that moves is counted anew
unfoldable pub data_realloc : Bool → ℕ → ℕ → List Frame → Malloc → Option Malloc
data_realloc moved old_size size frames m =
    if moved
    then collect_if_needed 0 frames
        (record m { heap_size = size_add (size_sub m.heap_size old_size) size })
    else some m
