-- ===== src/Rt/Heap/Garbage.antt =====
-- What a collection frees: au_obj_malloc_collect of src/core/rt/malloc/gc.c.
use aument.Prelude.{
  ℕ, zero, suc, ◌≡◌, refl, sym, ap, ◌∙◌, inl, inr, Bool, true, false, ◌&&◌, ◌||◌, some, List, [],
  ◌∷◌, ◌++◌, ◌==◌, arith, Bool-cases, length, take, drop, take-drop, append_assoc, append-nil,
}
use aument.Rt.Heap.{Obj, Malloc, Frame, mark, size_sub, unmark, should_free, sweep, collect}
use aument.Rt.Heap.Counts.{
  total_rc, present, marked_at, addrs, IsCounted, deref_all_lem, total_rc-append, marked_at-append,
}
use aument.Rt.Heap.Collect.{sweep-IsCounted, unmark-same, taken_out, marks_left}
use aument.Rt.Heap.Marks.{held}
use aument.Rt.Heap.Roots.{marks_made, Marked-IsCounted, unmark-IsCounted}

-- The addresses of objects before a place are those before that place in a list with the same addresses.
present-take :
    (a : ℕ) (kept rest objs : List Obj)
    → addrs objs ≡ addrs (kept ++ rest)
    → present a (take (length kept) objs) ≡ present a kept
unfolding addrs present
present-take a [] rest objs e = refl
present-take a (o ∷ kept) rest [] e = absurd (cc)
present-take a (o ∷ kept) rest (x ∷ objs) e =
    let head : x.addr ≡ o.addr = cc in
    let tail : addrs objs ≡ addrs (kept ++ rest) = cc in
    rw (head, present-take a kept rest objs tail) refl

length-addrs : (objs : List Obj) → length (addrs objs) ≡ length objs
unfolding addrs
length-addrs [] = refl
length-addrs (o ∷ objs) = ap suc (length-addrs objs)

length-drop :
    (kept rest objs : List Obj)
    → length objs ≡ length (kept ++ rest)
    → length (drop (length kept) objs) ≡ length rest
length-drop [] rest objs e = e
length-drop (o ∷ kept) rest [] e = absurd (omega arith)
length-drop (o ∷ kept) rest (x ∷ objs) e = length-drop kept rest objs (omega arith)

present-snoc :
    (a : ℕ) (kept : List Obj) (o : Obj)
    → present a (kept ++ (o ∷ [])) ≡ present a kept || (o.addr == a)
unfolding present
present-snoc a [] o = ground arith
present-snoc a (x ∷ kept) o = rw (present-snoc a kept o) (ground arith)

rc_after :
    (a : ℕ) (kept rest : List Obj) (o : Obj)
    → total_rc a (kept ++ (o ∷ rest)) ≡ 0
    → total_rc a (kept ++ rest) ≡ 0
unfolding total_rc
rc_after a kept rest o h =
    omega (arith, total_rc-append a kept (o ∷ rest), total_rc-append a kept rest)

-- an object that stays is at another address
elsewhere :
    (a : ℕ) (kept rest : List Obj) (o : Obj)
    → total_rc a (kept ++ (o ∷ rest)) ≡ 0
    → marked_at a (kept ++ (o ∷ rest)) ≡ false
    → should_free o ≡ false
    → (o.addr == a) ≡ false
unfolding total_rc marked_at should_free
elsewhere a kept rest o rc mark stays =
    let t = total_rc-append a kept (o ∷ rest) in
    let m = marked_at-append a kept (o ∷ rest) in ground arith

-- An address without a mark and without a count is not among those that are kept.
sweep-frees :
    (a rounds : ℕ) (kept rest objs' : List Obj) (heap_size size' : ℕ)
    → IsCounted (kept ++ rest) []
    → length rest ≡ rounds
    → total_rc a (kept ++ rest) ≡ 0
    → marked_at a (kept ++ rest) ≡ false
    → present a kept ≡ false
    → sweep rounds kept rest heap_size ≡ some (objs', size')
    → present a objs' ≡ false
unfolding sweep
sweep-frees a zero kept [] objs' heap_size size' c l rc bare gone ran =
    let same : kept ++ [] ≡ objs' = cc in rw (← same) (rw append-nil gone)
sweep-frees a zero kept (o ∷ rest) objs' heap_size size' c l rc bare gone ran = absurd (omega arith)
sweep-frees a (suc rounds) kept [] objs' heap_size size' c l rc bare gone ran = absurd (omega arith)
sweep-frees a (suc rounds) kept (o ∷ rest) objs' heap_size size' c l rc bare gone ran =
    elim (Bool-cases (should_free o)) [
      | inl freed ↦
          let (objs, made, same, c') =
            deref_all_lem o.values (kept ++ rest) (taken_out kept rest o freed c) in
          let whole = take-drop (length kept) objs in
          let sizes : length objs ≡ length (kept ++ rest) =
            sym (length-addrs objs) ∙ (ap length same.same_addrs ∙ length-addrs (kept ++ rest)) in
          let fewer : total_rc a (kept ++ rest) ≡ 0 = rc_after a kept rest o rc in
          let less = same.less_rc a in
          let none_left : total_rc a objs ≡ 0 = omega arith in
          let marks = same.same_marks a ∙ (sym (marks_left kept rest o freed a) ∙ bare) in
          sweep-frees a rounds (take (length kept) objs) (drop (length kept) objs) objs'
            (size_sub (size_sub heap_size o.size) o.data_size) size' (rw whole c')
            (length-drop kept rest objs sizes ∙ omega arith) (rw whole none_left) (rw whole marks)
            (present-take a kept rest objs same.same_addrs ∙ gone) (rw made at (rw freed at ran))
      | inr stays ↦
          let whole = append_assoc kept (o ∷ []) rest in
          sweep-frees a rounds (kept ++ (o ∷ [])) rest objs' heap_size size' (rw whole c)
            (omega arith) (rw whole rc) (rw whole bare)
            (present-snoc a kept o ∙ (rw gone (elsewhere a kept rest o rc bare stays)))
            (rw stays at ran)
    ]

none_marked : (x : Bool) → (x && false) || false ≡ false
none_marked true = refl
none_marked false = refl

unmark-marked_at : (a : ℕ) (objs : List Obj) → marked_at a (unmark objs) ≡ false
unfolding unmark marked_at
unmark-marked_at a [] = refl
unmark-marked_at a (o ∷ objs) = rw (unmark-marked_at a objs) (none_marked (o.addr == a))

-- When every reference that an object holds is counted, and every object that a frame
-- holds is there, a collection frees what has no count at an address that no frame holds as its self, a
-- string or a struct: also a function value that a register holds.
pub collect-frees :
    (frames : List Frame) (m : Malloc) (a : ℕ)
    → IsCounted m.obj_list []
    → ((b : ℕ) → held b frames ≡ true → present b m.obj_list ≡ true)
    → total_rc a m.obj_list ≡ 0
    → held a frames ≡ false
    → (m' : Malloc) × (collect frames m ≡ some m') × (present a m'.obj_list ≡ false)
unfolding collect present
collect-frees frames m a c rooted rc free =
    let fresh = unmark m.obj_list in
    let (all, ready, marks) = marks_made frames m rooted in
    let counted = Marked-IsCounted marks (unmark-IsCounted m.obj_list c) in
    let (objs, size, ran, _, _) = sweep-IsCounted (length all) [] all m.heap_size counted in
    let (_, same, _) = unmark-same a m.obj_list in
    let bare : marked_at a all ≡ false = rw (marks.marks a, unmark-marked_at a m.obj_list) free in
    (
      record m { obj_list = objs; heap_size = size },
      rw (ready, ran) refl,
      sweep-frees a (length all) [] all objs m.heap_size size counted refl
          (marks.same_rc a ∙ (same ∙ rc)) bare refl ran,
    )
