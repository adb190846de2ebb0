-- ===== src/Rt/Heap/Roots.antt =====
-- Collections are safe, and keep what frames hold: au_obj_malloc_collect of src/core/rt/malloc/gc.c.
use aument.Prelude.{
  ℕ, ◌<◌, ◌≡◌, refl, ◌∙◌, ◌⊎◌, inl, inr, Bool, true, some, List, [], ◌∷◌, ◌==◌, ==→eq, arith,
  Bool-cases, length,
}
use aument.Rt.Heap.{Obj, Malloc, Frame, mark_frames, unmark, collect}
use aument.Rt.Heap.Counts.{slots, total_rc, present, marked_at, IsCounted, marked_at-present}
use aument.Rt.Heap.Marks.{Marked, held, or_true, mark_frames-Marks}
use aument.Rt.Heap.Collect.{unmark-same, sweep-IsCounted}

-- what is counted is there
pub counted-present : (a : ℕ) (objs : List Obj) → 0 < total_rc a objs → present a objs ≡ true
unfolding total_rc present
counted-present a [] h = absurd (omega arith)
counted-present a (o ∷ objs) h = ground (arith, counted-present a objs)

pub Marked-IsCounted :
    {root : ℕ → Bool} {objs objs' : List Obj}
    → Marked root objs objs'
    → IsCounted objs []
    → IsCounted objs' []
Marked-IsCounted m c = record { counted = λ a. rw (m.same_slots a, m.same_rc a) (c.counted a) }

pub unmark-IsCounted : (objs : List Obj) → IsCounted objs [] → IsCounted (unmark objs) []
unmark-IsCounted objs c = record {
  counted = λ a. let (x, y, _) = unmark-same a objs in rw (x, y) (c.counted a);
}

-- All marks are written when every object that a frame holds is there.
pub marks_made :
    (frames : List Frame) (m : Malloc)
    → ((a : ℕ) → held a frames ≡ true → present a m.obj_list ≡ true)
    → (all : List Obj) × (mark_frames frames (unmark m.obj_list) ≡ some all)
      × Marked (λ a. held a frames) (unmark m.obj_list) all
marks_made frames m rooted =
    mark_frames-Marks frames (unmark m.obj_list)
      (λ a h. let (_, _, same) = unmark-same a m.obj_list in same ∙ rooted a h)

module _ (frames : List Frame) (m : Malloc) (c : IsCounted m.obj_list [])
    (rooted : (a : ℕ) → held a frames ≡ true → present a m.obj_list ≡ true) where
  swept :
      (objs : List Obj) × (size : ℕ) × (collect frames m
        ≡ some (record m { obj_list = objs; heap_size = size }))
      × IsCounted objs []
      × ((a : ℕ) → held a frames ≡ true → present a objs ≡ true)
  unfolding collect
  swept =
      let (all, ready, marks) = marks_made frames m rooted in
      let (objs, size, ran, counted, keeps) =
        sweep-IsCounted (length all) [] all m.heap_size
          (Marked-IsCounted marks (unmark-IsCounted m.obj_list c)) in
      (
        objs,
        size,
        rw (ready, ran) refl,
        counted,
        λ a h.
            marked_at-present a objs
              (keeps a (rw (marks.marks a, h) (or_true (marked_at a (unmark m.obj_list))))),
      )

  -- When every reference that an object holds is counted, and every object that a frame holds is
  -- there, a collection touches no object that is not there: it succeeds, every reference is counted
  -- afterwards, and so no object that is left holds one that was freed.
  pub collect-IsCounted :
      (m' : Malloc) × (collect frames m ≡ some m')
      × IsCounted m'.obj_list []
      × ((a : ℕ) → slots a m'.obj_list ≡ 0 ⊎ (present a m'.obj_list ≡ true))
  collect-IsCounted =
      let (objs, size, ran, counted, _) = swept in
      (
        record m { obj_list = objs; heap_size = size },
        ran,
        counted,
        λ a. elim (Bool-cases (slots a objs == 0)) [
          | inl e ↦ inl (==→eq _ _ e)
          | inr n ↦ let x = counted.counted a in inr (counted-present a objs (ground arith))
        ],
      )

  -- When every reference that an object holds is counted, and every object that a frame holds, as its
  -- self or as a string or a struct in its return value, its registers or its locals, is there before
  -- a collection, then each of them is there after it.
  pub collect-present :
      (m' : Malloc) × (collect frames m ≡ some m')
      × ((a : ℕ) → held a frames ≡ true → present a m'.obj_list ≡ true)
  collect-present =
      let (objs, size, ran, _, keeps) = swept in
      (record m { obj_list = objs; heap_size = size }, ran, keeps)
