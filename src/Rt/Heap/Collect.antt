-- ===== src/Rt/Heap/Collect.antt =====
-- What a collection keeps: au_obj_malloc_collect of src/core/rt/malloc/gc.c.
use aument.Prelude.{
  ℕ, zero, suc, ◌≡◌, refl, sym, ◌∙◌, inl, inr, Bool, true, false, ◌&&◌, ◌||◌, some, List, [], ◌∷◌,
  ◌++◌, ◌==◌, arith, Bool-cases, length, take, drop, take-drop, append_assoc, append-nil,
}
use aument.Rt.Heap.{Obj, unmark, should_free, size_sub, sweep}
use aument.Rt.Heap.Counts.{
  count_refs, slots, total_rc, present, marked_at, IsCounted, deref_all_lem, slots-append,
  total_rc-append, marked_at-append,
}

no_mark : (x y z : Bool) → x || ((y && false) || z) ≡ x || z
no_mark true y z = refl
no_mark false true z = refl
no_mark false false z = refl

-- An object that is neither marked nor counted leaves the list, with the references that it holds pending.
module _ (kept rest : List Obj) (o : Obj) (freed : should_free o ≡ true) where
  unmarked : o.marked ≡ false
  unfolding should_free
  unmarked = ground arith

  uncounted : o.rc ≡ 0
  unfolding should_free
  uncounted = ground arith

  pub taken_out : IsCounted (kept ++ (o ∷ rest)) [] → IsCounted (kept ++ rest) o.values
  unfolding slots total_rc count_refs
  taken_out c = record {
    counted = λ a.
        let x = c.counted a in
        let s1 = slots-append a kept (o ∷ rest) in
        let s2 = slots-append a kept rest in
        let t1 = total_rc-append a kept (o ∷ rest) in
        let t2 = total_rc-append a kept rest in let z = uncounted in ground arith;
  }

  pub marks_left : (a : ℕ) → marked_at a (kept ++ (o ∷ rest)) ≡ marked_at a (kept ++ rest)
  unfolding marked_at
  marks_left a =
      rw (marked_at-append a kept (o ∷ rest), marked_at-append a kept rest, unmarked)
        (no_mark (marked_at a kept) (o.addr == a) (marked_at a rest))

pub sweep-IsCounted :
    (rounds : ℕ) (kept rest : List Obj) (heap_size : ℕ)
    → IsCounted (kept ++ rest) []
    → (objs' : List Obj) × (size' : ℕ) × (sweep rounds kept rest heap_size ≡ some (objs', size'))
      × IsCounted objs' []
      × ((a : ℕ) → marked_at a (kept ++ rest) ≡ true → marked_at a objs' ≡ true)
unfolding sweep
sweep-IsCounted zero kept rest heap_size c = (kept ++ rest, heap_size, refl, c, λ a h. h)
sweep-IsCounted (suc rounds) kept [] heap_size c =
    (kept, heap_size, refl, rw append-nil at c, λ a h. rw append-nil at h)
sweep-IsCounted (suc rounds) kept (o ∷ rest) heap_size c = elim (Bool-cases (should_free o)) [
  | inl freed ↦
      let (objs, made, same, c') =
        deref_all_lem o.values (kept ++ rest) (taken_out kept rest o freed c) in
      let whole = take-drop (length kept) objs in
      let (objs', size', ran, c'', keeps) =
        sweep-IsCounted rounds (take (length kept) objs) (drop (length kept) objs)
          (size_sub (size_sub heap_size o.size) o.data_size) (rw whole c') in
      (
        objs',
        size',
        rw freed (rw made ran),
        c'',
        λ a h. keeps a (rw whole (same.same_marks a ∙ sym (marks_left kept rest o freed a) ∙ h)),
      )
  | inr stays ↦
      let whole = append_assoc kept (o ∷ []) rest in
      let (objs', size', ran, c', keeps) =
        sweep-IsCounted rounds (kept ++ (o ∷ [])) rest heap_size (rw whole c) in
      (objs', size', rw stays ran, c', λ a h. keeps a (rw whole h))
]

pub unmark-same :
    (a : ℕ) (objs : List Obj)
    → (slots a (unmark objs) ≡ slots a objs)
      × (total_rc a (unmark objs) ≡ total_rc a objs)
      × (present a (unmark objs) ≡ present a objs)
unfolding unmark slots total_rc present
unmark-same a [] = (refl, refl, refl)
unmark-same a (o ∷ objs) = let (x, y, z) = unmark-same a objs in (rw x refl, rw y refl, rw z refl)
