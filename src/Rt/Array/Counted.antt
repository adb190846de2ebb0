-- ===== src/Rt/Array/Counted.antt =====
-- The references that reads of arrays and tuples give out: src/core/rt/au_array.c, src/core/rt/au_tuple.c.
use aument.Prelude.{
  ℕ, zero, suc, ◌+◌, ◌-◌, ◌≤◌, ◌≡◌, refl, inl, inr, false, some, List, [], ◌∷◌, leb, if◌then◌else◌,
  ◌==◌, arith, Bool-cases, length, get_elem?, take,
}
use aument.Rt.Heap.{Ref, str, fn, struct, scalar, Obj, found, update, value_ref}
use aument.Rt.Heap.Counts.{points_to, count_refs, slots, total_rc, IsCounted}
use aument.Rt.Array.{int, size_index, array_get, tuple_get, array_pop, dropped}
use aument.Rt.Array.Laws.{Counts, here, there, obj_ref-Counts}

Counts-slots : (b c : ℕ) (objs m : List Obj) → Counts b objs m → slots c m ≡ slots c objs
unfolding slots
Counts-slots b c _ _ (here h objs hb) = refl
Counts-slots b c _ _ (there h objs m nb s) = let x = Counts-slots b c objs m s in omega arith

Counts-total_rc :
    (b c : ℕ) (objs m : List Obj)
    → Counts b objs m
    → total_rc c m ≡ total_rc c objs + (if b == c then 1 else 0)
unfolding total_rc
Counts-total_rc b c _ _ (here h objs hb) = ground arith
Counts-total_rc b c _ _ (there h objs m nb s) = let x = Counts-total_rc b c objs m s in omega arith

pointer_ref :
    (b : ℕ) (objs m : List Obj) (pending : List Ref)
    → Counts b objs m
    → IsCounted objs pending
    → (c : ℕ) → slots c m + ((if b == c then 1 else 0) + count_refs c pending) ≤ total_rc c m
pointer_ref b objs m pending s k c =
    let x = k.counted c in
    let y = Counts-slots b c objs m s in let z = Counts-total_rc b c objs m s in omega arith

value_ref-IsCounted :
    (v : Ref) (objs m : List Obj) (pending : List Ref)
    → value_ref v objs ≡ some m
    → IsCounted objs pending
    → IsCounted m (v ∷ pending)
unfolding value_ref count_refs points_to
value_ref-IsCounted (str b) objs m pending r k = record {
  counted = pointer_ref b objs m pending (obj_ref-Counts b objs m r) k;
}
value_ref-IsCounted (fn b) objs m pending r k = record {
  counted = pointer_ref b objs m pending (obj_ref-Counts b objs m r) k;
}
value_ref-IsCounted (struct b) objs m pending r k = record {
  counted = pointer_ref b objs m pending (obj_ref-Counts b objs m r) k;
}
value_ref-IsCounted scalar objs m pending r k =
    let e : objs ≡ m = ground arith in
    record {
      counted = λ c.
          let x : slots c m + count_refs c pending ≤ total_rc c m = rw e at (k.counted c) in
          omega arith;
    }

-- The last element, and what is left without it.
count_refs-take :
    (c i : ℕ) (v : Ref) (xs : List Ref)
    → get_elem? xs i ≡ some v
    → length xs ≡ suc i
    → count_refs c (take i xs) + points_to c v ≡ count_refs c xs
unfolding count_refs
count_refs-take c i v [] g l = absurd (omega arith)
count_refs-take c zero v (x ∷ []) g l = let e : x ≡ v = ground arith in rw e (omega arith)
count_refs-take c zero v (x ∷ (y ∷ xs)) g l = absurd (omega arith)
count_refs-take c (suc i) v (x ∷ xs) g l =
    let h = count_refs-take c i v xs g (omega arith) in omega arith

record Popped (a : ℕ) (v : Ref) (objs w : List Obj) : Type 0 where
  made : update dropped a objs ≡ some w
  counts : (c : ℕ) → total_rc c w ≡ total_rc c objs
  refs : (c : ℕ) → slots c w + points_to c v ≡ slots c objs

update-Popped :
    (a i : ℕ) (v : Ref) (objs : List Obj) (o : Obj)
    → found a objs ≡ some o
    → get_elem? o.values i ≡ some v
    → length o.values ≡ suc i
    → (w : List Obj) × Popped a v objs w
unfolding update total_rc slots
update-Popped a i v [] o f g l = absurd (ground arith)
update-Popped a i v (h ∷ objs) o f g l = elim (Bool-cases (h.addr == a)) [
  | inl ha ↦
      let e : h ≡ o = ground arith in
      let g' : get_elem? h.values i ≡ some v = rw e g in
      let l' : length h.values ≡ suc i = rw e l in
      let n : length h.values - 1 ≡ i = omega arith in
      (
        record h { values = take (length h.values - 1) h.values } ∷ objs,
        record {
          made = rw ha refl;
          counts = λ c. refl;
          refs = λ c. let x = count_refs-take c i v h.values g' l' in rw n (omega arith);
        },
      )
  | inr na ↦
      let (w, rest) = update-Popped a i v objs o (ground arith) g l in
      (
        h ∷ w,
        record {
          made = let m = rest.made in rw (na, m) refl;
          counts = λ c. let x = rest.counts c in omega arith;
          refs = λ c. let x = rest.refs c in omega arith;
        },
      )
]

-- When every reference is counted, and the array has i + 1 elements, a pop gives the last one, with
-- the reference that the array had: every reference is counted, the one that is given out included.
pub array_pop-IsCounted :
    (a i : ℕ) (v : Ref) (objs : List Obj) (o : Obj) (pending : List Ref)
    → found a objs ≡ some o
    → length o.values ≡ suc i
    → get_elem? o.values i ≡ some v
    → IsCounted objs pending
    → (w : List Obj) × (array_pop a objs ≡ some (v, w)) × IsCounted w (v ∷ pending)
unfolding array_pop count_refs
array_pop-IsCounted a i v objs o pending f l g k =
    let (w, p) = update-Popped a i v objs o f g l in
    let made = p.made in
    let n : length o.values - 1 ≡ i = omega arith in
    let some_left : leb (length o.values) 0 ≡ false = ground arith in
    (
      w,
      rw (f, some_left, n, g, made) refl,
      record {
        counted = λ c. let x = p.counts c in let y = p.refs c in let z = k.counted c in omega arith;
      },
    )

-- When every reference is counted, the element that is read from an array or a tuple comes with a
-- reference that is counted.
pub array_get-IsCounted :
    (a n : ℕ) (v : Ref) (objs m : List Obj) (o : Obj) (pending : List Ref)
    → found a objs ≡ some o
    → get_elem? o.values (size_index n) ≡ some v
    → value_ref v objs ≡ some m
    → IsCounted objs pending
    → (array_get a (int n) objs ≡ some (some v, m))
      × (tuple_get a (int n) objs ≡ some (some v, m))
      × IsCounted m (v ∷ pending)
unfolding array_get tuple_get
array_get-IsCounted a n v objs m o pending f g r k =
    (rw (f, g, r) refl, rw (f, g, r) refl, value_ref-IsCounted v objs m pending r k)
