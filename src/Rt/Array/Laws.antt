-- ===== src/Rt/Array/Laws.antt =====
-- What a store into an array or a tuple changes: src/core/rt/au_array.c, src/core/rt/au_tuple.c.
use aument.Prelude.{
  ℕ, zero, suc, ◌+◌, ◌-◌, ◌<◌, ◌≡◌, refl, sym, ap, inl, inr, true, false, none, some, List, [], ◌∷◌,
  leb, ◌==◌, ◌>>=◌, arith, Bool-cases, length, get_elem?, set, Option-cases, get_elem?-set_self,
}
use aument.Rt.Heap.{
  count_up, Ref, str, fn, struct, scalar, Obj, consed, found, update, obj_ref, obj_deref, value_ref,
  value_deref,
}
use aument.Rt.Heap.Counts.{points_to, count_refs, slots, total_rc}
use aument.Rt.Array.{int, size_index, put, store_value, set_element, array_set, tuple_set}

-- Two lists of objects that agree but for one more in the first count of an address.
pub data Counts (b : ℕ) : List Obj → List Obj → Type 0 where
  here :
      (h : Obj) (objs : List Obj)
      → h.addr == b ≡ true
      → Counts b (h ∷ objs) (record h { rc = h.rc + 1 } ∷ objs)
  there :
      (h : Obj) (objs m : List Obj)
      → h.addr == b ≡ false
      → Counts b objs m
      → Counts b (h ∷ objs) (h ∷ m)

pub obj_ref-Counts : (b : ℕ) (objs m : List Obj) → obj_ref b objs ≡ some m → Counts b objs m
unfolding obj_ref update
obj_ref-Counts b [] m r = absurd (ground arith)
obj_ref-Counts b (h ∷ objs) m r = elim (Bool-cases (h.addr == b)) [
  | inl hb ↦
      let e : record h { rc = h.rc + 1 } ∷ objs ≡ m = ground arith in rw (sym e) (here h objs hb)
  | inr nb ↦ elim (Option-cases (update count_up b objs)) [
    | inl none_left ↦ absurd (ground arith)
    | inr (left, made) ↦
        let e : h ∷ left ≡ m = ground arith in
        rw (sym e) (there h objs left nb (obj_ref-Counts b objs left made))
  ]
]

-- A new reference leaves the elements of the objects as they are.
found-Counts :
    (a b : ℕ) (objs m : List Obj) (o : Obj)
    → Counts b objs m
    → found a objs ≡ some o
    → (o' : Obj) × (found a m ≡ some o') × (o'.values ≡ o.values)
found-Counts a b _ _ o (here h objs hb) f = elim (Bool-cases (h.addr == a)) [
  | inl ha ↦ (record h { rc = h.rc + 1 }, rw ha refl, ground arith)
  | inr na ↦ (o, rw na (ground arith), refl)
]
found-Counts a b _ _ o (there h objs m nb c) f = elim (Bool-cases (h.addr == a)) [
  | inl ha ↦ (h, rw ha refl, ground arith)
  | inr na ↦ let (o', at, same) = found-Counts a b objs m o c (ground arith) in (o', rw na at, same)
]

-- The count that is one more is given back.
undo-Counts : (b : ℕ) (objs m : List Obj) → Counts b objs m → obj_deref b m ≡ some objs
unfolding obj_deref update
undo-Counts b _ _ (here h objs hb) =
    let e : h.rc + 1 - 1 ≡ h.rc = omega arith in
    rw hb (ap (λ n. some (record h { rc = n } ∷ objs)) e)
undo-Counts b _ _ (there h objs m nb c) = let rest = undo-Counts b objs m c in rw (nb, rest) refl

-- The reference that a value gets before it is stored is the one that it loses after.
store-Counts :
    (a b i : ℕ) (v : Ref) (objs m : List Obj)
    → Counts b objs m
    → (update (put i v) a m >>= obj_deref b) ≡ update (put i v) a objs
unfolding obj_deref update put
store-Counts a b i v _ _ (here h objs hb) = elim (Bool-cases (h.addr == a)) [
  | inl ha ↦
      let e : h.rc + 1 - 1 ≡ h.rc = omega arith in
      rw (ha, hb) (ap (λ n. some (record h { rc = n; values = set h.values i v } ∷ objs)) e)
  | inr na ↦ elim (Option-cases (update (put i v) a objs)) [
    | inl w ↦ rw (na, w) refl
    | inr (w, made) ↦
        let e : h.rc + 1 - 1 ≡ h.rc = omega arith in
        rw (na, made, hb) (ap (λ n. some (record h { rc = n } ∷ w)) e)
  ]
]
store-Counts a b i v _ _ (there h objs m nb c) = elim (Bool-cases (h.addr == a)) [
  | inl ha ↦ let rest = undo-Counts b objs m c in rw (ha, nb, rest) refl
  | inr na ↦
      let step = store-Counts a b i v objs m c in
      elim (Option-cases (update (put i v) a m)) [
        | inl w ↦
            let fails : none ≡ update (put i v) a objs = rw w at step in
            rw (na, w) (ap (consed h) fails)
        | inr (w, made) ↦
            let goes : obj_deref b w ≡ update (put i v) a objs = rw made at step in
            rw (na, made, nb) (ap (consed h) goes)
      ]
]

pub get_elem?-inside : (xs : List Ref) (i : ℕ) (v : Ref) → get_elem? xs i ≡ some v → i < length xs
get_elem?-inside [] i v g = absurd (ground arith)
get_elem?-inside (x ∷ xs) zero v g = omega arith
get_elem?-inside (x ∷ xs) (suc i) v g = let h = get_elem?-inside xs i v g in omega arith

count_refs-set :
    (c i : ℕ) (v old : Ref) (xs : List Ref)
    → get_elem? xs i ≡ some old
    → count_refs c (set xs i v) + points_to c old ≡ count_refs c xs + points_to c v
unfolding count_refs
count_refs-set c i v old [] g = absurd (ground arith)
count_refs-set c zero v old (x ∷ xs) g = let e : x ≡ old = ground arith in rw e (omega arith)
count_refs-set c (suc i) v old (x ∷ xs) g = omega (arith, count_refs-set c i v old xs g)

-- The write itself: it changes no count, and one element.
record Written (a i : ℕ) (v old : Ref) (objs w : List Obj) (o : Obj) : Type 0 where
  made : update (put i v) a objs ≡ some w
  at : found a w ≡ some (record o { values = set o.values i v })
  counts : (c : ℕ) → total_rc c w ≡ total_rc c objs
  refs : (c : ℕ) → slots c w + points_to c old ≡ slots c objs + points_to c v

update-Written :
    (a i : ℕ) (v old : Ref) (objs : List Obj) (o : Obj)
    → found a objs ≡ some o
    → get_elem? o.values i ≡ some old
    → (w : List Obj) × Written a i v old objs w o
unfolding update put total_rc slots
update-Written a i v old [] o f g = absurd (ground arith)
update-Written a i v old (h ∷ objs) o f g = elim (Bool-cases (h.addr == a)) [
  | inl ha ↦
      let e : h ≡ o = ground arith in
      let g' : get_elem? h.values i ≡ some old = rw e g in
      (
        record h { values = set h.values i v } ∷ objs,
        record {
          made = rw ha refl;
          at = rw (ha, e) refl;
          counts = λ c. refl;
          refs = λ c. let x = count_refs-set c i v old h.values g' in omega arith;
        },
      )
  | inr na ↦
      let (w, rest) = update-Written a i v old objs o (ground arith) g in
      (
        h ∷ w,
        record {
          made = rw (na, rest.made) refl;
          at = rw na rest.at;
          counts = λ c. let x = rest.counts c in omega arith;
          refs = λ c. let x = rest.refs c in omega arith;
        },
      )
]

-- A store of a value that is counted is the write alone.
store-pointer :
    (a b i : ℕ) (v old : Ref) (objs m : List Obj) (o : Obj)
    → Counts b objs m
    → found a objs ≡ some o
    → get_elem? o.values i ≡ some old
    → (w : List Obj) × (x : Obj) × (update (put i v) a m ≡ some w)
      × (found a w ≡ some x)
      × (get_elem? x.values i ≡ some v)
      × (obj_deref b w ≡ update (put i v) a objs)
store-pointer a b i v old objs m o c f g =
    let (o', at, same) = found-Counts a b objs m o c f in
    let g' : get_elem? o'.values i ≡ some old = rw same g in
    let (w, w') = update-Written a i v old m o' at g' in
    let s = store-Counts a b i v objs m c in
    let made = w'.made in
    (
      w,
      record o' { values = set o'.values i v },
      made,
      w'.at,
      get_elem?-set_self o'.values i v (get_elem?-inside o'.values i old g'),
      rw made at s,
    )

store-update :
    (a i : ℕ) (v old : Ref) (objs m : List Obj) (o : Obj)
    → value_ref v objs ≡ some m
    → found a objs ≡ some o
    → get_elem? o.values i ≡ some old
    → store_value a i v objs ≡ update (put i v) a objs
unfolding store_value value_ref value_deref
store-update a i (str b) old objs m o r f g =
    let (w, x, made, at, elem, back) =
      store-pointer a b i (str b) old objs m o (obj_ref-Counts b objs m r) f g in
    rw (r, made, at, elem) back
store-update a i (fn b) old objs m o r f g =
    let (w, x, made, at, elem, back) =
      store-pointer a b i (fn b) old objs m o (obj_ref-Counts b objs m r) f g in
    rw (r, made, at, elem) back
store-update a i (struct b) old objs m o r f g =
    let (w, x, made, at, elem, back) =
      store-pointer a b i (struct b) old objs m o (obj_ref-Counts b objs m r) f g in
    rw (r, made, at, elem) back
store-update a i scalar old objs m o r f g =
    let (w, w') = update-Written a i scalar old objs o f g in
    let e : get_elem? (set o.values i scalar) i ≡ some scalar =
      get_elem?-set_self o.values i scalar (get_elem?-inside o.values i old g) in
    rw (w'.made, w'.at, e) refl

leb-false : (a b : ℕ) → a < b → leb b a ≡ false
leb-false a b h = ground arith

-- A store at an index inside an array or a tuple, of a value whose count can grow, puts the value
-- in the place of the old element. No count in the heap changes: the new reference is not counted,
-- and the old one stays counted.
pub array_set-uncounted :
    (a n : ℕ) (v old : Ref) (objs m : List Obj) (o : Obj)
    → value_ref v objs ≡ some m
    → found a objs ≡ some o
    → get_elem? o.values (size_index n) ≡ some old
    → (w : List Obj) × (array_set a (int n) v objs ≡ some (true, w))
      × (tuple_set a (int n) v objs ≡ some (true, w))
      × (found a w ≡ some (record o { values = set o.values (size_index n) v }))
      × ((c : ℕ) → total_rc c w ≡ total_rc c objs)
      × ((c : ℕ) → slots c w + points_to c old ≡ slots c objs + points_to c v)
unfolding array_set tuple_set
array_set-uncounted a n v old objs m o r f g =
    let (w, w') = update-Written a (size_index n) v old objs o f g in
    let s = store-update a (size_index n) v old objs m o r f g in
    let inside =
      leb-false (size_index n) (length o.values) (get_elem?-inside o.values (size_index n) old g) in
    let made = w'.made in
    let stored : set_element a (size_index n) v objs ≡ some (true, w) =
      rw (f, inside, s, made) refl in
    (w, stored, stored, w'.at, w'.counts, w'.refs)
