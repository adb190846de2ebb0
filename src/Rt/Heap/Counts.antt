-- ===== src/Rt/Heap/Counts.antt =====
-- Reference counts against the references that objects hold: src/core/rt/malloc/gc.c.
use aument.Prelude.{
  ℕ, ◌+◌, ◌-◌, ◌≤◌, ◌<◌, ◌≡◌, refl, ap, ◌∙◌, inl, inr, Bool, true, false, ◌&&◌, ◌||◌, some, List,
  [], ◌∷◌, ◌++◌, if◌then◌else◌, ◌==◌, ==_refl, arith, Bool-cases,
}
use aument.Rt.Heap.{Ref, str, fn, struct, scalar, Obj, update, obj_deref, value_deref, deref_all}

-- how often a value points to an address, and how often the values of a list do
unfoldable pub points_to : ℕ → Ref → ℕ
points_to a (str b) = if b == a then 1 else 0
points_to a (fn b) = if b == a then 1 else 0
points_to a (struct b) = if b == a then 1 else 0
points_to a scalar = 0

unfoldable pub count_refs : ℕ → List Ref → ℕ
count_refs a [] = 0
count_refs a (v ∷ values) = points_to a v + count_refs a values

-- how often the objects of a list hold an address, and the count that stands there
unfoldable pub slots : ℕ → List Obj → ℕ
slots a [] = 0
slots a (o ∷ objs) = count_refs a o.values + slots a objs

unfoldable pub total_rc : ℕ → List Obj → ℕ
total_rc a [] = 0
total_rc a (o ∷ objs) = (if o.addr == a then o.rc else 0) + total_rc a objs

unfoldable pub present : ℕ → List Obj → Bool
present a [] = false
present a (o ∷ objs) = o.addr == a || present a objs

unfoldable pub marked_at : ℕ → List Obj → Bool
marked_at a [] = false
marked_at a (o ∷ objs) = ((o.addr == a) && o.marked) || marked_at a objs

unfoldable pub addrs : List Obj → List ℕ
addrs [] = []
addrs (o ∷ objs) = o.addr ∷ addrs objs

-- Every reference that an object holds, and every one that is pending, is counted.
pub record IsCounted (objs : List Obj) (pending : List Ref) : Type 0 where
  pub counted : (a : ℕ) → slots a objs + count_refs a pending ≤ total_rc a objs

-- Two lists of objects that agree but for counts.
pub record SameBut (objs objs' : List Obj) : Type 0 where
  pub same_slots : (a : ℕ) → slots a objs' ≡ slots a objs
  pub same_marks : (a : ℕ) → marked_at a objs' ≡ marked_at a objs
  pub same_addrs : addrs objs' ≡ addrs objs
  pub less_rc : (a : ℕ) → total_rc a objs' ≤ total_rc a objs

SameBut-refl : (objs : List Obj) → SameBut objs objs
SameBut-refl objs = record {
  same_slots = λ a. refl;
  same_marks = λ a. refl;
  same_addrs = refl;
  less_rc = λ a. omega arith;
}

SameBut-count : (o : Obj) (objs : List Obj) → SameBut (o ∷ objs) (record o { rc = o.rc - 1 } ∷ objs)
unfolding slots marked_at addrs total_rc
SameBut-count o objs = record {
  same_slots = λ a. refl;
  same_marks = λ a. refl;
  same_addrs = refl;
  less_rc = λ a. ground arith;
}

-- A dereference of a counted object succeeds, and takes at most one from its count.
obj_deref_lem :
    (b : ℕ) (objs : List Obj)
    → 0 < total_rc b objs
    → (objs' : List Obj) × (obj_deref b objs ≡ some objs')
      × SameBut objs objs'
      × ((a : ℕ) → total_rc a objs ≤ total_rc a objs' + (if b == a then 1 else 0))
unfolding obj_deref update total_rc slots marked_at addrs
obj_deref_lem b [] h = absurd (omega arith)
obj_deref_lem b (o ∷ objs) h = elim (Bool-cases (o.addr == b)) [
  | inl here ↦
      (record o { rc = o.rc - 1 } ∷ objs, rw here refl, SameBut-count o objs, λ a. ground arith)
  | inr there ↦
      let (objs', made, same, less) = obj_deref_lem b objs (ground arith) in
      (
        o ∷ objs',
        rw there (rw made refl),
        record {
          same_slots = λ a. rw (same.same_slots a) refl;
          same_marks = λ a. rw (same.same_marks a) refl;
          same_addrs = ap (λ z. o.addr ∷ z) same.same_addrs;
          less_rc = λ a. let l = same.less_rc a in omega arith;
        },
        λ a. let l = less a in omega arith,
      )
]

pointer_deref :
    (b : ℕ) (values : List Ref) (objs : List Obj)
    → ((a : ℕ) → slots a objs + ((if b == a then 1 else 0) + count_refs a values) ≤ total_rc a objs)
    → (objs' : List Obj) × (obj_deref b objs ≡ some objs')
      × SameBut objs objs'
      × IsCounted objs' values
pointer_deref b values objs c =
    let positive : 0 < total_rc b objs = let at = c b in let self = ==_refl b in ground arith in
    let (objs', made, same, less) = obj_deref_lem b objs positive in
    (
      objs',
      made,
      same,
      record {
        counted = λ a. let x = c a in let y = less a in let z = same.same_slots a in omega arith;
      },
    )

value_deref_lem :
    (v : Ref) (values : List Ref) (objs : List Obj)
    → IsCounted objs (v ∷ values)
    → (objs' : List Obj) × (value_deref v objs ≡ some objs')
      × SameBut objs objs'
      × IsCounted objs' values
unfolding value_deref points_to count_refs
value_deref_lem (str b) values objs c = pointer_deref b values objs c.counted
value_deref_lem (fn b) values objs c = pointer_deref b values objs c.counted
value_deref_lem (struct b) values objs c = pointer_deref b values objs c.counted
value_deref_lem scalar values objs c =
    (objs, refl, SameBut-refl objs, record { counted = λ a. let x = c.counted a in omega arith })

-- All pending references are given up, without touching an object that is not there.
pub deref_all_lem :
    (values : List Ref) (objs : List Obj)
    → IsCounted objs values
    → (objs' : List Obj) × (deref_all values objs ≡ some objs')
      × SameBut objs objs'
      × IsCounted objs' []
unfolding deref_all
deref_all_lem [] objs c = (objs, refl, SameBut-refl objs, c)
deref_all_lem (v ∷ values) objs c =
    let (mid, made, same, after) = value_deref_lem v values objs c in
    let (objs', rest, same', done) = deref_all_lem values mid after in
    (
      objs',
      rw made rest,
      record {
        same_slots = λ a. same'.same_slots a ∙ same.same_slots a;
        same_marks = λ a. same'.same_marks a ∙ same.same_marks a;
        same_addrs = same'.same_addrs ∙ same.same_addrs;
        less_rc = λ a. let x = same.less_rc a in let y = same'.less_rc a in omega arith;
      },
      done,
    )

pub slots-append : (a : ℕ) (xs ys : List Obj) → slots a (xs ++ ys) ≡ slots a xs + slots a ys
unfolding slots
slots-append a [] ys = omega arith
slots-append a (x ∷ xs) ys = omega (arith, slots-append a xs ys)

pub total_rc-append :
    (a : ℕ) (xs ys : List Obj) → total_rc a (xs ++ ys) ≡ total_rc a xs + total_rc a ys
unfolding total_rc
total_rc-append a [] ys = omega arith
total_rc-append a (x ∷ xs) ys = omega (arith, total_rc-append a xs ys)

pub marked_at-append :
    (a : ℕ) (xs ys : List Obj) → marked_at a (xs ++ ys) ≡ marked_at a xs || marked_at a ys
unfolding marked_at
marked_at-append a [] ys = refl
marked_at-append a (x ∷ xs) ys = rw (marked_at-append a xs ys) (ground arith)

pub marked_at-present : (a : ℕ) (objs : List Obj) → marked_at a objs ≡ true → present a objs ≡ true
unfolding marked_at present
marked_at-present a [] h = absurd (cc)
marked_at-present a (o ∷ objs) h = ground (arith, marked_at-present a objs)
