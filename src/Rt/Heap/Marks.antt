-- ===== src/Rt/Heap/Marks.antt =====
-- The marks of a collection: mark, and the loop over the frames in au_obj_malloc_collect of
-- src/core/rt/malloc/gc.c.
use aument.Prelude.{
  ℕ, ◌≡◌, refl, ◌∙◌, inl, inr, Bool, true, false, ◌||◌, Option, none, some, List, [], ◌∷◌, ◌==◌,
  ◌>>=◌, arith, Bool-cases,
}
use aument.Rt.Heap.{
  Ref, str, fn, struct, scalar, Obj, Frame, update, mark_at, mark, mark_all, mark_self, mark_frames,
}
use aument.Rt.Heap.Counts.{slots, total_rc, present, marked_at}

-- Whether a value is a string or a struct at the address, and whether a frame holds one: functions are
-- not looked at.
abbrev pub is_root : ℕ → Ref → Bool
is_root a (str b) = b == a
is_root a (struct b) = b == a
is_root a _ = false

unfoldable pub any_root : ℕ → List Ref → Bool
any_root a [] = false
any_root a (v ∷ values) = is_root a v || any_root a values

abbrev pub is_self : ℕ → Option ℕ → Bool
is_self a none = false
is_self a (some b) = b == a

unfoldable pub held : ℕ → List Frame → Bool
held a [] = false
held a (f ∷ frames) =
    (((is_self a f.self || is_root a f.retval) || any_root a f.regs) || any_root a f.locals)
    || held a frames

-- Two lists of objects that agree but for marks, which the second has also at the roots.
pub record Marked (root : ℕ → Bool) (objs objs' : List Obj) : Type 0 where
  pub same_slots : (a : ℕ) → slots a objs' ≡ slots a objs
  pub same_rc : (a : ℕ) → total_rc a objs' ≡ total_rc a objs
  pub same_present : (a : ℕ) → present a objs' ≡ present a objs
  pub marks : (a : ℕ) → marked_at a objs' ≡ marked_at a objs || root a

-- A step that writes the marks of its roots, when they are there.
unfoldable Marks : (ℕ → Bool) → (List Obj → Option (List Obj)) → Type 0
Marks root step =
    (objs : List Obj)
    → ((a : ℕ) → root a ≡ true → present a objs ≡ true)
    → (objs' : List Obj) × (step objs ≡ some objs') × Marked root objs objs'

or_false : (x : Bool) → x ≡ x || false
or_false true = refl
or_false false = refl

pub or_true : (x : Bool) → x || true ≡ true
or_true true = refl
or_true false = refl

or_assoc : (x y z : Bool) → (x || y) || z ≡ x || (y || z)
or_assoc true y z = refl
or_assoc false y z = refl

or_some : (x y : Bool) → x ≡ true → x || y ≡ true
or_some true y e = refl
or_some false y e = absurd (cc)

nothing-Marks : Marks (λ a. false) (λ objs. some objs)
unfolding Marks
nothing-Marks objs there = (
  objs,
  refl,
  record {
    same_slots = λ a. refl;
    same_rc = λ a. refl;
    same_present = λ a. refl;
    marks = λ a. or_false (marked_at a objs);
  },
)

then-Marks :
    (R S : ℕ → Bool) (f g : List Obj → Option (List Obj))
    → Marks R f
    → Marks S g
    → Marks (λ a. R a || S a) (λ objs. f objs >>= g)
unfolding Marks
then-Marks R S f g first second objs there =
    let (mid, made, m) = first objs (λ a h. there a (or_some (R a) (S a) h)) in
    let (objs', made', n) = second mid (λ a h. m.same_present a ∙ there a (rw h (or_true (R a)))) in
    (
      objs',
      rw made made',
      record {
        same_slots = λ a. n.same_slots a ∙ m.same_slots a;
        same_rc = λ a. n.same_rc a ∙ m.same_rc a;
        same_present = λ a. n.same_present a ∙ m.same_present a;
        marks = λ a. n.marks a ∙ (rw (m.marks a) (or_assoc (marked_at a objs) (R a) (S a)));
      },
    )

update_mark :
    (b : ℕ) (objs : List Obj)
    → present b objs ≡ true
    → (objs' : List Obj) × (mark_at b objs ≡ some objs') × Marked (λ a. b == a) objs objs'
unfolding mark_at update slots total_rc present marked_at
update_mark b [] h = absurd (cc)
update_mark b (o ∷ objs) h = elim (Bool-cases (o.addr == b)) [
  | inl here ↦ (
    record o { marked = true } ∷ objs,
    rw here refl,
    record {
      same_slots = λ a. refl;
      same_rc = λ a. refl;
      same_present = λ a. refl;
      marks = λ a. ground arith;
    },
  )
  | inr there ↦
      let (rest, made, m) = update_mark b objs (ground arith) in
      (
        o ∷ rest,
        rw (there, made) refl,
        record {
          same_slots = λ a. rw (m.same_slots a) refl;
          same_rc = λ a. rw (m.same_rc a) refl;
          same_present = λ a. rw (m.same_present a) refl;
          marks = λ a. rw (m.marks a) (ground arith);
        },
      )
]

mark_at-Marks : (b : ℕ) → Marks (λ a. b == a) (mark_at b)
unfolding Marks
mark_at-Marks b objs there = update_mark b objs (there b (ground arith))

mark-Marks : (v : Ref) → Marks (λ a. is_root a v) (mark v)
unfolding mark
mark-Marks (str b) = mark_at-Marks b
mark-Marks (fn b) = nothing-Marks
mark-Marks (struct b) = mark_at-Marks b
mark-Marks scalar = nothing-Marks

mark_all-Marks : (values : List Ref) → Marks (λ a. any_root a values) (mark_all values)
unfolding mark_all any_root
mark_all-Marks [] = nothing-Marks
mark_all-Marks (v ∷ values) =
    then-Marks _ _ (mark v) (mark_all values) (mark-Marks v) (mark_all-Marks values)

mark_self-Marks : (self : Option ℕ) → Marks (λ a. is_self a self) (mark_self self)
mark_self-Marks none = nothing-Marks
mark_self-Marks (some b) = mark_at-Marks b

steps-Marks : (frames : List Frame) → Marks (λ a. held a frames) (mark_frames frames)
unfolding mark_frames held
steps-Marks [] = nothing-Marks
steps-Marks (f ∷ frames) =
    then-Marks _ _ _ _
      (then-Marks _ _ _ _
        (then-Marks _ _ _ _ (then-Marks _ _ _ _ (mark_self-Marks f.self) (mark-Marks f.retval))
          (mark_all-Marks f.regs))
        (mark_all-Marks f.locals))
      (steps-Marks frames)

pub mark_frames-Marks :
    (frames : List Frame) (objs : List Obj)
    → ((a : ℕ) → held a frames ≡ true → present a objs ≡ true)
    → (objs' : List Obj) × (mark_frames frames objs ≡ some objs')
      × Marked (λ a. held a frames) objs objs'
unfolding Marks
mark_frames-Marks frames = steps-Marks frames
