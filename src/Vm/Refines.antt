-- ===== src/Vm/Refines.antt =====
-- Whatever code bytes the machine of src/core/vm/vm.c has rewritten, it does what the reference
-- machine does on the code as it was emitted.
use aument.Prelude.{
  not, ℕ, zero, suc, ◌≡◌, refl, ap, sym, arith, List, [], ◌∷◌, Option, none, some, get_elem?, set,
  ◌>>=◌, Option-cases, inl, inr, ◌⊎◌,
}
use mathlib.Core.Option
use mathlib.Core.Option.{some-injective}
use aument.Value.{Float, Value, int, double, bool, is_error, is_truthy}
use aument.Value.Ops
use aument.Value.Ops.{from_int}
use aument.Value.Compare
use aument.Word.{irem}
use aument.Vm.Opcode.{
  Op, Arith, mul, div, add, sub, eq, neq, lt, gt, leq, geq, IntOp, arith_op, mod_op, BinOp,
  specialised, bin, bin_int, bin_double, jif, jnif, jif_bool, jnif_bool,
}
use aument.Vm.Values.{value_op, int_fast, double_fast}
use aument.Vm.{
  Insn, operand16, Program, Machine, Outcome, next, returned, failed, outside, reg, branch, Handled,
  generic_body, int_body, double_body, bin_generic, bin_int_case, bin_double_case,
}
use aument.Vm.Step.{
  plain_step, step, tick, jump_if, jump_if_not, jump_if_bool, jump_if_not_bool, run,
}
use aument.Vm.Reference.{generic, forget, erase, apply, ref_bin, ref_step, ref_tick, ref_run}

module _ (fl : Float) where
  -- The handlers that are specialised on ints compute what the value library computes.
  pub int_fast-value_op :
      (o : IntOp) (a b : ℕ) → int_fast fl o a b ≡ value_op fl (specialised o) (int a) (int b)
  unfolding int_fast value_op Ops.mul Ops.div Ops.add Ops.sub Ops.mod_op Compare.eq Compare.neq
      Compare.value_cmp Compare.int_cmp
  int_fast-value_op (arith_op mul) a b = refl
  int_fast-value_op (arith_op div) a b = refl
  int_fast-value_op (arith_op add) a b = refl
  int_fast-value_op (arith_op sub) a b = refl
  int_fast-value_op (arith_op eq) a b = refl
  int_fast-value_op (arith_op neq) a b = refl
  int_fast-value_op (arith_op lt) a b = refl
  int_fast-value_op (arith_op gt) a b = refl
  int_fast-value_op (arith_op leq) a b = refl
  int_fast-value_op (arith_op geq) a b = refl
  int_fast-value_op mod_op a b = refl

  double_fast-apply :
      (o : Arith) (x y : fl.Double)
      → some (double_fast fl o x y) ≡ apply fl (specialised (arith_op o)) (double x) (double y)
  unfolding double_fast apply value_op Ops.mul Ops.div Ops.add Ops.sub Compare.value_cmp
      Compare.double_cmp
  double_fast-apply mul x y = refl
  double_fast-apply _ x y = refl

  int_fast-apply :
      (o : IntOp) (a b : ℕ) → int_fast fl o a b ≡ apply fl (specialised o) (int a) (int b)
  unfolding apply
  int_fast-apply (arith_op mul) a b = int_fast-value_op (arith_op mul) a b
  int_fast-apply (arith_op eq) a b = int_fast-value_op (arith_op eq) a b
  int_fast-apply (arith_op neq) a b = int_fast-value_op (arith_op neq) a b
  int_fast-apply (arith_op o) a b = int_fast-value_op (arith_op o) a b
  int_fast-apply mod_op a b = int_fast-value_op mod_op a b

module _ (fl : Float) (p : Program fl.Double) where
  int_body-ref_bin :
      (o : IntOp) (a b res : ℕ) (m : Machine fl.Double)
      → int_body fl p o a b res m ≡ ref_bin fl p (specialised o) (int a) (int b) res m
  unfolding int_body ref_bin apply value_op int_fast is_error Ops.mul Ops.div Ops.add Ops.sub
      Ops.mod_op Compare.eq Compare.neq Compare.value_cmp Compare.int_cmp
  int_body-ref_bin mod_op a b res m = elim (Option-cases (irem a b)) [
    | inl e ↦ rw e
    | inr (c, e) ↦ rw e
  ]
  int_body-ref_bin (arith_op mul) a b res m = refl
  int_body-ref_bin (arith_op eq) a b res m = refl
  int_body-ref_bin (arith_op _) a b res m = refl

  double_body-ref_bin :
      (o : Arith) (x y : fl.Double) (res : ℕ) (m : Machine fl.Double)
      → double_body fl p o x y res m
        ≡ ref_bin fl p (specialised (arith_op o)) (double x) (double y) res m
  unfolding double_body ref_bin apply value_op double_fast is_error Ops.mul Ops.div Ops.add Ops.sub
      Compare.value_cmp Compare.double_cmp
  double_body-ref_bin mul x y res m = refl
  double_body-ref_bin _ x y res m = refl

  -- The relation of a handler's result to the reference machine: the same outcome, and a code
  -- byte that stands for the same general operation.
  abbrev Same : Op → Handled fl.Double → Option (Outcome fl.Double) → Type 0
  Same o h r = (generic h.0 ≡ o) × (h.1 ≡ r)

  bin_generic-Same :
      (o : BinOp) (l r : Value fl.Double) (res : ℕ) (m : Machine fl.Double)
      → Same (bin o) (bin_generic fl p o l r res m) (ref_bin fl p o l r res m)
  unfolding bin_generic generic_body ref_bin apply
  bin_generic-Same (specialised o) (int a) (int b) res m = (refl, int_body-ref_bin o a b res m)
  bin_generic-Same (specialised (arith_op o)) (double x) (double y) res m =
      (refl, double_body-ref_bin o x y res m)
  bin_generic-Same o l r res m = (refl, ground arith)

  bin_int_case-Same :
      (o : IntOp) (l r : Value fl.Double) (res : ℕ) (m : Machine fl.Double)
      → Same
          (bin (specialised o))
          (bin_int_case fl p o l r res m)
          (ref_bin fl p (specialised o) l r res m)
  unfolding bin_int_case
  bin_int_case-Same o (int a) (int b) res m = (refl, int_body-ref_bin o a b res m)
  bin_int_case-Same o l r res m = bin_generic-Same (specialised o) l r res m

  bin_double_case-Same :
      (o : Arith) (l r : Value fl.Double) (res : ℕ) (m : Machine fl.Double)
      → Same
          (bin (specialised (arith_op o)))
          (bin_double_case fl p o l r res m)
          (ref_bin fl p (specialised (arith_op o)) l r res m)
  unfolding bin_double_case
  bin_double_case-Same o (double x) (double y) res m = (refl, double_body-ref_bin o x y res m)
  bin_double_case-Same o l r res m = bin_generic-Same (specialised (arith_op o)) l r res m

  -- the four jumps, by the type of the value that they test
  jumps-Same :
      (v : Value fl.Double) (n : ℕ) (m : Machine fl.Double)
      → Same jif (jump_if fl p v n m) (some (branch (is_truthy fl v) n m))
        × Same jif (jump_if_bool fl p v n m) (some (branch (is_truthy fl v) n m))
        × Same jnif (jump_if_not fl p v n m) (some (branch (not (is_truthy fl v)) n m))
        × Same jnif (jump_if_not_bool fl p v n m) (some (branch (not (is_truthy fl v)) n m))
  unfolding jump_if jump_if_bool jump_if_not jump_if_not_bool is_truthy
  jumps-Same (bool b) n m = ((refl, refl), (refl, refl), (refl, refl), (refl, refl))
  jumps-Same _ n m = ((refl, refl), (refl, refl), (refl, refl), (refl, refl))

  -- A step and the reference step: neither is defined, or they agree.
  abbrev Agree : Op → Option (Handled fl.Double) → Option (Outcome fl.Double) → Type 0
  Agree o none r = r ≡ none
  Agree o (some h) r = Same o h r

  one_operand-Agree :
      (o : Op) (x : Option (Value fl.Double)) (h : Value fl.Double → Handled fl.Double)
      (f : Value fl.Double → Option (Outcome fl.Double))
      → ((v : Value fl.Double) → Same o (h v) (f v))
      → Agree o (x >>= λ v. some (h v)) (x >>= f)
  one_operand-Agree o none h f same = refl
  one_operand-Agree o (some v) h f same = same v

  two_operands-Agree :
      (o : Op) (x y : Option (Value fl.Double))
      (h : Value fl.Double → Value fl.Double → Handled fl.Double)
      (f : Value fl.Double → Value fl.Double → Option (Outcome fl.Double))
      → ((l r : Value fl.Double) → Same o (h l r) (f l r))
      → Agree o (x >>= λ l. y >>= λ r. some (h l r)) (x >>= λ l. y >>= λ r. f l r)
  two_operands-Agree o none y h f same = refl
  two_operands-Agree o (some l) none h f same = refl
  two_operands-Agree o (some l) (some r) h f same = same l r

  step-Agree :
      (o : Op) (i : Insn) (m : Machine fl.Double)
      → Agree (generic o) (step fl p o i m) (ref_step fl p (generic o) (forget i) m)
  unfolding step ref_step plain_step
  step-Agree (bin o) i m =
      two_operands-Agree (bin o) (reg m i.a) (reg m i.b) _ _ (λ l r. bin_generic-Same o l r i.c m)
  step-Agree (bin_int o) i m =
      two_operands-Agree (bin (specialised o)) (reg m i.a) (reg m i.b) _ _
        (λ l r. bin_int_case-Same o l r i.c m)
  step-Agree (bin_double o) i m =
      two_operands-Agree (bin (specialised (arith_op o))) (reg m i.a) (reg m i.b) _ _
        (λ l r. bin_double_case-Same o l r i.c m)
  step-Agree jif i m = one_operand-Agree jif (reg m i.a) _ _ (λ v. (jumps-Same v (operand16 i) m).0)
  step-Agree jif_bool i m =
      one_operand-Agree jif (reg m i.a) _ _ (λ v. (jumps-Same v (operand16 i) m).1)
  step-Agree jnif i m =
      one_operand-Agree jnif (reg m i.a) _ _ (λ v. (jumps-Same v (operand16 i) m).2)
  step-Agree jnif_bool i m =
      one_operand-Agree jnif (reg m i.a) _ _ (λ v. (jumps-Same v (operand16 i) m).3)
  step-Agree o i m = (refl, refl)

get_elem?-erase :
    (code : List Insn) (n : ℕ) → get_elem? (erase code) n ≡ Option.map forget (get_elem? code n)
get_elem?-erase [] n = refl
get_elem?-erase (i ∷ code) zero = refl
get_elem?-erase (i ∷ code) (suc n) = get_elem?-erase code n

-- Writing back an operation of the same general form does not change what the code stands for.
erase-set :
    (code : List Insn) (n : ℕ) (i : Insn) (o : Op)
    → get_elem? code n ≡ some i
    → generic o ≡ generic i.op
    → erase (set code n (record i { op = o })) ≡ erase code
erase-set [] n i o e g = cc
erase-set (j ∷ code) zero i o e g = let same : j ≡ i = some-injective j i e in rw same (rw g)
erase-set (j ∷ code) (suc n) i o e g = ap (λ c. forget j ∷ c) (erase-set code n i o e g)

module _ (fl : Float) (p : Program fl.Double) where
  abbrev pub erase_code : List Insn × Outcome fl.Double → List Insn × Outcome fl.Double
  erase_code t = (erase t.0, t.1)

  finish :
      (code : List Insn) (n : ℕ) (i : Insn) (h : Op × Option (Outcome fl.Double))
      (r : Option (Outcome fl.Double))
      → get_elem? code n ≡ some i
      → Same fl p (generic i.op) h r
      → Option.map erase_code (h.1 >>= λ out. some (set code n (record i { op = h.0 }), out))
        ≡ Option.map (λ out. (erase code, out)) r
  finish code n i (o, none) r e same = rw (← same.1)
  finish code n i (o, some out) r e same =
      rw (← same.1) (ap (λ c. some (c, out)) (erase-set code n i o e same.0))

  finish_step :
      (code : List Insn) (n : ℕ) (i : Insn) (s : Option (Handled fl.Double))
      (r : Option (Outcome fl.Double))
      → get_elem? code n ≡ some i
      → Agree fl p (generic i.op) s r
      → Option.map erase_code
          (s >>= λ h. h.1 >>= λ out. some (set code n (record i { op = h.0 }), out))
        ≡ Option.map (λ out. (erase code, out)) r
  finish_step code n i none r e agree = rw agree
  finish_step code n i (some h) r e agree = finish code n i h r e agree

  -- One tick, the code bytes forgotten, is one tick of the reference machine on the code as it was
  -- emitted, which it does not change.
  pub tick-ref_tick :
      (code : List Insn) (m : Machine fl.Double)
      → Option.map erase_code (tick fl p code m)
        ≡ Option.map (λ out. (erase code, out)) (ref_tick fl p (erase code) m)
  unfolding tick ref_tick
  tick-ref_tick code m = elim (Option-cases (get_elem? code m.pc)) [
    | inl e ↦ rw (get_elem?-erase, e)
    | inr (i, e) ↦
        rw (get_elem?-erase, e) (finish_step code m.pc i _ _ e (step-Agree fl p i.op i m))
  ]

  read_off :
      (code : List Insn) (x : Option (List Insn × Outcome fl.Double))
      (y : Option (Outcome fl.Double))
      → Option.map erase_code x ≡ Option.map (λ out. (erase code, out)) y
      → ((x ≡ none) × (y ≡ none))
        ⊎ ((t : List Insn × Outcome fl.Double) × (x ≡ some t)
            × (erase t.0 ≡ erase code)
            × (y ≡ some t.1))
  read_off code none none h = inl (refl, refl)
  read_off code none (some out) h = cc
  read_off code (some t) none h = cc
  read_off code (some t) (some out) h =
      let same = some-injective (erase_code t) (erase code, out) h in
      inr (t, refl, ap (λ u. u.0) same, ap (λ u. some u.1) (sym same))

  -- A run of the machine, however its code was specialised before and is rewritten on the way,
  -- ends as the reference machine ends with the same fuel on the general code.
  pub run-ref_run :
      (fuel : ℕ) (code : List Insn) (m : Machine fl.Double)
      → run fl p fuel code m ≡ ref_run fl p fuel (erase code) m
  unfolding run ref_run
  run-ref_run zero code m = refl
  run-ref_run (suc fuel) code m =
      elim (read_off code (tick fl p code m) (ref_tick fl p (erase code) m)
        (tick-ref_tick code m)) [
          | inl (none_here, none_there) ↦ rw (none_here, none_there)
          | inr ((code', next m'), here, kept, there) ↦
              rw (here, there) (rw kept at (run-ref_run fuel code' m'))
          | inr ((code', returned v m'), here, kept, there) ↦ rw (here, there)
          | inr ((code', failed err pos m'), here, kept, there) ↦ rw (here, there)
          | inr ((code', outside m'), here, kept, there) ↦ rw (here, there)
        ]
