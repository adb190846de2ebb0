-- ===== src/Vm/Code.antt =====
-- Bytecode as instructions, and where the jumps of src/core/vm/vm.c go.
use aument.Prelude.{
  ℕ, zero, suc, ◌+◌, ◌-◌, ◌*◌, ◌≤◌, ◌≡◌, refl, ap, Bool, true, false, not, List, [], ◌∷◌, ◌++◌,
  Option, none, some, if◌then◌else◌, length, get_elem?, set, arith, ◌>>=◌, bind_parts, le→leb,
}
use aument.Value.{Float, Value, bool, is_truthy}
use aument.Vm.Opcode.{Op, decode, jnif, jnif_bool, jrel, jrelb}
use aument.Vm.{Insn, operand16, Program, Machine, next, reg, branch}
use aument.Vm.Step.{jump_if_not, plain_step, step, tick}

-- four bytes make an instruction; `none` for a code byte that is no operation, and for bytes left over
unfoldable pub insns : List ℕ → Option (List Insn)
insns [] = some []
insns (op ∷ (a ∷ (b ∷ (c ∷ rest)))) =
    decode op >>= λ o. insns rest >>= λ code. some (record { op = o; a = a; b = b; c = c } ∷ code)
insns _ = none

-- The instruction behind n others.
pub insns_at :
    (n : ℕ) (xs ys : List ℕ) (op a b c : ℕ) (o : Op) (code : List Insn)
    → length xs ≡ 4 * n
    → decode op ≡ some o
    → insns (xs ++ (op ∷ (a ∷ (b ∷ (c ∷ ys))))) ≡ some code
    → get_elem? code n ≡ some (record { op = o; a = a; b = b; c = c })
unfolding insns
insns_at zero [] ys op a b c o code size known e =
    let (o', same, rest) = bind_parts (decode op) _ code e in
    let (code', _, made) = bind_parts (insns ys) _ code rest in ground arith
insns_at (suc n) (x ∷ (y ∷ (z ∷ (w ∷ xs)))) ys op a b c o code size known e =
    let (o', same, rest) = bind_parts (decode x) _ code e in
    let (code', tail, made) = bind_parts (insns (xs ++ (op ∷ (a ∷ (b ∷ (c ∷ ys)))))) _ code rest in
    let there = insns_at n xs ys op a b c o code' (omega arith) known tail in ground arith
insns_at zero (x ∷ xs) ys op a b c o code size known e = absurd (omega arith)
insns_at (suc n) [] ys op a b c o code size known e = absurd (omega arith)
insns_at (suc n) (x ∷ []) ys op a b c o code size known e = absurd (omega arith)
insns_at (suc n) (x ∷ (y ∷ [])) ys op a b c o code size known e = absurd (omega arith)
insns_at (suc n) (x ∷ (y ∷ (z ∷ []))) ys op a b c o code size known e = absurd (omega arith)

branch-not :
    {D : Type 0} (b : Bool) (n : ℕ) (m : Machine D)
    → branch (not b) n m ≡ next (record m { pc = if b then m.pc + 1 else m.pc + n })
branch-not true n m = refl
branch-not false n m = refl

module _ (fl : Float) (p : Program fl.Double) where
  -- the code byte after a jump on a false value
  abbrev jumped : Value fl.Double → Op
  jumped (bool b) = jnif_bool
  jumped _ = jnif

  jump_if_not_lem :
      (v : Value fl.Double) (n : ℕ) (m : Machine fl.Double)
      → jump_if_not fl p v n m
        ≡ (jumped v, some (next (record m { pc = if is_truthy fl v then m.pc + 1 else m.pc + n })))
  unfolding jump_if_not is_truthy
  jump_if_not_lem (bool true) n m = refl
  jump_if_not_lem (bool false) n m = refl
  jump_if_not_lem v n m = ap (λ z. (jnif, some z)) (branch-not (is_truthy fl v) n m)

module _ (fl : Float) (p : Program fl.Double) (code : List Insn) (m : Machine fl.Double) where
  -- A conditional jump goes on if the value is true, and else passes over its operand.
  pub jnif-tick :
      (i : Insn) (v : Value fl.Double)
      → get_elem? code m.pc ≡ some i
      → i.op ≡ jnif
      → reg m i.a ≡ some v
      → (after : List Insn) × (tick fl p code m
          ≡ some (
            after,
            next (record m { pc = if is_truthy fl v then m.pc + 1 else m.pc + operand16 i }),
          ))
  unfolding tick step jump_if_not
  jnif-tick i v here is_jnif holds = (
    set code m.pc (record i { op = jumped fl p v }),
    rw here (rw is_jnif (rw holds (rw (jump_if_not_lem fl p v (operand16 i) m) refl))),
  )

  pub jrel-tick :
      (i : Insn)
      → get_elem? code m.pc ≡ some i
      → i.op ≡ jrel
      → (after : List Insn) × (tick fl p code m
          ≡ some (after, next (record m { pc = m.pc + operand16 i })))
  unfolding tick step plain_step
  jrel-tick i here is_jrel = (set code m.pc (record i { op = jrel }), rw here (rw is_jrel refl))

  pub jrelb-tick :
      (i : Insn)
      → get_elem? code m.pc ≡ some i
      → i.op ≡ jrelb
      → operand16 i ≤ m.pc
      → (after : List Insn) × (tick fl p code m
          ≡ some (after, next (record m { pc = m.pc - operand16 i })))
  unfolding tick step plain_step
  jrelb-tick i here is_jrelb room =
      (set code m.pc (record i { op = jrelb }), rw here (rw is_jrelb (rw (le→leb _ _ room) refl)))
