-- ===== src/Parser/Regs/Laws.antt =====
-- What the callers of src/core/parser/impl/regs.c rely on.
use aument.Prelude.{
  ℕ, ◌+◌, ◌≤◌, ◌<◌, ◌≡◌, refl, sym, ap, ◌↔◌, ◌⊎◌, inl, inr, true, false, none, some, ◌∷◌, arith,
  ltb, Bool-cases, Option-cases, length,
}
use aument.BitArray.{get}
use aument.Parser.Regs.{Regs, regs_limit, first_free, push, new_reg, pop_reg}
use aument.Parser.Regs.Sound.{IsSound, first_free-lowest, first_free-none, used_after}
use aument.Parser.Regs.Moves.{new_reg_parts, new_reg-IsSound, pop_reg-IsSound}

-- On a sound state, the register that new_reg returns is below AU_REGS, was free, and is the
-- lowest free one; it is pushed on the stack, and the state after is sound.
pub new_reg-lowest :
    (p q : Regs) (r : ℕ)
    → IsSound p
    → new_reg p ≡ some (r, q)
    → (r < regs_limit)
      × (get p.used r ≡ false)
      × ((k : ℕ) → k < r → get p.used k ≡ true)
      × (q.rstack ≡ r ∷ p.rstack)
      × IsSound q
new_reg-lowest p q r s e =
    let (found, same) = new_reg_parts p q r e in
    let (lo, hi, free, below) = first_free-lowest p.used regs_limit 0 r found in
    (hi, free, λ k. below k (omega arith), ap (λ z. z.rstack) same, new_reg-IsSound p s q r e)

-- new_reg gives no register exactly when the stack has AU_REGS entries or more, or every register
-- is in use.
pub new_reg-none :
    (p : Regs)
    → (new_reg p ≡ none)
      ↔ ((regs_limit ≤ length p.rstack) ⊎ ((k : ℕ) → k < regs_limit → get p.used k ≡ true))
unfolding new_reg
new_reg-none p = (
  λ e. elim (Bool-cases (ltb regs_limit (length p.rstack + 1))) [
    | inl full ↦ inl (ground arith)
    | inr room ↦ inr (λ k. first_free-none p.used regs_limit 0 (ground arith) k (omega arith))
  ],
  λ full. elim full [
    | inl f ↦ let over : ltb regs_limit (length p.rstack + 1) ≡ true = ground arith in rw over refl
    | inr f ↦ elim (Option-cases (first_free p.used regs_limit 0)) [
      | inl gone ↦ ground arith
      | inr (k, found) ↦
          let (lo, hi, free, below) = first_free-lowest p.used regs_limit 0 k found in
          let busy = f k in ground arith
    ]
  ],
)

-- On a sound state, popping a register that new_reg has just returned gives back that register,
-- the stack and the pins as they were, and the set of used registers as it was.
pub pop_reg-new_reg :
    (p q : Regs) (r : ℕ)
    → IsSound p
    → new_reg p ≡ some (r, q)
    → (t : Regs) × (pop_reg q ≡ some (r, t))
      × (t.rstack ≡ p.rstack)
      × (t.pinned ≡ p.pinned)
      × ((k : ℕ) → get t.used k ≡ get p.used k)
pop_reg-new_reg p q r s e =
    let (found, same) = new_reg_parts p q r e in
    let (lo, hi, free, below) = first_free-lowest p.used regs_limit 0 r found in
    let pins = s.pins_used r in
    let unpinned : get p.pinned r ≡ false = ground arith in
    rw same (
      let (t, popped, sound, stack, pinned, used) =
        pop_reg-IsSound (push r p) (rw (sym same) (new_reg-IsSound p s q r e)) r p.rstack refl in
      (
        t,
        popped,
        stack,
        pinned,
        λ k. let set_k = used_after p s r hi k in let at = used k in ground arith,
      ))
