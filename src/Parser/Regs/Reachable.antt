-- ===== src/Parser/Regs/Reachable.antt =====
-- The states of the register allocator of src/core/parser/impl/regs.c between flushes of its cache.
use aument.Prelude.{ℕ, ◌<◌, ◌≡◌, refl, some, List, [], ◌∷◌, arith}
use aument.Parser.Regs.{
  Regs, regs_limit, init, new_reg, swap_top_regs, pop_reg, flush_free_regs, OwnedReg,
  pop_reg_take_ownership, del_reg_from_ownership,
}
use aument.Parser.Regs.Sound.{occurrences, IsSound}
use aument.Parser.Regs.Moves.{
  init-IsSound, new_reg-IsSound, swap_top_regs-IsSound, flush_free_regs-IsSound, pop_reg-IsSound,
  pop_reg_take_ownership-IsSound, del_reg_from_ownership-IsSound,
}

-- A register that is given back is off the stack.
pub data Step : Regs → Regs → Type 0 where
  allocated : {p q : Regs} (r : ℕ) → new_reg p ≡ some (r, q) → Step p q
  swapped : {p q : Regs} → swap_top_regs p ≡ some q → Step p q
  popped : {p q : Regs} (r : ℕ) → pop_reg p ≡ some (r, q) → Step p q
  owned : {p q : Regs} (o : OwnedReg) → pop_reg_take_ownership p ≡ some (o, q) → Step p q
  given_back :
      {p q : Regs} (o : OwnedReg)
      → o.reg < regs_limit
      → occurrences p.rstack o.reg ≡ 0
      → q ≡ del_reg_from_ownership p o
      → Step p q
  freed : {p q : Regs} → q ≡ flush_free_regs p → Step p q

pub data Reachable : Regs → Type 0 where
  start : Reachable init
  after : {p q : Regs} → Reachable p → Step p q → Reachable q

pop_reg-IsSound-stack :
    (p q : Regs) (r : ℕ) (stack : List ℕ)
    → p.rstack ≡ stack
    → IsSound p
    → pop_reg p ≡ some (r, q)
    → IsSound q
unfolding pop_reg
pop_reg-IsSound-stack p q r [] e s h = absurd (let empty = rw e at h in cc)
pop_reg-IsSound-stack p q r (top ∷ rest) e s h =
    let (q', made, sound, _, _, _) = pop_reg-IsSound p s top rest e in
    let same : q' ≡ q = ground arith in rw (← same) sound

owned-IsSound-stack :
    (p q : Regs) (o : OwnedReg) (stack : List ℕ)
    → p.rstack ≡ stack
    → IsSound p
    → pop_reg_take_ownership p ≡ some (o, q)
    → IsSound q
unfolding pop_reg_take_ownership
owned-IsSound-stack p q o [] e s h = absurd (let empty = rw e at h in cc)
owned-IsSound-stack p q o (top ∷ rest) e s h =
    let (_, q', made, sound, _, _, _, _) = pop_reg_take_ownership-IsSound p s top rest e in
    let same : q' ≡ q = ground arith in rw (← same) sound

Step-IsSound : {p q : Regs} → Step p q → IsSound p → IsSound q
Step-IsSound {p} {q} (allocated r e) s = new_reg-IsSound p s q r e
Step-IsSound {p} {q} (swapped e) s = swap_top_regs-IsSound p s q e
Step-IsSound {p} {q} (popped r e) s = pop_reg-IsSound-stack p q r p.rstack refl s e
Step-IsSound {p} {q} (owned o e) s = owned-IsSound-stack p q o p.rstack refl s e
Step-IsSound {p} (given_back o small gone e) s =
    rw e (del_reg_from_ownership-IsSound p o s small gone)
Step-IsSound {p} (freed e) s = rw e (flush_free_regs-IsSound p s)

-- Every state that is reached from the start by allocations, swaps, pops, taking ownership, giving back
-- the ownership of a register below AU_REGS that is off the stack, and flushes of the free registers is
-- sound: the registers on its stack are in use, below AU_REGS, counted by num_registers, and stand
-- there twice only when pinned. Pushes of cached registers and flushes of the cache are not among these steps.
pub Reachable-IsSound : {p : Regs} → Reachable p → IsSound p
Reachable-IsSound start = init-IsSound
Reachable-IsSound (after before step) = Step-IsSound step (Reachable-IsSound before)
