-- ===== src/Parser/Regs/Moves.antt =====
-- The operations of src/core/parser/impl/regs.c on sound states.
use aument.Prelude.{
  ℕ, ◌+◌, ◌<◌, ◌≡◌, refl, sym, inl, inr, true, false, ◌&&◌, ◌||◌, not, some, List, [], ◌∷◌, arith,
  ◌==◌, if◌then◌else◌, Bool-cases, Option-cases,
}
use mathlib.Core.Option.{some-injective}
use aument.BitArray.{get, set_at, reset_at, length-set_at, length-reset_at}
use aument.Parser.Regs.{
  Regs, regs_limit, init, first_free, push, new_reg, swap_top, swap_top_regs, set_reg_unused,
  pop_reg, flush_free_regs, OwnedReg, pop_reg_take_ownership, del_reg_from_ownership,
}
use aument.Parser.Regs.Sound.{
  occurrences, IsSound, push-IsSound, used_before, pinned_after, pinned_before, first_free-lowest,
}

module _ (p q : Regs) (r : ℕ) (e : new_reg p ≡ some (r, q)) where
  pub new_reg_parts : (first_free p.used regs_limit 0 ≡ some r) × (q ≡ push r p)
  unfolding new_reg
  new_reg_parts = elim (Option-cases (first_free p.used regs_limit 0)) [
    | inl none_left ↦ ground arith
    | inr (k, found) ↦ ground arith
  ]

pub init-IsSound : IsSound init
unfolding occurrences
init-IsSound = record {
  used_len = refl;
  pinned_len = refl;
  on_stack = λ k h. ground arith;
  stack_used = λ k h. ground arith;
  unshared = λ k h. ground arith;
  pins_used = λ k h. ground arith;
  counted = λ k h. ground arith;
}

swap_top-occurrences :
    (xs ys : List ℕ) → swap_top xs ≡ some ys → (k : ℕ) → occurrences ys k ≡ occurrences xs k
unfolding occurrences
swap_top-occurrences [] ys e k = ground arith
swap_top-occurrences (a ∷ []) ys e k = ground arith
swap_top-occurrences (a ∷ (b ∷ rest)) ys e k =
    rw (sym (some-injective (b ∷ (a ∷ rest)) ys e)) (omega arith)

swap_parts :
    (p q : Regs)
    → swap_top_regs p ≡ some q
    → (ys : List ℕ) × (swap_top p.rstack ≡ some ys) × (q ≡ record p { rstack = ys })
unfolding swap_top_regs
swap_parts p q e = elim (Option-cases (swap_top p.rstack)) [
  | inl short ↦ ground arith
  | inr (ys, swapped) ↦ (ys, swapped, ground arith)
]

module _ (p : Regs) (s : IsSound p) where
  pub new_reg-IsSound : (q : Regs) (r : ℕ) → new_reg p ≡ some (r, q) → IsSound q
  new_reg-IsSound q r e =
      let (found, same) = new_reg_parts p q r e in
      let (lo, hi, free, below) = first_free-lowest p.used regs_limit 0 r found in
      rw same (push-IsSound p s r hi (λ h. let busy = s.stack_used r in ground arith))

  -- Swapping the two top registers, where it does not abort, keeps a sound state sound.
  pub swap_top_regs-IsSound : (q : Regs) → swap_top_regs p ≡ some q → IsSound q
  swap_top_regs-IsSound q e =
      let (ys, swapped, same) = swap_parts p q e in
      let count = swap_top-occurrences p.rstack ys swapped in
      rw same record {
        used_len = s.used_len;
        pinned_len = s.pinned_len;
        on_stack = λ k. rw count (s.on_stack k);
        stack_used = λ k. rw count (s.stack_used k);
        unshared = λ k. rw count (s.unshared k);
        pins_used = s.pins_used;
        counted = λ k. rw count (s.counted k);
      }

  -- Clearing the register stack keeps a sound state sound.
  pub flush_free_regs-IsSound : IsSound (flush_free_regs p)
  unfolding flush_free_regs occurrences
  flush_free_regs-IsSound = record {
    used_len = s.pinned_len;
    pinned_len = s.pinned_len;
    on_stack = λ k h. ground arith;
    stack_used = λ k h. ground arith;
    unshared = λ k h. ground arith;
    pins_used = λ k h. h;
    counted = λ k h. ground arith;
  }

module _ (p : Regs) (s : IsSound p) (r : ℕ) (rest : List ℕ) (e : p.rstack ≡ r ∷ rest) where
  occurrences_top :
      (k : ℕ) → occurrences p.rstack k ≡ (if r == k then 1 else 0) + occurrences rest k
  unfolding occurrences
  occurrences_top k = rw e

  pub top_small : r < regs_limit
  top_small = s.on_stack r (rw occurrences_top (ground arith))

  top_used : get p.used r ≡ true
  top_used = s.stack_used r (rw occurrences_top (ground arith))

  -- with the top gone
  popped-IsSound : IsSound (record p { rstack = rest })
  popped-IsSound = record {
    used_len = s.used_len;
    pinned_len = s.pinned_len;
    on_stack = λ k h. let a = occurrences_top k in let b = s.on_stack k in ground arith;
    stack_used = λ k h. let a = occurrences_top k in let b = s.stack_used k in ground arith;
    unshared = λ k h. let a = occurrences_top k in let b = s.unshared k in ground arith;
    pins_used = s.pins_used;
    counted = λ k h. let a = occurrences_top k in let b = s.counted k in ground arith;
  }

  -- with the top gone and free
  freed-IsSound :
      get p.pinned r ≡ false → IsSound (record p { rstack = rest; used = reset_at p.used r })
  freed-IsSound free = record {
    used_len = rw (length-reset_at p.used r) s.used_len;
    pinned_len = s.pinned_len;
    on_stack = popped-IsSound.on_stack;
    stack_used = λ k h.
        let a = occurrences_top k in
        let b = s.stack_used k in
        let c = s.unshared k in rw (used_before p s r top_small) (ground arith);
    unshared = popped-IsSound.unshared;
    pins_used = λ k h. let old = s.pins_used k in rw (used_before p s r top_small) (ground arith);
    counted = popped-IsSound.counted;
  }

  -- with the top gone and pinned
  owned-IsSound : IsSound (record p { rstack = rest; pinned = set_at p.pinned r })
  owned-IsSound = record {
    used_len = s.used_len;
    pinned_len = rw (length-set_at p.pinned r) s.pinned_len;
    on_stack = popped-IsSound.on_stack;
    stack_used = popped-IsSound.stack_used;
    unshared = λ k.
        rw (pinned_after p s r top_small)
          (λ h. let old = popped-IsSound.unshared k in ground arith);
    pins_used = λ k.
        rw (pinned_after p s r top_small)
          (λ h. let old = s.pins_used k in let busy = top_used in ground arith);
    counted = popped-IsSound.counted;
  }

  -- On a sound state with register r on top, popping gives r and never aborts. The stack loses its
  -- top, the pins stay, r is free afterwards exactly when it is not pinned, all other registers
  -- are as they were, and the state is sound.
  pub pop_reg-IsSound :
      (q : Regs) × (pop_reg p ≡ some (r, q))
      × IsSound q
      × (q.rstack ≡ rest)
      × (q.pinned ≡ p.pinned)
      × ((k : ℕ) → get q.used k ≡ (get p.pinned r || not (r == k)) && get p.used k)
  unfolding pop_reg set_reg_unused
  pop_reg-IsSound = elim (Bool-cases (get p.pinned r)) [
    | inl pin ↦ rw (e, pin) (_, refl, popped-IsSound, refl, refl, λ k. refl)
    | inr free ↦
        rw (e, free, top_used)
          (_, refl, freed-IsSound free, refl, refl, λ k. used_before p s r top_small k)
  ]

  -- On a sound state with register r on top, taking ownership gives r, off the stack and pinned,
  -- owned exactly when it was not pinned before, and the state is sound.
  pub pop_reg_take_ownership-IsSound :
      (o : OwnedReg) × (q : Regs) × (pop_reg_take_ownership p ≡ some (o, q))
      × IsSound q
      × (o.reg ≡ r)
      × (get q.pinned r ≡ true)
      × (o.is_owned ≡ not (get p.pinned r))
      × (q.rstack ≡ rest)
  unfolding pop_reg_take_ownership
  pop_reg_take_ownership-IsSound = elim (Bool-cases (get p.pinned r)) [
    | inl pin ↦ rw (e, pin) (_, _, refl, popped-IsSound, refl, pin, refl, refl)
    | inr free ↦
        rw (e, free)
          (
            _,
            _,
            refl,
            owned-IsSound,
            refl,
            rw (pinned_after p s r top_small) (ground arith),
            refl,
            refl,
          )
  ]

-- Giving back a register below AU_REGS that is not on the stack keeps a sound state sound, owned
-- or not.
pub del_reg_from_ownership-IsSound :
    (p : Regs) (o : OwnedReg)
    → IsSound p
    → o.reg < regs_limit
    → occurrences p.rstack o.reg ≡ 0
    → IsSound (del_reg_from_ownership p o)
unfolding del_reg_from_ownership
del_reg_from_ownership-IsSound p o s small gone = elim (Bool-cases o.is_owned) [
  | inl own ↦ rw own record {
    used_len = rw (length-reset_at p.used o.reg) s.used_len;
    pinned_len = rw (length-reset_at p.pinned o.reg) s.pinned_len;
    on_stack = s.on_stack;
    stack_used = λ k h. let old = s.stack_used k in rw (used_before p s o.reg small) (ground arith);
    unshared =
        λ k. rw (pinned_before p s o.reg small) (λ h. let old = s.unshared k in ground arith);
    pins_used = λ k.
        rw (used_before p s o.reg small, pinned_before p s o.reg small)
          (λ h. let old = s.pins_used k in ground arith);
    counted = s.counted;
  }
  | inr lent ↦ rw lent s
]
