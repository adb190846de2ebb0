-- ===== src/Parser/Regs/Sound.antt =====
-- What register allocation guarantees: src/core/parser/impl/regs.c.
use aument.Prelude.{
  ℕ, zero, suc, ◌+◌, ◌≤◌, ◌<◌, ◌≡◌, inl, inr, true, false, ◌&&◌, ◌||◌, not, none, some, List, [],
  ◌∷◌, arith, ◌==◌, if◌then◌else◌, Bool-cases, length,
}
use aument.BitArray.{get, set_at, reset_at, get-set_at, get-reset_at, length-set_at}
use aument.Parser.Regs.{Regs, regs_limit, bitmap_len, first_free, push}

-- how often a register stands on the stack
unfoldable pub occurrences : List ℕ → ℕ → ℕ
occurrences [] r = 0
occurrences (x ∷ xs) r = (if x == r then 1 else 0) + occurrences xs r

-- Every register on the stack is in use, and only a pinned one stands there more than once.
pub record IsSound (p : Regs) : Type 0 where
  pub used_len : length p.used ≡ bitmap_len
  pub pinned_len : length p.pinned ≡ bitmap_len
  pub on_stack : (r : ℕ) → 0 < occurrences p.rstack r → r < regs_limit
  pub stack_used : (r : ℕ) → 0 < occurrences p.rstack r → get p.used r ≡ true
  pub unshared : (r : ℕ) → get p.pinned r ≡ false → occurrences p.rstack r ≤ 1
  pub pins_used : (r : ℕ) → get p.pinned r ≡ true → get p.used r ≡ true
  pub counted : (r : ℕ) → 0 < occurrences p.rstack r → r < p.num_registers

-- The search finds the first register that is not in use.
pub first_free-lowest :
    (used : List ℕ) (n i r : ℕ)
    → first_free used n i ≡ some r
    → (i ≤ r) × (r < i + n) × (get used r ≡ false) × ((k : ℕ) → i ≤ k → k < r → get used k ≡ true)
unfolding first_free
first_free-lowest used zero i r h = ground arith
first_free-lowest used (suc n) i r h = elim (Bool-cases (get used i)) [
  | inl e ↦
      let (a, b, c, d) = first_free-lowest used n (suc i) r (ground arith) in
      (omega arith, omega arith, c, λ k lo hi. let at = d k in ground arith)
  | inr e ↦
      let same : i ≡ r = ground arith in
      (omega arith, omega arith, ground arith, λ k lo hi. absurd (omega arith))
]

pub first_free-none :
    (used : List ℕ) (n i : ℕ)
    → first_free used n i ≡ none
    → (k : ℕ) → i ≤ k
    → k < i + n
    → get used k ≡ true
unfolding first_free
first_free-none used zero i h k lo hi = absurd (omega arith)
first_free-none used (suc n) i h k lo hi = elim (Bool-cases (get used i)) [
  | inl e ↦ let rest = first_free-none used n (suc i) (ground arith) k in ground arith
  | inr e ↦ ground arith
]

module _ (p : Regs) (s : IsSound p) (r : ℕ) (small : r < regs_limit) where
  pub used_after : (k : ℕ) → get (set_at p.used r) k ≡ (r == k) || get p.used k
  used_after k = get-set_at p.used r k (rw s.used_len (omega arith))

  pub used_before : (k : ℕ) → get (reset_at p.used r) k ≡ not (r == k) && get p.used k
  used_before k = get-reset_at p.used r k (rw s.used_len (omega arith))

  pub pinned_after : (k : ℕ) → get (set_at p.pinned r) k ≡ (r == k) || get p.pinned k
  pinned_after k = get-set_at p.pinned r k (rw s.pinned_len (omega arith))

  pub pinned_before : (k : ℕ) → get (reset_at p.pinned r) k ≡ not (r == k) && get p.pinned k
  pinned_before k = get-reset_at p.pinned r k (rw s.pinned_len (omega arith))

  pub push-IsSound : (get p.pinned r ≡ false → occurrences p.rstack r ≡ 0) → IsSound (push r p)
  unfolding occurrences
  push-IsSound fresh = record {
    used_len = rw (length-set_at p.used r) s.used_len;
    pinned_len = s.pinned_len;
    on_stack = λ k h. let old = s.on_stack k in ground arith;
    stack_used = λ k h. let old = s.stack_used k in rw used_after (ground arith);
    unshared = λ k h. let old = s.unshared k in ground arith;
    pins_used = λ k h. let old = s.pins_used k in rw used_after (ground arith);
    counted = λ k h. let old = s.counted k in ground arith;
  }
