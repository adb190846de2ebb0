-- ===== src/Value/Laws/Strings.antt =====
-- `au_string_cmp` of src/core/rt/au_string.h as an order.
use Prim.Native.Nat.{Ordering}
use aument.Prelude.{ℕ, ◌≡◌, ◌↔◌, refl, arith, List, [], ◌∷◌, length}
use aument.Value.Compare.{memcmp, string_cmp}

abbrev pub flip : Ordering → Ordering
flip Ordering.lt = Ordering.gt
flip Ordering.eq = Ordering.eq
flip Ordering.gt = Ordering.lt

memcmp-flip : (s t : List ℕ) → memcmp t s ≡ flip (memcmp s t)
unfolding memcmp
memcmp-flip [] [] = refl
memcmp-flip [] (y ∷ t) = refl
memcmp-flip (x ∷ s) [] = refl
memcmp-flip (x ∷ s) (y ∷ t) = ground (arith, memcmp-flip s t)

-- Exchanging the operands exchanges less and greater.
pub string_cmp-flip : (s t : List ℕ) → string_cmp t s ≡ flip (string_cmp s t)
unfolding string_cmp
string_cmp-flip s t = ground (arith, memcmp-flip s t)

memcmp-eq : (s t : List ℕ) → length s ≡ length t → memcmp s t ≡ Ordering.eq → s ≡ t
unfolding memcmp
memcmp-eq [] [] h e = refl
memcmp-eq [] (y ∷ t) h e = absurd (omega arith)
memcmp-eq (x ∷ s) [] h e = absurd (omega arith)
memcmp-eq (x ∷ s) (y ∷ t) h e = ground (arith, memcmp-eq s t)

memcmp_refl : (s : List ℕ) → memcmp s s ≡ Ordering.eq
unfolding memcmp
memcmp_refl [] = refl
memcmp_refl (x ∷ s) = ground (arith, memcmp_refl s)

pub string_cmp_refl : (s : List ℕ) → string_cmp s s ≡ Ordering.eq
unfolding string_cmp
string_cmp_refl s = ground (arith, memcmp_refl s)

pub string_cmp-eq : (s t : List ℕ) → string_cmp s t ≡ Ordering.eq → s ≡ t
unfolding string_cmp
string_cmp-eq s t e = ground (arith, memcmp-eq s t)

memcmp_trans :
    (s t u : List ℕ)
    → length s ≡ length t
    → length t ≡ length u
    → memcmp s t ≡ Ordering.lt
    → memcmp t u ≡ Ordering.lt
    → memcmp s u ≡ Ordering.lt
unfolding memcmp
memcmp_trans [] t u h k e f = cc
memcmp_trans (x ∷ s) [] u h k e f = cc
memcmp_trans (x ∷ s) (y ∷ t) [] h k e f = cc
memcmp_trans (x ∷ s) (y ∷ t) (z ∷ u) h k e f =
    ground (arith, memcmp_trans s t u, memcmp-eq s t, memcmp-eq t u)

-- When a string is less than a second one and that is less than a third, the first is less than
-- the third.
pub string_cmp_trans :
    (s t u : List ℕ)
    → string_cmp s t ≡ Ordering.lt
    → string_cmp t u ≡ Ordering.lt
    → string_cmp s u ≡ Ordering.lt
unfolding string_cmp
string_cmp_trans s t u e f = ground (arith, memcmp_trans s t u)

-- Two strings compare as equal exactly when they are equal, and exchanging the operands exchanges
-- the sign of the result.
pub string_cmp_order :
    (s t : List ℕ)
    → ((string_cmp s t ≡ Ordering.eq) ↔ (s ≡ t)) × (string_cmp t s ≡ flip (string_cmp s t))
string_cmp_order s t = ((string_cmp-eq s t, λ e. rw (← e) (string_cmp_refl s)), string_cmp-flip s t)
