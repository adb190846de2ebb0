-- ===== src/Parser/Statements/Control/Layout.antt =====
-- How a jump offset is written into code that is already there.
use aument.Prelude.{
  ℕ, ◌+◌, ◌/◌, ◌%◌, ◌^◌, ◌≡◌, refl, inl, inr, sym, Bool, true, false, ◌&&◌, List, [], ◌∷◌, ◌++◌,
  ltb, if◌then◌else◌, length, arith, ltb→lt, Bool-cases, length-append, append_assoc,
}
use aument.Parser.Emit.Patch.{replace_at}
use aument.Parser.State.{Parser, Result, ok, failed, bytecode_gen, with_code, replace, ◌>>◌}
use aument.Parser.Statements.{patch}

-- a jump: its opcode, its register, and how many instructions it passes over
abbrev pub jump : ℕ → ℕ → ℕ → List ℕ
jump op r n = op ∷ (r ∷ ((n % 256) ∷ ((n / 256 % 256) ∷ [])))

-- A jump with any offset in it, after xs and before ys, gets the offset n, or n is too large.
pub patch_lem :
    (idx n : ℕ) (p : Parser) (xs ys : List ℕ) (op r c d : ℕ)
    → idx ≡ length xs + 2
    → p.out.bc ≡ xs ++ (op ∷ (r ∷ (c ∷ (d ∷ ys))))
    → patch idx n p ≡ (
        if ltb n (2 ^ 16)
        then ok (tt, with_code (xs ++ (jump op r n ++ ys)) p)
        else failed bytecode_gen)
unfolding patch replace
patch_lem idx n p xs ys op r c d place code = elim (Bool-cases (ltb n (2 ^ 16))) [
  | inl small ↦
      let same : n % 2 ^ 16 ≡ n = let h = ltb→lt n (2 ^ 16) small in omega arith in
      rw small (rw same (rw (replace_at idx n p.out.bc xs ys op r c d place code) refl))
  | inr large ↦ rw large refl
]

-- Two jumps, with code between them and after them, get their offsets one after the other.
pub patch-patch :
    (i n j k : ℕ) (p : Parser) (xs ys zs : List ℕ) (op r op' r' c d c' d' : ℕ)
    → i ≡ length xs + 2
    → j ≡ length xs + length ys + 6
    → p.out.bc ≡ xs ++ (op ∷ (r ∷ (c ∷ (d ∷ (ys ++ (op' ∷ (r' ∷ (c' ∷ (d' ∷ zs)))))))))
    → (patch i n >> patch j k) p ≡ (
        if ltb n (2 ^ 16) && ltb k (2 ^ 16)
        then ok (tt, with_code (xs ++ (jump op r n ++ (ys ++ (jump op' r' k ++ zs)))) p)
        else failed bytecode_gen)
patch-patch i n j k p xs ys zs op r op' r' c d c' d' first second code =
    let once = patch_lem i n p xs (ys ++ (op' ∷ (r' ∷ (c' ∷ (d' ∷ zs))))) op r c d first code in
    elim (Bool-cases (ltb n (2 ^ 16))) [
      | inl small ↦
          let front = xs ++ (jump op r n ++ ys) in
          let q = with_code (xs ++ (jump op r n ++ (ys ++ (op' ∷ (r' ∷ (c' ∷ (d' ∷ zs))))))) p in
          let regroup : (zs' : List ℕ) → front ++ zs' ≡ xs ++ (jump op r n ++ (ys ++ zs')) =
            λ zs'. append_assoc xs (jump op r n ++ ys) zs' in
          let place : j ≡ length front + 2 =
            let a = length-append xs (jump op r n ++ ys) in omega (arith) in
          let twice =
            patch_lem j k q front zs op' r' c' d' place
              (sym (regroup (op' ∷ (r' ∷ (c' ∷ (d' ∷ zs)))))) in
          rw once (rw small (rw twice (rw (regroup (jump op' r' k ++ zs)) refl)))
      | inr large ↦ rw once (rw large refl)
    ]

-- The value of a test under which a result is `ok`.
pub passed :
    (x y : Bool) (p q : Parser)
    → if◌then◌else◌ {A = Result (Unit {0} × Parser)} (x && y) (ok (tt, p)) (failed bytecode_gen)
      ≡ ok (tt, q)
    → (x ≡ true) × (y ≡ true) × (p ≡ q)
passed true true p q e = (refl, refl, (cc))
passed true false p q e = absurd (cc)
passed false y p q e = absurd (cc)
