-- ===== src/Value.antt =====
-- Values of the language: src/core/rt/value/main.h in the build without NaN tagging, where a
-- value is a tag and its data. The int32_t of a boolean is a Bool: 0, or any other number. A string is the list of its bytes; a function or a struct is the
-- address of its object. Double arithmetic is that of the machine, a parameter.
pub mod Ops
pub mod Compare
pub mod Laws
pub mod Nan
use aument.Prelude.{ℕ, Bool, true, false, List, [], ◌∷◌, ltb, ◌&&◌, not, ◌==◌}
use aument.Word.{ilt}

-- IEEE doubles: conversion from an `int`, the operators, and the comparisons.
pub record Float : Type 1 where
  pub Double : Type 0
  pub of_int : ℕ → Double
  pub add : Double → Double → Double
  pub sub : Double → Double → Double
  pub mul : Double → Double → Double
  pub div : Double → Double → Double
  pub lt : Double → Double → Bool
  pub gt : Double → Double → Bool
  pub leq : Double → Double → Bool
  pub geq : Double → Double → Bool
  pub eq : Double → Double → Bool
  pub neq : Double → Double → Bool

pub data Vtype : Type 0 where
  double none int bool fn str struct error : Vtype

pub data Value (D : Type 0) : Type 0 where
  double : D → Value D
  none : Value D
  int : ℕ → Value D
  bool : Bool → Value D
  fn : ℕ → Value D
  str : List ℕ → Value D
  struct : ℕ → Value D
  error : Value D

unfoldable pub get_type : {D : Type 0} → Value D → Vtype
get_type (double d) = Vtype.double
get_type none = Vtype.none
get_type (int n) = Vtype.int
get_type (bool b) = Vtype.bool
get_type (fn a) = Vtype.fn
get_type (str s) = Vtype.str
get_type (struct a) = Vtype.struct
get_type error = Vtype.error

unfoldable pub is_error : {D : Type 0} → Value D → Bool
is_error error = true
is_error _ = false

unfoldable pub is_truthy : (fl : Float) → Value fl.Double → Bool
unfolding ilt
is_truthy fl (int n) = ilt 0 n
is_truthy fl (double d) = fl.gt d (fl.of_int 0)
is_truthy fl (bool b) = b
is_truthy fl (str []) = false
is_truthy fl (str (c ∷ s)) = true
is_truthy fl _ = false
