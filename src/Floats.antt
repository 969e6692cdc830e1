-- ===== src/Floats.antt =====
-- Floating-point numbers, `f32` and `f64`: a parameter of the model, with the operations that the
-- program uses, without laws.
use php_sdsearch.Prelude.{ℕ, List, Bool, Option}
use mathlib.Core.Ordering.{Ordering}

pub record Float (F : Type 0) : Type 0 where
  -- `decimal m k` is the literal of `m` with `k` decimal places.
  pub decimal : ℕ → ℕ → F
  -- `as f32` of an integer
  pub of_nat : ℕ → F
  pub add : F → F → F
  pub sub : F → F → F
  pub mul : F → F → F
  pub div : F → F → F
  pub max : F → F → F
  pub ln : F → F
  pub sqrt : F → F
  -- `iter().sum()`
  pub sum : List F → F
  -- `>`, `>=`
  pub gt : F → F → Bool
  pub ge : F → F → Bool
  pub partial_cmp : F → F → Option Ordering

pub record Floats : Type 1 where
  pub F32 : Type 0
  pub F64 : Type 0
  pub single : Float F32
  pub double : Float F64
  -- `f64::from`, `as f32`
  pub widen : F32 → F64
  pub narrow : F64 → F32
  -- `(x as i64) < n`
  pub int_lt : F64 → ℕ → Bool
