-- ===== src/Common/Signed.antt =====
-- Signed integers over the native numbers; `negsuc n` is -(n + 1).
use mathlib.Core.Bool.{Bool, true, false}
use native.Mathlib.Omega.{arith}
use pgmem.Common.Tests.{nat_eq}
use Prim.Native.Nat.{ℕ}
use mathlib.Core.Path.{◌≡◌, refl}
use mathlib.Core.Logic.{◌↔◌, ◌⊎◌, inl, inr}

pub data ℤ : Type 0 where
  pos : ℕ → ℤ
  negsuc : ℕ → ℤ

pub ℤ-cases : (a : ℤ) → ((n : ℕ) × (a ≡ pos n)) ⊎ ((n : ℕ) × (a ≡ negsuc n))
ℤ-cases (pos n) = inl (n, refl)
ℤ-cases (negsuc n) = inr (n, refl)

-- == of integers
abbrev pub int_eq : ℤ → ℤ → Bool
int_eq (pos m) (pos n) = nat_eq m n
int_eq (negsuc m) (negsuc n) = nat_eq m n
int_eq (pos m) (negsuc n) = false
int_eq (negsuc m) (pos n) = false

pub int_eq_iff : (a b : ℤ) → (int_eq a b ≡ true) ↔ (a ≡ b)
int_eq_iff a b = ground arith
