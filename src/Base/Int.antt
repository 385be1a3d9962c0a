-- ===== src/Base/Int.antt =====
-- Signed integers over the native numbers, with the test that the code makes on an `i64`.
use Prim.Native.Nat.{ℕ}
use mathlib.Core.Bool.{Bool, true, false}
use mathlib.Core.Path.{◌≡◌, refl}
use mathlib.Core.Logic.{◌↔◌}
use native.Mathlib.Omega.{arith}
use hmux.Base.Tests.{◌==◌, leb}

-- `negsuc n` is -(n + 1).
pub data ℤ : Type 0 where
  pos : ℕ → ℤ
  negsuc : ℕ → ℤ

-- `n == size as i64`, for a size that an `i64` holds.
abbrev pub is_pos : ℤ → ℕ → Bool
is_pos (pos n) size = n == size
is_pos (negsuc n) size = false

abbrev pub int_beq : ℤ → ℤ → Bool
int_beq (pos m) (pos n) = m == n
int_beq (negsuc m) (negsuc n) = m == n
int_beq (pos m) (negsuc n) = false
int_beq (negsuc m) (pos n) = false

pub int_beq_iff : (a b : ℤ) → (int_beq a b ≡ true) ↔ (a ≡ b)
int_beq_iff (pos m) (pos n) = (λ h. ground arith, λ h. ground arith)
int_beq_iff (negsuc m) (negsuc n) = (λ h. ground arith, λ h. ground arith)
int_beq_iff (pos m) (negsuc n) = (λ h. ground arith, λ h. ground arith)
int_beq_iff (negsuc m) (pos n) = (λ h. ground arith, λ h. ground arith)

-- The order of an `i64`.
abbrev pub int_leb : ℤ → ℤ → Bool
int_leb (pos m) (pos n) = leb m n
int_leb (negsuc m) (negsuc n) = leb n m
int_leb (pos m) (negsuc n) = false
int_leb (negsuc m) (pos n) = true

pub int_leb_refl : (a : ℤ) → int_leb a a ≡ true
int_leb_refl (pos m) = ground arith
int_leb_refl (negsuc m) = ground arith

pub int_leb_trans : (a b c : ℤ) → int_leb a b ≡ true → int_leb b c ≡ true → int_leb a c ≡ true
int_leb_trans (pos a) (pos b) (pos c) h k = ground arith
int_leb_trans (pos a) (pos b) (negsuc c) h k = ground arith
int_leb_trans (pos a) (negsuc b) (pos c) h k = ground arith
int_leb_trans (pos a) (negsuc b) (negsuc c) h k = ground arith
int_leb_trans (negsuc a) (pos b) (pos c) h k = refl
int_leb_trans (negsuc a) (pos b) (negsuc c) h k = ground arith
int_leb_trans (negsuc a) (negsuc b) (pos c) h k = refl
int_leb_trans (negsuc a) (negsuc b) (negsuc c) h k = ground arith

pub int_leb_total : (a b : ℤ) → int_leb a b ≡ false → int_leb b a ≡ true
int_leb_total (pos a) (pos b) h = ground arith
int_leb_total (pos a) (negsuc b) h = refl
int_leb_total (negsuc a) (pos b) h = ground arith
int_leb_total (negsuc a) (negsuc b) h = ground arith

abbrev pub is_negative : ℤ → Bool
is_negative (pos n) = false
is_negative (negsuc n) = true
