-- ===== src/Tcp/Sequence.antt =====
-- Initial sequence numbers of src/net/tcp.rs are 32-bit numbers: an exclusive or of such numbers.
use Prim.Native.Nat.{bit_xor, digits, differ, bit_xor-bitwise}
use native.Mathlib.Nat.{pow-suc}
use rustos.Prelude.{ℕ, zero, suc, ◌/◌, ◌%◌, ◌^◌, ◌<◌, sym, subst, arith}

differ_lt : (x y : ℕ) → x < 2 → y < 2 → differ x y < 2
differ_lt zero y hx hy = hy
differ_lt (suc x) zero hx hy = hx
differ_lt (suc zero) (suc zero) hx hy = omega arith
differ_lt (suc zero) (suc (suc y)) hx hy = absurd (omega arith)
differ_lt (suc (suc x)) (suc y) hx hy = absurd (omega arith)

digits_lt : (k n a b : ℕ) → a < 2 ^ k → b < 2 ^ k → digits (λ b. b) differ n a b < 2 ^ k
digits_lt k zero a b ha hb = hb
digits_lt k (suc n) zero b ha hb = hb
digits_lt zero (suc n) (suc a) b ha hb = absurd (omega arith)
digits_lt (suc k) (suc n) (suc a) b ha hb =
    let twice = pow-suc 2 k in
    let rest = digits_lt k n (suc a / 2) (b / 2) (omega arith) (omega arith) in
    let last = differ_lt (suc a % 2) (b % 2) (omega arith) (omega arith) in omega arith

pub bit_xor-lt : (k a b : ℕ) → a < 2 ^ k → b < 2 ^ k → bit_xor a b < 2 ^ k
bit_xor-lt k a b ha hb =
    subst (λ x. x < 2 ^ k) (sym (bit_xor-bitwise a b)) (digits_lt k a a b ha hb)
