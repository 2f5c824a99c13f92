-- ===== src/Sys/Return/RoundTrip.antt =====
-- The register encoding of syscall returns, read back.
use mcr.Prelude.{ℕ, zero, suc, ◌-◌, ◌^◌, ◌≤◌, ◌<◌, ◌≡◌, arith}
use mcr.Sys.Errno.{max_errno}
use mcr.Sys.Return.{SyscallReturn, success, errno, encode_u64, decode_rax}

-- The returns that the encoding keeps apart: an errno in 1..4095, and a value below the 4095 words
-- at the top of the address space.
pub data Encodable : SyscallReturn → Type 0 where
  value : {v : ℕ} → v < 2 ^ 64 - max_errno → Encodable (success v)
  error : {e : ℕ} → 1 ≤ e → e ≤ max_errno → Encodable (errno e)

-- Decoding the register of an encodable return gives the return back.
pub decode_rax-encode_u64 : (r : SyscallReturn) → Encodable r → decode_rax (encode_u64 r) ≡ r
unfolding decode_rax encode_u64
decode_rax-encode_u64 r (value h) = ground arith
decode_rax-encode_u64 r (error {e = zero} h k) = absurd (omega arith)
decode_rax-encode_u64 r (error {e = suc m} h k) = ground arith

-- Every 64-bit register value is the encoding of what it decodes to.
pub encode_u64-decode_rax : (raw : ℕ) → raw < 2 ^ 64 → encode_u64 (decode_rax raw) ≡ raw
unfolding decode_rax encode_u64
encode_u64-decode_rax raw h = ground arith
