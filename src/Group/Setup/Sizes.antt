-- ===== src/Group/Setup/Sizes.antt =====
-- The size of a message's array.
use old_derecho.Base.{
  ℕ, ◌+◌, ◌*◌, ◌/◌, ◌%◌, ◌≤◌, ◌<◌, ◌≡◌, refl, ◌∙◌, inl, inr, false, some, ◌==◌, arith, Bool-cases,
}
use native.Mathlib.Nat.{div-add-mod, mod-lt, mod-eq_of_lt, mul-mod_left, mul_comm, div-le_self}
use old_derecho.Group.{compute_max_msg_size, sizeof_header, u64}

-- An array is rounded up to whole blocks: it has room for the header and the largest payload, with
-- less than a block to spare, and its size is a multiple of the block size, if header, payload and
-- a block more stay below 2^64.
pub compute_max_msg_size_bounds :
    (max_payload_size block_size : ℕ)
    → 0 < block_size
    → max_payload_size + sizeof_header + block_size < u64
    → (m : ℕ) × (compute_max_msg_size max_payload_size block_size ≡ some m)
      × (max_payload_size + sizeof_header ≤ m)
      × (m < max_payload_size + sizeof_header + block_size)
      × (m % block_size ≡ 0)
unfolding compute_max_msg_size
compute_max_msg_size_bounds p b h fits =
    let size = p + sizeof_header in
    let small : size % u64 ≡ size = mod-eq_of_lt (omega (arith, fits)) in
    let block : (b == 0) ≡ false = ground (arith, h) in
    let whole = div-add-mod size b in
    let rest = mod-lt size h in
    elim (Bool-cases (size % b == 0)) [
      | inl even ↦ (
        size,
        rw (compute_max_msg_size, block, small, even) refl,
        omega arith,
        omega (arith, h),
        ground (arith, even),
      )
      | inr odd ↦
          let m = (size / b + 1) * b in
          let parts : m ≡ b * (size / b) + b = mul_comm (size / b + 1) b ∙ ground arith in
          let some_rest : 0 < size % b = ground (arith, odd) in
          let quotient : (size / b + 1) % u64 ≡ size / b + 1 =
            mod-eq_of_lt (omega (arith, div-le_self size b, fits, h)) in
          let product : m % u64 ≡ m = mod-eq_of_lt (omega (arith, parts, whole, rest, fits)) in
          (
            m,
            rw (compute_max_msg_size, block, small, odd, quotient, product) refl,
            omega (arith, parts, whole, rest),
            omega (arith, parts, whole, some_rest),
            mul-mod_left (size / b + 1) b,
          )
    ]
