-- ===== src/IrCode/Packing.antt =====
-- About the operands of src/semantics/ir/ircode.ts that hold two numbers.
use wasmnizer_ts.IrCode.{call_index, pack_call, param_count}
use wasmnizer_ts.Base.{arith, ℕ, ◌+◌, ◌<◌, ◌^◌, ◌≡◌}

-- The operand of a call by vtable, shape or name gives back the index and the number of parameters,
-- when the index is below 2 ^ 23 and there are at most 255 parameters. A 256th parameter is lost: a
-- call with 256 more has the same operand.
pub pack_call_lem :
    (i n : ℕ)
    → i < 2 ^ 23
    → n < 2 ^ 8
    → (call_index (pack_call i n) ≡ i)
      × (param_count (pack_call i n) ≡ n)
      × (pack_call i (n + 2 ^ 8) ≡ pack_call i n)
unfolding pack_call param_count call_index
pack_call_lem i n h k = ground arith
