-- ===== src/IrCode/Tests.antt =====
-- Runs of the packing of operands of src/semantics/ir/ircode.ts.
use wasmnizer_ts.IrCode.{call_index, pack_call, param_count}
use wasmnizer_ts.IrCode.Packing.{pack_call_lem}
use wasmnizer_ts.Base.{arith, ◌≡◌}

pack_call_lem_example :
    (call_index (pack_call 4660 3) ≡ 4660)
    × (param_count (pack_call 4660 3) ≡ 3)
    × (pack_call 4660 259 ≡ pack_call 4660 3)
pack_call_lem_example = pack_call_lem 4660 3 (omega arith) (omega arith)
