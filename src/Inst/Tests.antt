-- ===== src/Inst/Tests.antt =====
-- Tests of instruction words.
use reduct.Prelude.{◌≡◌, arith}
use reduct.Prelude.Int.{pos}
use reduct.Inst.{get_op, get_c, get_sax, set_sax}
use reduct.Inst.Fields.{get-set_sax}

get-set_sax_example :
    (get_op (set_sax 0x12345678 (pos 300)) ≡ get_op 0x12345678)
    × (get_sax (set_sax 0x12345678 (pos 300)) ≡ pos 300)
    × (get_c (set_sax 0x12345678 (pos 300)) ≡ get_c 0x12345678)
get-set_sax_example = get-set_sax 0x12345678 (pos 300) (omega arith) (tt, omega arith)
