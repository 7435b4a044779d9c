-- ===== src/Hash/Gather.antt =====
-- The pointer chase of examples/symbolic_addr_gather/do_gather.c, and the summaries of
-- do_gather_stub.c and do_gather_stub_gen.c there.
pub mod Summary
use dram_pvt_mk.Base.{ℕ, zero, suc, ◌-◌, ◌<◌, ◌≤◌, bit_and, bit_xor}
use dram_pvt_mk.Base.Table.{Table, or_return}

-- The default of CHAIN.
abbrev pub chain : ℕ
chain = 128

abbrev pub tbl_size : ℕ
tbl_size = 256

-- The first argument counts the rounds left.
unfoldable pub gather_loop : ℕ → Table ℕ → ℕ → ℕ → ℕ
gather_loop zero tbl idx acc = acc
gather_loop (suc left) tbl idx acc =
    or_return (tbl idx) acc
      λ v. let idx' = bit_and v (tbl_size - 1) in gather_loop left tbl idx' (bit_xor acc idx')

unfoldable pub do_gather : ℕ → Table ℕ → ℕ → ℕ
do_gather n tbl start_idx = gather_loop n tbl (bit_and start_idx (tbl_size - 1)) 0

-- The results that `klee_assume` lets through.
abbrev pub GatherStub : ℕ → Type 0
GatherStub acc = acc < tbl_size

abbrev pub GatherStubGen : ℕ → Type 0
GatherStubGen result = result ≤ 255
