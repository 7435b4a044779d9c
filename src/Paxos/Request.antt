-- ===== src/Paxos/Request.antt =====
-- `HandleRequest_main` of examples/electrode/fast_kern.c: client requests are kept back, and one of
-- each batch goes on to user space.
pub mod Laws
use dram_pvt_mk.Base.{
  ℕ, ◌+◌, ◌%◌, ◌^◌, ◌++◌, [], ◌∷◌, Bool, if◌then◌else◌, ltb, ◌==◌, Option, none, some, length, take,
  drop, add32,
}
use dram_pvt_mk.Base.Table.{store, or_return}
use dram_pvt_mk.Base.Bytes.{bytes_from, Packet, ◌>>=◌}
use dram_pvt_mk.Base.Xdp.{xdp_drop, xdp_pass}
use dram_pvt_mk.Paxos.{
  PaxosMaps, CtrState, PaxosRun, magic_len, request_type_len, fast_paxos_data_len, udp_payload,
  req_max_data_len,
}

abbrev pub request_body : ℕ
request_body = udp_payload + magic_len + 8 + request_type_len + fast_paxos_data_len

-- `(counter + 1) % batchSize` on `__u32`; C leaves the remainder by 0 undefined.
unfoldable pub next_counter : ℕ → ℕ → Option ℕ
next_counter counter batch_size =
    if batch_size == 0 then none else some (add32 counter 1 % batch_size)

-- The source port, the source address and the bytes of the request that lie in the packet.
unfoldable pub buffer_request : PaxosMaps → Packet → Bool → PaxosMaps
buffer_request m p room =
    if room
    then record m {
      request_buffer =
          m.request_buffer
          ++ ((bytes_from p 34 2
                ++ (bytes_from p 26 4 ++ bytes_from p request_body req_max_data_len))
              ∷ []);
    }
    else m

-- What follows the lookups: `num` is the new counter, and the maps hold it.
unfoldable pub batch_request : PaxosMaps → Packet → Bool → ℕ → PaxosRun
unfolding buffer_request
batch_request m p room num =
    let pass : PaxosRun = record { maps = m; packet = p; verdict = xdp_pass } in
    if num == 0
    then pass
    else if ltb (request_body + req_max_data_len) (length p)
    then pass
    else (record { maps = buffer_request m p room; packet = p; verdict = xdp_drop })

-- `room` tells whether `bpf_ringbuf_reserve` gives a buffer.
unfoldable pub handle_request : PaxosMaps → Packet → Bool → Option PaxosRun
unfolding next_counter batch_request
handle_request m p room =
    let pass : Option PaxosRun = some (record { maps = m; packet = p; verdict = xdp_pass }) in
    if ltb (length p) request_body
    then pass
    else or_return (m.batch_context 0) pass λ counter. or_return (m.ctr_state 0) pass λ ctr.
      next_counter counter ctr.batch_size >>= λ num.
      some (batch_request (record m { batch_context = store m.batch_context 0 num }) p room num)
