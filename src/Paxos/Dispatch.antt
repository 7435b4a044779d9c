-- ===== src/Paxos/Dispatch.antt =====
-- `fastPaxos_main` of examples/electrode/fast_kern.c: which messages the fast path takes.
pub mod Laws
use dram_pvt_mk.Base.{
  ℕ, ◌+◌, ◌*◌, ◌^◌, Bool, true, false, not, ◌||◌, if◌then◌else◌, ltb, leb, ◌==◌, Option, none, some,
  length, drop,
}
use dram_pvt_mk.Base.Table.{store, or_return}
use dram_pvt_mk.Base.Bytes.{Packet, byte_at, half_at, word_at}
use dram_pvt_mk.Base.Xdp.{xdp_pass, ethhdr_size, iphdr_size, udphdr_size}
use dram_pvt_mk.Paxos.{PaxosMaps, PaxosRun, udp_payload, mtu, magic_len}
use dram_pvt_mk.Paxos.Message.{MessageType, compute_message_type}
use dram_pvt_mk.Paxos.Quorum
use dram_pvt_mk.Paxos.Prepare

-- The build flags FAST_REPLY and FAST_QUORUM_PRUNE.
pub record Flags : Type 0 where
  pub fast_reply : Bool
  pub fast_quorum_prune : Bool

-- The 64-bit length of the type name.
abbrev pub type_len : Packet → ℕ
type_len p = word_at p (udp_payload + magic_len) + 2 ^ 32 * word_at p (udp_payload + magic_len + 4)

-- Where the type name begins.
abbrev pub type_name : ℕ
type_name = udp_payload + magic_len + 8

-- What stands between a packet and the dispatch: any of these lets it pass. The port is compared
-- as it is loaded.
unfoldable pub is_foreign : Packet → Bool
is_foreign p =
    ltb (length p) (ethhdr_size + iphdr_size)
    || (ltb (length p) (ethhdr_size + iphdr_size + udphdr_size)
        || (not (half_at p 36 == 12345)
            || (not (byte_at p 23 == 10)
                || (ltb (length p) (udp_payload + magic_len)
                    || ((not (byte_at p 42 == 0x18)
                          || (not (byte_at p 43 == 0x03)
                              || (not (byte_at p 44 == 0x05) || not (byte_at p 45 == 0x20))))
                        || (ltb (length p) type_name
                            || (leb mtu (type_len p)
                                || ltb (length p) (type_name + type_len p))))))))

-- The tail calls, by the kind of the message; with its flag off a branch is not compiled.
unfoldable pub dispatch : Flags → PaxosMaps → Packet → Bool → Option MessageType → Option PaxosRun
dispatch f m p room (some MessageType.xdp_handle_prepare) =
    if f.fast_reply
    then some (Prepare.handle_prepare m p room)
    else some (record { maps = m; packet = p; verdict = xdp_pass })
dispatch f m p room (some MessageType.xdp_handle_prepareok) =
    let pass : Option PaxosRun = some (record { maps = m; packet = p; verdict = xdp_pass }) in
    if f.fast_quorum_prune
    then (or_return (m.msg_last_op 0) pass λ context.
        Quorum.handle_prepareok
          (record m { msg_last_op = store m.msg_last_op 0 (type_name + type_len p) }) p)
    else pass
dispatch f m p room _ = some (record { maps = m; packet = p; verdict = xdp_pass })

unfoldable pub fast_paxos : Flags → PaxosMaps → Packet → Bool → Option PaxosRun
unfolding is_foreign dispatch
fast_paxos f m p room =
    if is_foreign p
    then some (record { maps = m; packet = p; verdict = xdp_pass })
    else dispatch f m p room (compute_message_type (drop type_name p))
