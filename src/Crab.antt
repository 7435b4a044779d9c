-- ===== src/Crab.antt =====
-- A layer-4 load balancer: lb_kern.c and lb_kern.h of examples/crab, built without RAND. It gives
-- each new connection a target, whose address replaces the destination of the SYN packet; a TCP
-- option keeps the old destination. A division by zero is a fault, `none`.
pub mod Rewrite
pub mod Options
pub mod Balance
pub mod Checksums
pub mod Sent
pub mod Syn
pub mod Dispatch
use dram_pvt_mk.Base.{
  ℕ, zero, suc, ◌+◌, ◌-◌, ◌*◌, ◌/◌, ◌%◌, ◌^◌, List, [], ◌∷◌, Bool, true, false, not, ◌==◌, ltb,
  if◌then◌else◌, Option, none, some, length, u32, swap16,
}
use dram_pvt_mk.Base.Table.{Table, store, or_return}
use dram_pvt_mk.Base.Bytes.{Packet, ◌>>=◌, byte_at, half_at, word_at, bytes_from, write, le_bytes}
use dram_pvt_mk.Base.Xdp.{xdp_aborted, xdp_pass, xdp_tx, ethhdr_size, ipproto_tcp}

abbrev pub max_opt_words : ℕ
max_opt_words = 10

abbrev pub redir_opt_type : ℕ
redir_opt_type = 42

-- `macs_map` holds six bytes, `cpu_rr_idx` the value of one processor.
pub record LbMaps : Type 0 where
  pub targets_map : Table ℕ
  pub macs_map : Table (List ℕ)
  pub targets_count : Table ℕ
  pub cpu_rr_idx : Table ℕ

-- What a parser found: the value it returned, where the header begins and where it ends.
pub record Header : Type 0 where
  pub kind : ℕ
  pub start : ℕ
  pub pos : ℕ

-- Code that is not in the repository. A parser takes the packet and the position, and is `none`
-- where it returns a negative number. `adjust_head` puts bytes in front of the packet, and is
-- `none` where it fails. `csum_diff p off n seed` is `bpf_csum_diff(0, 0, p + off, n, seed)`.
pub record Kernel : Type 0 where
  pub parse_ethhdr : Packet → ℕ → Option Header
  pub parse_iphdr : Packet → ℕ → Option Header
  pub parse_tcphdr : Packet → ℕ → Option Header
  pub adjust_head : Packet → ℕ → Option Packet
  pub csum_diff : Packet → ℕ → ℕ → ℕ → ℕ

pub record LbRun : Type 0 where
  pub maps : LbMaps
  pub packet : Packet
  pub verdict : ℕ

unfoldable pub csum_reduce_helper : ℕ → ℕ
csum_reduce_helper csum =
    let csum' = csum / 2 ^ 16 + csum % 2 ^ 16 in (csum' / 2 ^ 16 + csum' % 2 ^ 16) % 2 ^ 16

-- `~csum_reduce_helper(csum)`, kept in 16 bits.
abbrev pub inverted : ℕ → ℕ
inverted csum = 65535 - csum_reduce_helper csum

unfoldable pub get_target_idx_rr : LbMaps → Option (LbMaps × ℕ)
get_target_idx_rr m = or_return (m.targets_count 0) (some (m, 0)) λ count.
    or_return (m.cpu_rr_idx 0) (some (m, 0)) λ rr_idx.
      if count == 0
      then none
      else some (record m { cpu_rr_idx = store m.cpu_rr_idx 0 (u32 (rr_idx + 1)) }, rr_idx % count)

-- The address that is stored to `daddr`, `none` where the code returns -1.
unfoldable pub get_target : LbMaps → Option (LbMaps × Option ℕ)
get_target m = get_target_idx_rr m >>= λ r. some (r.0, (r.0).targets_map r.1)

-- `ethh` is the start of the packet; false where the code returns -1.
unfoldable pub update_macs : LbMaps → ℕ → Packet → Packet × Bool
update_macs m dst_ip p =
    let q = write p 6 (bytes_from p 0 6) in
    or_return (m.macs_map dst_ip) (q, false) λ target. (write q 0 target, true)

-- `iph->tot_len = bpf_htons(bpf_ntohs(iph->tot_len) + sizeof(struct redir_opt))`
unfoldable pub fix_tot_len : Packet → Packet
fix_tot_len p = write p 16 (le_bytes 2 (swap16 ((swap16 (half_at p 16) + 8) % 2 ^ 16)))

-- `iph->check = 0; iph->check = ~csum_reduce_helper(bpf_csum_diff(0, 0, (__be32 *)iph, size, 0))`
unfoldable pub fix_ip_check : Kernel → Packet → Packet
fix_ip_check k p =
    let z = write p 24 (0 ∷ 0 ∷ []) in write z 24 (le_bytes 2 (inverted (k.csum_diff z 14 20 0)))

-- `tcph->doff = tcph->doff + sizeof(struct redir_opt) / 4`, the upper four bits of byte 46.
unfoldable pub add_doff : Packet → Packet
add_doff p = let b = byte_at p 46 in write p 46 ((b % 16 + 16 * ((b / 16 + 2) % 16)) ∷ [])

abbrev pub redir_opt : ℕ → List ℕ
redir_opt ip =
    redir_opt_type
    ∷ 6
    ∷ byte_at (le_bytes 4 ip) 0
    ∷ byte_at (le_bytes 4 ip) 1
    ∷ byte_at (le_bytes 4 ip) 2
    ∷ byte_at (le_bytes 4 ip) 3
    ∷ 1
    ∷ 1
    ∷ []

-- The words that follow the new option, up to the end of the packet.
unfoldable pub opt_loop : Kernel → ℕ → Packet → ℕ → ℕ → ℕ
opt_loop k zero p opt csum = csum
opt_loop k (suc n) p opt csum =
    let rest = opt_loop k n p (opt + 4) (k.csum_diff p opt 4 csum) in
    if ltb (length p) (opt + 4) then csum else rest

-- The pseudo header of the TCP checksum.
abbrev pub ipv4_psd_header : Packet → List ℕ
ipv4_psd_header p =
    let len = swap16 ((swap16 (half_at p 16) + 2 ^ 16 - 20) % 2 ^ 16) in
    byte_at p 26
    ∷ byte_at p 27
    ∷ byte_at p 28
    ∷ byte_at p 29
    ∷ byte_at p 30
    ∷ byte_at p 31
    ∷ byte_at p 32
    ∷ byte_at p 33
    ∷ 0
    ∷ ipproto_tcp
    ∷ byte_at (le_bytes 2 len) 0
    ∷ byte_at (le_bytes 2 len) 1
    ∷ []

unfoldable pub fix_tcp_check : Kernel → Packet → Packet
fix_tcp_check k p =
    let z = write p 50 (0 ∷ 0 ∷ []) in
    let csum = csum_reduce_helper (opt_loop k max_opt_words z 62 (k.csum_diff z 34 28 0)) in
    write z 50 (le_bytes 2 (inverted (k.csum_diff (ipv4_psd_header z) 0 12 csum)))

-- From the copy of the TCP header on: `tcph_old` is that header, `daddr` the old destination.
unfoldable pub handle_tcp : Kernel → LbMaps → Packet → List ℕ → ℕ → LbRun
handle_tcp k m p tcph_old daddr =
    if ltb (length p) 54
    then record { maps = m; packet = p; verdict = xdp_aborted }
    else let q = add_doff (write p 34 tcph_old) in
      if ltb (length p) 62 then record { maps = m; packet = q; verdict = xdp_aborted } else record {
        maps = m;
        packet = fix_tcp_check k (write q 54 (redir_opt daddr));
        verdict = xdp_tx;
      }

-- `ethh`, `iph` and `tcph` are the positions of the headers in the packet.
unfoldable pub handle_syn : Kernel → LbMaps → Packet → ℕ → ℕ → ℕ → Option LbRun
handle_syn k m p ethh iph tcph =
    let aborted : LbMaps → Packet → LbRun =
      λ n q. record { maps = n; packet = q; verdict = xdp_aborted } in
    or_return (k.adjust_head p 8) (some (aborted m p)) λ q.
      if ltb (length q) ethhdr_size
      then some (aborted m q)
      else let q1 = write q 0 (bytes_from p ethh 14) in
        if ltb (length q) 34
        then some (aborted m q1)
        else let q2 = fix_tot_len (write q1 14 (bytes_from p iph 20)) in
          get_target m >>= λ r. or_return r.1 (some (aborted r.0 q2)) λ daddr.
            let moved = update_macs r.0 daddr (write q2 30 (le_bytes 4 daddr)) in
            if not moved.1
            then some (aborted r.0 moved.0)
            else some (
                handle_tcp k r.0 (fix_ip_check k moved.0) (bytes_from p tcph 20)
                  (word_at p (iph + 16)))

-- `tcph->ack` and `tcph->syn`, bits of byte 13 of the header.
abbrev pub ack : Packet → ℕ → Bool
ack p tcph = byte_at p (tcph + 13) / 16 % 2 == 1

abbrev pub syn : Packet → ℕ → Bool
syn p tcph = byte_at p (tcph + 13) / 2 % 2 == 1

unfoldable pub xdp_prog_simple : Kernel → LbMaps → Packet → Option LbRun
xdp_prog_simple k m p =
    let out : ℕ → Option LbRun =
      λ action. some (record { maps = m; packet = p; verdict = action }) in
    or_return (k.parse_ethhdr p 0) (out xdp_pass) λ eth.
      if not (eth.kind == swap16 0x0800)
      then out xdp_pass
      else or_return (k.parse_iphdr p eth.pos) (out xdp_pass) λ ip.
        if not (ip.kind == ipproto_tcp)
        then out xdp_pass
        else or_return (k.parse_tcphdr p ip.pos) (out xdp_aborted) λ tcp.
          if ack p tcp.start
          then out xdp_pass
          else if syn p tcp.start
          then handle_syn k m p eth.start ip.start tcp.start
          else out xdp_pass
