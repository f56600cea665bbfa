-- ===== src/Topo/Udp/Fromto.antt =====
-- `udp_fromto_init`, `udp_recv_fromto` and `udp_send_fromto` of src/topo/udp.c. What the system
-- calls return are arguments; -1 is `none`.
use k8s.Common.{
  Bytes, ℕ, ◌≤◌, ◌≡◌, Option, none, some, List, [], ◌∷◌, arith, ℤ, negsuc, ltb, ◌==◌, if◌then◌else◌,
  refl, Bool, true, false, ◌++◌, all,
}
use k8s.Topo.Effect.{
  Effect, Family, af_inet, af_inet6, af_other, SockAddr, sendto, sendmsg_from, IsFit,
}

pub data Errno : Type 0 where
  enosys einval : Errno

-- The protocol level and the option that `setsockopt` is called with.
pub data SockOpt : Type 0 where
  ip_pktinfo ipv6_recvpktinfo : SockOpt

-- `getsockname` gives the family of the socket; `setsockopt` is a function of the option.
unfoldable pub udp_fromto_init : Option Family → (SockOpt → ℤ) → ℤ
udp_fromto_init none setsockopt = negsuc 0
udp_fromto_init (some af_inet) setsockopt = setsockopt ip_pktinfo
udp_fromto_init (some af_inet6) setsockopt = setsockopt ipv6_recvpktinfo
udp_fromto_init (some af_other) setsockopt = negsuc 0

-- A control message, with the address that it carries.
pub data Cmsg : Type 0 where
  pktinfo pktinfo6 : Bytes → Cmsg
  other_cmsg : Cmsg

-- A datagram as `recvmsg` returns it: the bytes that it stored, the sender, the control messages.
pub record Datagram : Type 0 where
  pub payload : Bytes
  pub sender : SockAddr
  pub control : List Cmsg

-- `sizeof(struct sockaddr_in)` and `sizeof(struct sockaddr_in6)`.
abbrev pub sizeof_in : ℕ
sizeof_in = 16

abbrev pub sizeof_in6 : ℕ
sizeof_in6 = 28

-- The loop over the control messages: the first one with an address gives it to `to`.
unfoldable pub apply_cmsg : List Cmsg → SockAddr × ℕ → SockAddr × ℕ
apply_cmsg [] s = s
apply_cmsg (pktinfo a ∷ rest) s = (record s.0 { addr = a }, sizeof_in)
apply_cmsg (pktinfo6 a ∷ rest) s = (record s.0 { addr = a }, sizeof_in6)
apply_cmsg (other_cmsg ∷ rest) s = apply_cmsg rest s

-- The length of an address of the family, for those that the program handles.
unfoldable pub family_size : Family → Option ℕ
family_size af_inet = some sizeof_in
family_size af_inet6 = some sizeof_in6
family_size af_other = none

pub data Received : Type 0 where
  -- the datagram, `*to` and `*tolen`
  received : Datagram → SockAddr → ℕ → Received
  recv_failed : Option Errno → Received

-- With `*tolen`, which every caller gives, the address that `getsockname` gives, and the datagram that `recvmsg` returns.
unfoldable pub udp_recv_fromto : ℕ → Option SockAddr → Option Datagram → Received
unfolding apply_cmsg family_size
udp_recv_fromto tolen none msg = recv_failed none
udp_recv_fromto tolen (some si) msg = elim (family_size si.family) [
  | none ↦ recv_failed (some einval)
  | some size ↦ if ltb tolen size then recv_failed (some einval) else elim msg [
    | none ↦ recv_failed none
    | some d ↦ let s = apply_cmsg d.control (si, size) in received d s.0 s.1
  ]
]

pub data Sent : Type 0 where
  sent : Effect → Sent
  send_failed : Errno → Sent

-- The call that `udp_send_fromto` makes, with `from` and `*fromlen`, if there is a source. A source
-- of either family goes into a control message.
unfoldable pub udp_send_fromto : Bytes → Option (SockAddr × ℕ) → SockAddr → Sent
udp_send_fromto buf none to = sent (sendto buf to)
udp_send_fromto buf (some (from, fromlen)) to = elim from.family [
  | af_other ↦ send_failed einval
  | af_inet ↦ if fromlen == 0 then sent (sendto buf to) else sent (sendmsg_from buf from to)
  | af_inet6 ↦ if fromlen == 0 then sent (sendto buf to) else sent (sendmsg_from buf from to)
]

abbrev pub is_other : Cmsg → Bool
is_other other_cmsg = true
is_other _ = false

apply_cmsg-others :
    (skipped rest : List Cmsg) (s : SockAddr × ℕ)
    → all is_other skipped ≡ true
    → apply_cmsg (skipped ++ rest) s ≡ apply_cmsg rest s
unfolding apply_cmsg
apply_cmsg-others [] rest s h = refl
apply_cmsg-others (other_cmsg ∷ skipped) rest s h = apply_cmsg-others skipped rest s h
apply_cmsg-others (pktinfo a ∷ skipped) rest s h = absurd (cc)
apply_cmsg-others (pktinfo6 a ∷ skipped) rest s h = absurd (cc)

-- An IPv4 datagram is attributed to the address in the first of its control messages that has one,
-- at the port of the socket, and an answer that is sent from there goes out with that source
-- address to the sender of the datagram.
pub udp_send_fromto-udp_recv_fromto :
    (tolen : ℕ) (si : SockAddr) (d : Datagram) (skipped rest : List Cmsg) (a reply : Bytes)
    → si.family ≡ af_inet
    → sizeof_in ≤ tolen
    → d.control ≡ skipped ++ pktinfo a ∷ rest
    → all is_other skipped ≡ true
    → (udp_recv_fromto tolen (some si) (some d) ≡ received d (record si { addr = a }) sizeof_in)
      × (udp_send_fromto reply (some (record si { addr = a }, sizeof_in)) d.sender
          ≡ sent (sendmsg_from reply (record si { addr = a }) d.sender))
unfolding udp_recv_fromto udp_send_fromto
udp_send_fromto-udp_recv_fromto tolen si d skipped rest a reply inet room control others =
    let found = apply_cmsg-others skipped (pktinfo a ∷ rest) (si, sizeof_in) others in
    ground (arith, found)

pub udp_send_fromto-inet :
    (buf : Bytes) (from to : SockAddr)
    → from.family ≡ af_inet
    → udp_send_fromto buf (some (from, sizeof_in)) to ≡ sent (sendmsg_from buf from to)
unfolding udp_send_fromto
udp_send_fromto-inet buf from to inet = ground arith

-- What is sent is no text past the end of a buffer.
abbrev pub FitSent : Sent → Type 0
FitSent (sent e) = IsFit e
FitSent (send_failed code) = Unit

from_family-Fit :
    (buf : Bytes) (from to : SockAddr) (family : Family)
    → from.family ≡ family
    → FitSent (udp_send_fromto buf (some (from, sizeof_in)) to)
unfolding udp_send_fromto
from_family-Fit buf from to af_inet e = rw (udp_send_fromto-inet buf from to e) tt
from_family-Fit buf from to af_inet6 e = rw e tt
from_family-Fit buf from to af_other e = rw e tt

pub udp_send_fromto-Fit :
    (buf : Bytes) (from to : SockAddr) → FitSent (udp_send_fromto buf (some (from, sizeof_in)) to)
udp_send_fromto-Fit buf from to = from_family-Fit buf from to from.family refl
