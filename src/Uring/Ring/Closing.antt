-- ===== src/Uring/Ring/Closing.antt =====
-- What a ring owns, and that `Close` gives all of it back.
use ublk_go.Prelude.{ℕ, ◌+◌, Option, none, some, arith}
use ublk_go.System.{Log, Kernel}
use ublk_go.System.Kept.{Res, Kept, own_fd, own_map}
use ublk_go.Uring.Ring.{Ring, unmap_one, close_one, close_ring}

abbrev pub own_ring : Res → Ring → ℕ
own_ring r g =
    own_fd r g.fd
    + own_fd r g.cancel_fd
    + own_fd r g.epoll_fd
    + own_map r g.map_sq
    + own_map r g.map_cq
    + own_map r g.map_sqes

pub unmap_one-Kept :
    (k : Kernel) (m : Option ℕ) (l : Log) (r : Res) → Kept r (own_map r m) l 0 (unmap_one k m l).1
unfolding unmap_one
unmap_one-Kept k none l r = omega arith
unmap_one-Kept k (some a) l r = omega arith

pub close_one-Kept :
    (k : Kernel) (m : Option ℕ) (l : Log) (r : Res) → Kept r (own_fd r m) l 0 (close_one k m l).1
unfolding close_one
close_one-Kept k none l r = omega arith
close_one-Kept k (some a) l r = omega arith

-- `Close` gives back all that the ring owns, whatever errors the kernel reports.
pub close_ring-Kept :
    (k : Kernel) (g : Ring) (l : Log) (r : Res) → Kept r (own_ring r g) l 0 (close_ring k g l).2
unfolding close_ring
close_ring-Kept k g l r =
    let l₁ = (unmap_one k g.map_sq l).1 in
    let l₂ = (unmap_one k g.map_cq l₁).1 in
    let l₃ = (unmap_one k g.map_sqes l₂).1 in
    let l₄ = (close_one k g.epoll_fd l₃).1 in
    let l₅ = (close_one k g.cancel_fd l₄).1 in
    omega (
      arith,
      unmap_one-Kept k g.map_sq l r,
      unmap_one-Kept k g.map_cq l₁ r,
      unmap_one-Kept k g.map_sqes l₂ r,
      close_one-Kept k g.epoll_fd l₃ r,
      close_one-Kept k g.cancel_fd l₄ r,
      close_one-Kept k g.fd l₅ r,
    )
