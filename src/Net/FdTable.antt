-- ===== src/Net/FdTable.antt =====
-- dpdk-code/14_tcp_concurrency/tcp_concurrency.c: the bitmap of descriptors, get_fd_frombitmap and
-- set_fd_frombitmap.
pub mod Bitmap
pub mod Refine
use dpdk_learning.Base.{
  ℕ, zero, suc, ◌+◌, ◌-◌, ◌/◌, ◌%◌, ◌^◌, Option, none, some, List, true, false, ◌==◌, leb, get_or,
  set, bit_and, bit_or, if◌then◌else◌,
}

abbrev pub default_fd_num : ℕ
default_fd_num = 3

abbrev pub max_fd_count : ℕ
max_fd_count = 1024

-- `0x1 << k` and its complement, as bytes, for k below 8.
abbrev pub bit : ℕ → ℕ
bit k = 2 ^ k

abbrev pub set_bit : ℕ → ℕ → ℕ
set_bit b k = bit_or b (bit k)

abbrev pub clear_bit : ℕ → ℕ → ℕ
clear_bit b k = bit_and b (255 - bit k)

-- The byte of a descriptor.
abbrev pub byte_of : List ℕ → ℕ → ℕ
byte_of table fd = get_or table (fd / 8) 0

-- The loop of `get_fd_frombitmap`, with the rounds that are left; `none` is -1.
unfoldable pub scan_fd : ℕ → ℕ → List ℕ → Option ℕ × List ℕ
scan_fd zero fd table = (none, table)
scan_fd (suc rounds) fd table =
    let next = scan_fd rounds (fd + 1) table in
    if bit_and (byte_of table fd) (bit (fd % 8)) == 0
    then (some fd, set table (fd / 8) (set_bit (byte_of table fd) (fd % 8)))
    else next

unfoldable pub get_fd_frombitmap : List ℕ → Option ℕ × List ℕ
unfolding scan_fd
get_fd_frombitmap table = scan_fd (max_fd_count - default_fd_num) default_fd_num table

-- The call for a descriptor that is not -1. A descriptor past the end changes nothing.
unfoldable pub set_fd_frombitmap : ℕ → List ℕ → List ℕ
set_fd_frombitmap fd table =
    if leb max_fd_count fd
    then table
    else set table (fd / 8) (clear_bit (byte_of table fd) (fd % 8))
