-- ===== src/Tools/Copy.antt =====
-- `tmemcpy`, `tmemcpyw`, `tmemcpyd`, `tmemcpyd_inv` and `tmemcmp` of kernel/tools/t_mem.c.
pub mod Laws
use unix_p.Prelude.{ℕ, zero, suc, ◌+◌, ◌*◌, ◌^◌, Option, none, some, ltb, if◌then◌else◌, u16}
use unix_p.Prelude.Int.{ℤ, pos, negsuc}
use unix_p.Prelude.Memory.{Memory, read, write, load16, store16, load32, store32}

unfoldable pub tmemcpy_loop : (left i dest src : ℕ) → Memory → Memory
tmemcpy_loop zero i dest src m = m
tmemcpy_loop (suc left) i dest src m =
    tmemcpy_loop left (i + 1) dest src (write m (dest + i) (read m (src + i)))

unfoldable pub tmemcpy : Memory → (dest src n : ℕ) → Memory
unfolding tmemcpy_loop
tmemcpy m dest src n = tmemcpy_loop n 0 dest src m

-- The counter is a `uint16_t` and the bound a `uint32_t`; `none` means that the fuel ran out.
unfoldable pub tmemcpyw_loop : (fuel i n dest src : ℕ) → Memory → Option Memory
tmemcpyw_loop zero i n dest src m = none
tmemcpyw_loop (suc fuel) i n dest src m =
    let rest =
      tmemcpyw_loop fuel (u16 (i + 1)) n dest src
        (store16 m (dest + 2 * i) (load16 m (src + 2 * i))) in
    if ltb i n then rest else some m

unfoldable pub tmemcpyw : (fuel : ℕ) → Memory → (dest src n : ℕ) → Option Memory
unfolding tmemcpyw_loop
tmemcpyw fuel m dest src n = tmemcpyw_loop fuel 0 n dest src m

unfoldable pub tmemcpyd_loop : (left i dest src : ℕ) → Memory → Memory
tmemcpyd_loop zero i dest src m = m
tmemcpyd_loop (suc left) i dest src m =
    tmemcpyd_loop left (i + 1) dest src (store32 m (dest + 4 * i) (load32 m (src + 4 * i)))

unfoldable pub tmemcpyd : Memory → (dest src n : ℕ) → Memory
unfolding tmemcpyd_loop
tmemcpyd m dest src n = tmemcpyd_loop n 0 dest src m

-- `temp = darr[start]; darr[start] = darr[end]; darr[end] = temp;`
abbrev pub swap32 : Memory → (a b : ℕ) → Memory
swap32 m a b = store32 (store32 m a (load32 m b)) b (load32 m a)

-- `end` falls in each round.
unfoldable pub tmemcpyd_inv_loop : (arr start end : ℕ) → Memory → Memory
tmemcpyd_inv_loop arr start zero m = m
tmemcpyd_inv_loop arr start (suc end) m =
    let rest =
      tmemcpyd_inv_loop arr (start + 1) end (swap32 m (arr + 4 * start) (arr + 4 * suc end)) in
    if ltb start (suc end) then rest else m

-- `int end = n` is negative from 2 ^ 31 on, and no round is made.
unfoldable pub tmemcpyd_inv : Memory → (arr n : ℕ) → Memory
unfolding tmemcpyd_inv_loop
tmemcpyd_inv m arr n = if ltb n (2 ^ 31) then tmemcpyd_inv_loop arr 0 n m else m

unfoldable pub tmemcmp_loop : (left i s1 s2 : ℕ) → Memory → ℤ
tmemcmp_loop zero i s1 s2 m = pos 0
tmemcmp_loop (suc left) i s1 s2 m =
    let rest = tmemcmp_loop left (i + 1) s1 s2 m in
    if ltb (read m (s1 + i)) (read m (s2 + i))
    then negsuc 0
    else if ltb (read m (s2 + i)) (read m (s1 + i))
    then pos 1
    else rest

unfoldable pub tmemcmp : Memory → (s1 s2 n : ℕ) → ℤ
unfolding tmemcmp_loop
tmemcmp m s1 s2 n = tmemcmp_loop n 0 s1 s2 m
