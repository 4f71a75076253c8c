-- ===== src/Tools/Str.antt =====
-- The string routines of kernel/tools/t_sai.c, over strings in memory.
--
-- A loop that runs until a terminator recurs on fuel, and `none` means that the fuel ran out. Bytes
-- are read unsigned.
pub mod Scan
pub mod Find
pub mod Compare
pub mod Reverse
pub mod Text
pub mod Numeral
pub mod DigitsLoop
pub mod Convert
pub mod Digits
use unix_p.Prelude.{
  ℕ, zero, suc, ◌+◌, ◌-◌, ◌*◌, ◌/◌, ◌%◌, ◌^◌, Bool, true, false, ◌&&◌, ◌||◌, Option, none, some,
  ltb, leb, ◌==◌, if◌then◌else◌, ◌>>=◌, u8, u16, u32,
}
use unix_p.Prelude.Int.{ℤ, pos, negsuc, sub_ℕ, to_int}
use unix_p.Prelude.Memory.{Memory, read, write}

unfoldable pub strlen_loop : (fuel str length : ℕ) → Memory → Option ℕ
strlen_loop zero str length m = none
strlen_loop (suc fuel) str length m =
    let rest = strlen_loop fuel (str + 1) (u32 (length + 1)) m in
    if read m str == 0 then some length else rest

unfoldable pub strlen : (fuel : ℕ) → Memory → (str : ℕ) → Option ℕ
unfolding strlen_loop
strlen fuel m str = strlen_loop fuel str 0 m

unfoldable pub strcpy_loop : (fuel i dest src : ℕ) → Memory → Option Memory
strcpy_loop zero i dest src m = none
strcpy_loop (suc fuel) i dest src m =
    let rest = strcpy_loop fuel (u32 (i + 1)) dest src (write m (dest + i) (read m (src + i))) in
    if read m (src + i) == 0 then some (write m (dest + i) 0) else rest

unfoldable pub strcpy : (fuel : ℕ) → Memory → (dest src : ℕ) → Option Memory
unfolding strcpy_loop
strcpy fuel m dest src = strcpy_loop fuel 0 dest src m

-- The difference that `strcmp` returns is the one of the pointers.
unfoldable pub strcmp : (fuel : ℕ) → Memory → (str1 str2 : ℕ) → Option ℤ
strcmp zero m str1 str2 = none
strcmp (suc fuel) m str1 str2 =
    let rest = strcmp fuel m (str1 + 1) (str2 + 1) in
    if read m str1 == 0 || read m str2 == 0
    then some (pos 0)
    else if read m str1 == read m str2
    then rest
    else some (sub_ℕ str1 str2)

-- `left` is `n - i`.
unfoldable pub strncmp_loop : (left i s1 s2 : ℕ) → Memory → ℤ
strncmp_loop zero i s1 s2 m = pos 0
strncmp_loop (suc left) i s1 s2 m =
    let rest = strncmp_loop left (i + 1) s1 s2 m in
    let difference = sub_ℕ (read m (s1 + i)) (read m (s2 + i)) in
    let equal = read m (s1 + i) == read m (s2 + i) in
    if read m (s1 + i) == 0 || read m (s2 + i) == 0
    then if equal then pos 0 else difference
    else if equal
    then rest
    else difference

unfoldable pub strncmp : Memory → (s1 s2 n : ℕ) → ℤ
unfolding strncmp_loop
strncmp m s1 s2 n = strncmp_loop n 0 s1 s2 m

-- `i` is the index at which the search stands; it is returned as an `int`.
unfoldable pub findch : (fuel : ℕ) (i target : ℕ) → Memory → (str : ℕ) → Option ℤ
findch zero i target m str = none
findch (suc fuel) i target m str =
    let rest = findch fuel (u32 (i + 1)) target m str in
    if read m (str + i) == 0
    then some (negsuc 0)
    else if read m (str + i) == target
    then some (to_int i)
    else rest

unfoldable pub str_to_upper : ℤ → ℤ
str_to_upper (pos c) = pos (if leb 97 c && leb c 122 then c - 32 else c)
str_to_upper (negsuc c) = negsuc c

unfoldable pub str_to_lower : ℤ → ℤ
str_to_lower (pos c) = pos (if leb 65 c && leb c 90 then c + 32 else c)
str_to_lower (negsuc c) = negsuc c

unfoldable pub str_to_uint_loop : (fuel str res : ℕ) → Memory → Option ℕ
str_to_uint_loop zero str res m = none
str_to_uint_loop (suc fuel) str res m =
    let rest = str_to_uint_loop fuel (str + 1) (u32 (res * 10 + (read m str - 48))) m in
    if leb 48 (read m str) && leb (read m str) 57 then rest else some res

unfoldable pub str_to_uint : (fuel : ℕ) → Memory → (str : ℕ) → Option ℕ
unfolding str_to_uint_loop
str_to_uint fuel m str = str_to_uint_loop fuel str 0 m

abbrev pub swap8 : Memory → (a b : ℕ) → Memory
swap8 m a b = write (write m a (read m b)) b (read m a)

-- `end` falls in each round.
unfoldable pub reverse_loop : (str start end : ℕ) → Memory → Memory
reverse_loop str start zero m = m
reverse_loop str start (suc end) m =
    let rest = reverse_loop str (start + 1) end (swap8 m (str + start) (str + suc end)) in
    if ltb start (suc end) then rest else m

-- For the empty string `end` is -1, and 0 here: the loop makes no round from either.
unfoldable pub reverse_str : (fuel : ℕ) → Memory → (str : ℕ) → Option Memory
unfolding strlen_loop reverse_loop
reverse_str fuel m str = do len ← strlen_loop fuel str 0 m; some (reverse_loop str 0 (len - 1) m)

unfoldable pub check_eq_of_strings : (fuel : ℕ) → Memory → (s1 s2 : ℕ) → Option Bool
unfolding strcmp strlen
check_eq_of_strings fuel m s1 s2 = do
  difference ← strcmp fuel m s1 s2
  elim difference [
    | pos zero ↦ do n1 ← strlen fuel m s1; n2 ← strlen fuel m s2; some (n1 == n2)
    | _ ↦ some false
  ]

abbrev pub digit_char : ℕ → ℕ
digit_char remainder = u8 (if ltb 9 remainder then remainder - 10 + 65 else remainder + 48)

-- The memory with the digits of `i`, the lowest first, and the index behind them.
unfoldable pub digits_loop : (fuel base i index buf : ℕ) → Memory → Option (Memory × ℕ)
digits_loop zero base i index buf m = none
digits_loop (suc fuel) base i index buf m =
    let m' = write m (buf + index) (digit_char (i % base)) in
    let rest = digits_loop fuel base (i / base) (index + 1) buf m' in
    if ltb 0 (i / base) then rest else some (m', index + 1)

-- A base of 0 is a division by zero, and has no result either.
unfoldable pub uint_to_str : (fuel i base : ℕ) → Memory → (buf : ℕ) → Option Memory
unfolding digits_loop reverse_str
uint_to_str fuel i base m buf = if base == 0 then none else do
  (m', index) ← digits_loop fuel base i 0 buf m
  reverse_str fuel (write m' (buf + index) 0) buf

-- The minus sign, the terminator and the reversal of `int_to_str`.
unfoldable pub finish_int : (fuel : ℕ) (negative : Bool) (buf : ℕ) → Memory × ℕ → Option Memory
unfolding reverse_str
finish_int fuel true buf (m, index) =
    reverse_str fuel (write (write m (buf + index) 45) (buf + index + 1) 0) buf
finish_int fuel false buf (m, index) = reverse_str fuel (write m (buf + index) 0) buf

-- `-1 * i` overflows for the least number, which is undefined in C and has no result here.
unfoldable pub int_to_str : (fuel : ℕ) (i : ℤ) (base : ℕ) → Memory → (buf : ℕ) → Option Memory
unfolding digits_loop finish_int
int_to_str fuel (pos n) base m buf =
    if base == 0
    then none
    else do written ← digits_loop fuel base n 0 buf m; finish_int fuel false buf written
int_to_str fuel (negsuc n) base m buf =
    if base == 0 || leb (2 ^ 31) (n + 1)
    then none
    else do written ← digits_loop fuel base (n + 1) 0 buf m; finish_int fuel true buf written

unfoldable pub tflip_uint16 : ℕ → ℕ
tflip_uint16 num = u16 (num % 2 ^ 8 * 2 ^ 8 + num / 2 ^ 8 % 2 ^ 8)
