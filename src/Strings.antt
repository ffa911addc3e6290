-- ===== src/Strings.antt =====
-- The string functions of OSLab7-Mitjoslab4/lib/string.c over a memory of bytes. A pointer
-- is an address; the objects do not wrap round the end of the address space. memset and memmove are
-- the C versions of the file, which its assembly versions stand in for.
pub mod Copy
pub mod Length
mod Tests
use homework_of_operating_sy.Base.{
  ℕ, zero, suc, ◌+◌, ◌-◌, ◌%◌, ◌^◌, Bool, ◌&&◌, ltb, ◌==◌, ◌!=◌, if◌then◌else◌, update, Option,
  none, some,
}

abbrev pub Bytes : Type 0
Bytes = ℕ → ℕ

-- strnlen
unfoldable pub strnlen : Bytes → ℕ → ℕ → ℕ
strnlen m s zero = 0
strnlen m s (suc size) = let rest = strnlen m (s + 1) size in if m s == 0 then 0 else rest + 1

-- strncpy, after which the source pointer stays at the null byte
unfoldable pub strncpy : Bytes → ℕ → ℕ → ℕ → Bytes
strncpy m dst src zero = m
strncpy m dst src (suc size) =
    strncpy (update m dst (m src)) (dst + 1) (if m src != 0 then src + 1 else src) size

-- The loop of strlcpy with `--size` rounds left: the memory, and the number of bytes copied
unfoldable pub copy_string : Bytes → ℕ → ℕ → ℕ → Bytes × ℕ
copy_string m dst src zero = (update m dst 0, 0)
copy_string m dst src (suc size) =
    let rest = copy_string (update m dst (m src)) (dst + 1) (src + 1) size in
    if m src == 0 then (update m dst 0, 0) else (rest.0, rest.1 + 1)

unfoldable pub strlcpy : Bytes → ℕ → ℕ → ℕ → Bytes × ℕ
unfolding copy_string
strlcpy m dst src zero = (m, 0)
strlcpy m dst src (suc size) = copy_string m dst src size

-- `(int) (a - b)` of two bytes, as a bit pattern
abbrev pub byte_diff : ℕ → ℕ → ℕ
byte_diff a b = (a + 2 ^ 32 - b) % 2 ^ 32

unfoldable pub strncmp : Bytes → ℕ → ℕ → ℕ → ℕ
strncmp m p q zero = 0
strncmp m p q (suc n) =
    let rest = strncmp m (p + 1) (q + 1) n in
    if m p != 0 && m p == m q then rest else byte_diff (m p) (m q)

unfoldable pub memset : Bytes → ℕ → ℕ → ℕ → Bytes
memset m p c zero = m
memset m p c (suc n) = memset (update m p (c % 2 ^ 8)) (p + 1) c n

-- The two loops of memmove; the one that runs down is given the ends.
unfoldable pub copy_up : Bytes → ℕ → ℕ → ℕ → Bytes
copy_up m d s zero = m
copy_up m d s (suc n) = copy_up (update m d (m s)) (d + 1) (s + 1) n

unfoldable pub copy_down : Bytes → ℕ → ℕ → ℕ → Bytes
copy_down m d s zero = m
copy_down m d s (suc n) = copy_down (update m (d - 1) (m (s - 1))) (d - 1) (s - 1) n

unfoldable pub memmove : Bytes → ℕ → ℕ → ℕ → Bytes
unfolding copy_up copy_down
memmove m dst src n =
    if ltb src dst && ltb dst (src + n)
    then copy_down m (dst + n) (src + n) n
    else copy_up m dst src n

unfoldable pub memcpy : Bytes → ℕ → ℕ → ℕ → Bytes
unfolding memmove
memcpy m dst src n = memmove m dst src n

unfoldable pub memcmp : Bytes → ℕ → ℕ → ℕ → ℕ
memcmp m v1 v2 zero = 0
memcmp m v1 v2 (suc n) =
    let rest = memcmp m (v1 + 1) (v2 + 1) n in
    if m v1 != m v2 then byte_diff (m v1) (m v2) else rest

-- memfind, which gives the end when the byte is missing
unfoldable pub memfind : Bytes → ℕ → ℕ → ℕ → ℕ
memfind m s c zero = s
memfind m s c (suc n) = let rest = memfind m (s + 1) c n in if m s == c % 2 ^ 8 then s else rest

-- The functions that run to the null byte, with a bound on the rounds; `none` is a run beyond it.
unfoldable pub strlen : ℕ → Bytes → ℕ → Option ℕ
strlen zero m s = none
strlen (suc fuel) m s =
    let rest = strlen fuel m (s + 1) in
    if m s == 0 then some 0 else (elim rest [ none ↦ none | some n ↦ some (n + 1) ])

unfoldable pub strcpy : ℕ → Bytes → ℕ → ℕ → Option Bytes
strcpy zero m dst src = none
strcpy (suc fuel) m dst src =
    let rest = strcpy fuel (update m dst (m src)) (dst + 1) (src + 1) in
    if m src == 0 then some (update m dst (m src)) else rest

unfoldable pub strcat : ℕ → Bytes → ℕ → ℕ → Option Bytes
unfolding strlen strcpy
strcat fuel m dst src = elim (strlen fuel m dst) [
  | none ↦ none
  | some n ↦ strcpy fuel m (dst + n) src
]

unfoldable pub strcmp : ℕ → Bytes → ℕ → ℕ → Option ℕ
strcmp zero m p q = none
strcmp (suc fuel) m p q =
    let rest = strcmp fuel m (p + 1) (q + 1) in
    if m p != 0 && m p == m q then rest else some (byte_diff (m p) (m q))

-- strchr, with NULL as `some none`
unfoldable pub strchr : ℕ → Bytes → ℕ → ℕ → Option (Option ℕ)
strchr zero m s c = none
strchr (suc fuel) m s c =
    let rest = strchr fuel m (s + 1) c in
    if m s == 0 then some none else (if m s == c then some (some s) else rest)

unfoldable pub strfind : ℕ → Bytes → ℕ → ℕ → Option ℕ
strfind zero m s c = none
strfind (suc fuel) m s c =
    let rest = strfind fuel m (s + 1) c in
    if m s == 0 then some s else (if m s == c then some s else rest)
