-- ===== src/Command/Unsigned.antt =====
-- `%u` of printf: the value of an int modulo 2^32, in decimal.
use dudlc.Shared.{ℕ, ◌-◌, ◌^◌, ◌%◌, ℤ, pos, negsuc, Bytes}
use dudlc.Cstring.Decimal.{print_int}

unfoldable pub unsigned_of : ℤ → ℕ
unsigned_of (pos n) = n % 2 ^ 32
unsigned_of (negsuc n) = 2 ^ 32 - 1 - n % 2 ^ 32

unfoldable pub print_uint : ℤ → Bytes
unfolding unsigned_of
print_uint i = print_int (pos (unsigned_of i))
