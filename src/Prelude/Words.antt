-- ===== src/Prelude/Words.antt =====
-- Bytes and machine words: the network byte order that `htons`, `htonl`, `ntohs` and `ntohl`
-- with a `memcpy` give, as lists of bytes.
use Prim.Native.Nat.{ℕ, ◌+◌, ◌*◌, ◌/◌, ◌%◌, ◌^◌, ◌<◌}
use mathlib.Core.List.{List, [], ◌∷◌}
use wamr_app_framework.Prelude.Lists.{get_or}

abbrev pub IsByte : ℕ → Type 0
IsByte b = b < 256

-- The pattern of an `int` after `++`: above 2 ^ 31 - 1 it is a negative number.
abbrev pub int_next : ℕ → ℕ
int_next n = (n + 1) % 2 ^ 32

-- `u16 = htons(n); memcpy(p, &u16, 2)`.
unfoldable pub htons_bytes : ℕ → List ℕ
htons_bytes n = (n / 256 % 256) ∷ (n % 256) ∷ []

-- `u32 = htonl(n); memcpy(p, &u32, 4)`.
unfoldable pub htonl_bytes : ℕ → List ℕ
htonl_bytes n = (n / 16777216 % 256) ∷ (n / 65536 % 256) ∷ (n / 256 % 256) ∷ (n % 256) ∷ []

-- `memcpy(&u16, p + off, 2); ntohs(u16)`.
unfoldable pub ntohs_at : List ℕ → ℕ → ℕ
ntohs_at p off = get_or p off 0 * 256 + get_or p (off + 1) 0

-- `memcpy(&u32, p + off, 4); ntohl(u32)`.
unfoldable pub ntohl_at : List ℕ → ℕ → ℕ
ntohl_at p off =
    get_or p off 0 * 16777216
    + get_or p (off + 1) 0 * 65536
    + get_or p (off + 2) 0 * 256
    + get_or p (off + 3) 0
