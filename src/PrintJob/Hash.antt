-- ===== src/PrintJob/Hash.antt =====
-- The FNV-1a suffixes of bambu-farm-client/cpp/print_job.cpp, on a 32-bit word.
pub mod Chunks
use Prim.Native.Nat.{bit_xor}
use bambu_farm.Base.{
  ℕ, zero, suc, ◌+◌, ◌-◌, ◌*◌, ◌/◌, ◌%◌, ◌^◌, true, false, ltb, if◌then◌else◌, Option, none, some,
  [], ◌∷◌, ◌++◌, ◌≡◌, refl, length, take, drop,
}
use bambu_farm.Base.Text.{Text, codes, is_empty}

-- `hash ^= ch; hash *= 16777619u;`
unfoldable pub hash_byte : ℕ → ℕ → ℕ
hash_byte hash ch = bit_xor hash ch * 16777619 % 2 ^ 32

unfoldable pub hash_bytes : ℕ → Text → ℕ
hash_bytes hash [] = hash
hash_bytes hash (ch ∷ s) = hash_bytes (hash_byte hash ch) s

abbrev pub hash_seed : ℕ
hash_seed = 2166136261

unfoldable pub hex_digit : ℕ → ℕ
hex_digit d = if ltb d 10 then b'0' + d else b'a' + (d - 10)

unfoldable pub hex_digits : ℕ → ℕ → Text → Text
hex_digits zero n out = out
hex_digits (suc fuel) n out = elim (ltb n 16) [
  | true ↦ hex_digit n ∷ out
  | false ↦ hex_digits fuel (n / 16) (hex_digit (n % 16) ∷ out)
]

unfoldable pub zeros : ℕ → Text
zeros zero = []
zeros (suc n) = b'0' ∷ zeros n

-- `std::hex << std::setfill('0') << std::setw(8)`; eight digits hold a 32-bit word.
unfoldable pub hex8 : ℕ → Text
hex8 n = let shown = hex_digits 8 n [] in zeros (8 - length shown) ++ shown

unfoldable pub short_path_suffix : Text → Text
short_path_suffix path = if is_empty path then [] else hex8 (hash_bytes hash_seed path)

-- The `while (file.good())` loop: a read that comes up short ends it. `buffer` is its size.
unfoldable pub hash_file : ℕ → ℕ → ℕ → Text → ℕ
hash_file zero buffer hash rest = hash
hash_file (suc fuel) buffer hash rest = elim (ltb (length (take buffer rest)) buffer) [
  | true ↦ hash_bytes hash (take buffer rest)
  | false ↦ hash_file fuel buffer (hash_bytes hash (take buffer rest)) (drop buffer rest)
]

-- What opening a path gives: the contents, or `none`.
abbrev pub Files : Type 0
Files = Text → Option Text

unfoldable pub content_suffix : Option Text → Text
content_suffix none = []
content_suffix (some contents) = hex8 (hash_file (suc (length contents)) 8192 hash_seed contents)

unfoldable pub short_content_suffix : Files → Text → Text
short_content_suffix files path = if is_empty path then [] else content_suffix (files path)
