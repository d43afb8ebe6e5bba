-- ===== src/Navigation/Buffer.antt =====
-- serialize and deserialize: the context in the bytes of one sector.
pub mod Bytes
pub mod Saved
use level_fs.Base.{
  ℕ, zero, suc, ◌+◌, ◌-◌, ◌*◌, ◌/◌, ◌%◌, ◌^◌, ◌<◌, ◌≤◌, ◌==◌, ltb, leb, if◌then◌else◌, ◌≡◌, refl,
  ◌∙◌, sym, ap, List, [], ◌∷◌, ◌++◌, Bool, true, false, ◌&&◌, ◌||◌, not, arith, mem, length, String,
  take, Bool-cases, inl, inr, is_empty,
}
use level_fs.Navigation.{NavigationContext}

-- The bytes of a buffer, by their offsets.
abbrev pub Buffer : Type 0
Buffer = ℕ → ℕ

-- memcpy of these bytes into the buffer.
unfoldable pub put_bytes : ℕ → List ℕ → Buffer → Buffer
put_bytes offset [] buffer i = buffer i
put_bytes offset (b ∷ bs) buffer i = if i == offset then b else put_bytes (offset + 1) bs buffer i

-- memcpy of `n` bytes out of the buffer.
unfoldable pub get_bytes : ℕ → ℕ → Buffer → List ℕ
get_bytes offset zero buffer = []
get_bytes offset (suc n) buffer = buffer offset ∷ get_bytes (offset + 1) n buffer

-- The `n` bytes of an integer on a little-endian machine, and their value.
unfoldable pub to_bytes : ℕ → ℕ → List ℕ
to_bytes zero x = []
to_bytes (suc n) x = x % 256 ∷ to_bytes n (x / 256)

unfoldable pub from_bytes : List ℕ → ℕ
from_bytes [] = 0
from_bytes (b ∷ bs) = b + 256 * from_bytes bs

-- The string in a zero-terminated array.
unfoldable pub c_string : List ℕ → String
c_string [] = []
c_string (c ∷ cs) = if c == 0 then [] else c ∷ c_string cs

abbrev pub zeroed : Buffer
zeroed i = 0

-- The fields at their places, in a buffer of zeros.
abbrev pub image : NavigationContext → Buffer
image ctx = put_bytes 148 (take 32 ctx.current_version) (
    put_bytes 48 (take 100 ctx.current_path) (
      put_bytes 40 (to_bytes 4 ctx.current_folder_perms) (
        put_bytes 32 (to_bytes 8 ctx.root_level_id) (
          put_bytes 24 (to_bytes 8 ctx.current_level_id) (
            put_bytes 16 (to_bytes 8 ctx.root_content_cluster) (
              put_bytes 8 (to_bytes 8 ctx.current_content_cluster)
                (put_bytes 0 (to_bytes 8 ctx.current_dir_cluster) zeroed)))))))

-- A buffer of fewer than 256 bytes is left as it is.
unfoldable pub serialize : NavigationContext → ℕ → Buffer → Buffer
serialize ctx buffer_size buffer = if ltb buffer_size 256 then buffer else image ctx

unfoldable pub deserialize : NavigationContext → ℕ → Buffer → NavigationContext
deserialize ctx buffer_size buffer = if ltb buffer_size 256 then ctx else record ctx {
  current_dir_cluster = from_bytes (get_bytes 0 8 buffer);
  current_content_cluster = from_bytes (get_bytes 8 8 buffer);
  root_content_cluster = from_bytes (get_bytes 16 8 buffer);
  current_level_id = from_bytes (get_bytes 24 8 buffer);
  root_level_id = from_bytes (get_bytes 32 8 buffer);
  current_folder_perms = from_bytes (get_bytes 40 4 buffer);
  current_path = c_string (get_bytes 48 100 buffer);
  current_version = c_string (get_bytes 148 32 buffer);
}
