-- ===== src/Buffer.antt =====
-- src/buffer.cpp: a byte queue in a growing vector, with a read and a write position. Sizes are
-- taken to stay below 2 ^ 64, so `std::size_t` does not wrap.
pub mod Queue
mod Tests
use l_w.Base.{
  ℕ, zero, suc, ◌+◌, ◌-◌, Bool, List, [], ◌++◌, Option, none, some, ltb, leb, ◌==◌, if◌then◌else◌,
  length, take, drop, replicate,
}

pub record Buffer : Type 0 where
  pub buffer : List ℕ
  pub read_pos : ℕ
  pub write_pos : ℕ

-- `Buffer(initial_size)`: the vector starts as zeros.
unfoldable pub new : ℕ → Buffer
new initial_size = record { buffer = replicate initial_size 0; read_pos = 0; write_pos = 0 }

-- `std::vector::resize`.
abbrev pub resize : List ℕ → ℕ → List ℕ
resize xs n = if leb n (length xs) then take n xs else xs ++ replicate (n - length xs) 0

-- `std::copy` of `bytes` to position `pos` of the vector.
abbrev pub copy_to : List ℕ → ℕ → List ℕ → List ℕ
copy_to bytes pos xs = take pos xs ++ (bytes ++ drop (pos + length bytes) xs)

unfoldable pub readable_bytes : Buffer → ℕ
readable_bytes b = b.write_pos - b.read_pos

unfoldable pub writeable_bytes : Buffer → ℕ
writeable_bytes b = length b.buffer - b.write_pos

unfoldable pub prependable_bytes : Buffer → ℕ
prependable_bytes b = b.read_pos

unfoldable pub empty : Buffer → Bool
empty b = b.read_pos == b.write_pos

-- The pointer that `peek` returns, as the bytes from there to the end of the vector.
unfoldable pub peek : Buffer → List ℕ
peek b = drop b.read_pos b.buffer

unfoldable pub retrieve_all : Buffer → Buffer
retrieve_all b = record b { read_pos = 0; write_pos = 0 }

-- `none`: the assertion `len <= readable_bytes()` fails.
unfoldable pub retrieve : Buffer → ℕ → Option Buffer
unfolding retrieve_all readable_bytes
retrieve b len =
    if ltb (readable_bytes b) len
    then none
    else some (
        if ltb len (readable_bytes b)
        then record b { read_pos = b.read_pos + len }
        else retrieve_all b)

unfoldable pub retrieve_all_as_string : Buffer → List ℕ × Buffer
unfolding retrieve_all readable_bytes peek
retrieve_all_as_string b = (take (readable_bytes b) (peek b), retrieve_all b)

unfoldable pub make_space : Buffer → ℕ → Buffer
unfolding writeable_bytes prependable_bytes readable_bytes
make_space b len =
    if ltb (writeable_bytes b + prependable_bytes b) len
    then record b { buffer = resize b.buffer (b.write_pos + len) }
    else record b {
      buffer = copy_to (take (readable_bytes b) (drop b.read_pos b.buffer)) 0 b.buffer;
      read_pos = 0;
      write_pos = readable_bytes b;
    }

unfoldable pub ensure_writable_bytes : Buffer → ℕ → Buffer
unfolding make_space writeable_bytes
ensure_writable_bytes b len = if leb len (writeable_bytes b) then b else make_space b len

unfoldable pub append : Buffer → List ℕ → Buffer
unfolding ensure_writable_bytes
append b bytes =
    let room = ensure_writable_bytes b (length bytes) in
    record room {
      buffer = copy_to bytes room.write_pos room.buffer;
      write_pos = room.write_pos + length bytes;
    }
