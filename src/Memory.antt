-- ===== src/Memory.antt =====
-- A `std::vector<byte>`, and the reads and writes that the program makes in it through pointers.
-- A byte is its bit pattern, a number below 256.
pub mod Records
use cpp_project.Prelude.{
  ℕ, ◌+◌, List, [], ◌∷◌, ◌++◌, length, take, drop, leb, Bool, true, false, ◌&&◌, ◌==◌,
  if◌then◌else◌,
}
use cpp_project.Run.{Run, ok, fault, out_of_bounds}

-- `memcpy(…, &v[off], n)`
unfoldable pub read : List ℕ → ℕ → ℕ → Run (List ℕ)
read v off n = if leb (off + n) (length v) then ok (take n (drop off v)) else fault out_of_bounds

-- `memcpy(&v[off], bytes, …)`
unfoldable pub write : List ℕ → ℕ → List ℕ → Run (List ℕ)
write v off bytes =
    if leb (off + length bytes) (length v)
    then ok (take off v ++ (bytes ++ drop (off + length bytes) v))
    else fault out_of_bounds

-- `memcmp(…) == 0`
unfoldable pub bytes_equal : List ℕ → List ℕ → Bool
bytes_equal [] [] = true
bytes_equal (a ∷ av) (b ∷ bs) = a == b && bytes_equal av bs
bytes_equal _ _ = false
