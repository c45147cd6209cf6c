-- ===== src/Tests/ReaderTests.antt =====
-- Files read in blocks, and the witness of the theorem on blocks.
use cpp_project.Prelude.{
  ◌≤◌, ◌≡◌, ◌⊎◌, refl, true, false, List, [], ◌∷◌, ◌++◌, length, Option, none, some, ◌==◌,
  if◌then◌else◌,
}
use cpp_project.Run.{Run, ok, ◌>>=◌}
use cpp_project.CannonProxy.FilesReader
use cpp_project.CannonProxy.FilesReader.{Line, Stream, Reader, get_lines}
use cpp_project.CannonProxy.FilesReader.Rounds.{pending}
use cpp_project.CannonProxy.FilesReader.Blocks.{get_lines-pending}

-- The file 1 has the lines 7, an empty one and 8; the file 3 the lines 9 and 5, without a newline at
-- its end; other files cannot be opened.
abbrev stored : Line → Option Stream
stored [] = none
stored (name ∷ rest) =
    if name == 1
    then some (record { lines = (7 ∷ []) ∷ [] ∷ (8 ∷ []) ∷ []; ends = true })
    else if name == 3
    then some (record { lines = (9 ∷ []) ∷ (5 ∷ []) ∷ []; ends = false })
    else none

abbrev reader : Reader
reader = record { files = (1 ∷ []) ∷ (2 ∷ []) ∷ (3 ∷ []) ∷ []; ifs = none }

get_lines-pending_example :
    (r' : Reader) × (ret : List Line) × (get_lines stored 3 reader ≡ ok (r', ret))
    × (ret ++ pending stored r' ≡ pending stored reader)
    × (length ret ≤ 3)
    × ((length ret ≡ 3) ⊎ (pending stored r' ≡ []))
get_lines-pending_example = get_lines-pending stored 3 reader

two_blocks : Run (List Line × List Line)
unfolding get_lines
two_blocks = do
  first ← get_lines stored 3 reader
  second ← get_lines stored 3 first.0
  ok (first.1, second.1)

two_blocks_read : two_blocks ≡ ok ((7 ∷ []) ∷ (8 ∷ []) ∷ (9 ∷ []) ∷ [], (5 ∷ []) ∷ [])
unfolding two_blocks FilesReader.get_loop FilesReader.open_file_if_needed FilesReader.open_next
    FilesReader.read_open FilesReader.take_lines FilesReader.push_line
two_blocks_read = refl
