-- ===== src/FsType/Disk.antt =====
-- A partition as `std::fs::File` reads it: bytes and a position.
use tinyboot.Prelude.{
  ℕ, ◌+◌, ◌-◌, Bool, true, false, List, ◌++◌, Option, none, some, if◌then◌else◌, leb, length, drop,
  take, replicate,
}
use tinyboot.FsType.{Reader}

pub record Cursor : Type 0 where
  pub bytes : List ℕ
  pub position : ℕ

unfoldable pub seek : ℕ → Cursor → Bool × Cursor
seek start c = (true, record c { position = start })

-- At the end of the bytes the buffer holds what there was, and keeps its zeros behind that.
unfoldable pub read_exact : ℕ → Cursor → Bool × List ℕ × Cursor
read_exact len c =
    let rest = drop c.position c.bytes in
    let n = length rest in
    if leb len n
    then (true, take len rest, record c { position = c.position + len })
    else (false, rest ++ replicate (len - n) 0, record c { position = c.position + n })

abbrev pub disk : Reader
disk = record { State = Cursor; seek = seek; read_exact = read_exact }

abbrev pub opened : List ℕ → Cursor
opened bytes = record { bytes = bytes; position = 0 }

-- The bytes at a place, if they are all there.
unfoldable pub slice : ℕ → ℕ → List ℕ → Option (List ℕ)
slice start len bytes =
    let rest = drop start bytes in if leb len (length rest) then some (take len rest) else none
