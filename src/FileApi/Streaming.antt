-- ===== src/FileApi/Streaming.antt =====
-- What a read of monitor/src/api/fs.rs streams.
use azad_server_box.Prelude.{ℕ, ◌≡◌, ◌⊎◌, Option, none, some, List, [], ◌∷◌, ◌++◌, Result, ok, err}
use azad_server_box.FsRoots.{FilePath}
use azad_server_box.FileApi.{IoError, Os}
use azad_server_box.FileApi.Paths.{path_eq}

-- The bytes of a stream, and the error that it yields.
abbrev pub joined : List (Result (List ℕ) IoError) → List ℕ
joined [] = []
joined (ok bytes ∷ items) = bytes ++ joined items
joined (err e ∷ items) = joined items

abbrev pub failure_of : List (Result (List ℕ) IoError) → Option IoError
failure_of [] = none
failure_of (ok bytes ∷ items) = failure_of items
failure_of (err e ∷ items) = some e

-- A stream holds these bytes, or the first of them up to the error of a read.
abbrev pub Holds : Os → FilePath → List ℕ → List (Result (List ℕ) IoError) → Type 0
Holds os path bytes items =
    (rest : List ℕ) × (bytes ≡ joined items ++ rest)
    × (((failure_of items ≡ none) × (rest ≡ []))
        ⊎ ((position : ℕ) × (e : IoError) × (os.read_error path position ≡ some e)
            × (failure_of items ≡ some e)))
