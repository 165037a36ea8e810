-- ===== src/Util/FileIo.antt =====
-- src/util/file_io.cpp and the class `Status` of include/binaryatlas/core/result.hpp. What the file
-- system does is an argument: whether a file opens, can be read, and its bytes; whether a stream is open
-- and good; the message of a failed `create_directories`.
use binary_atlas.Prelude.{Bool, not, Option, none, some, List, ℕ, ◌++◌, if◌then◌else◌}
use binary_atlas.Prelude.Text.{Text, lit}
use binary_atlas.Core.Error.{Error, Result, success, failure, io}

-- `Status::ok` is true of `Status.ok`; `Status::error` gives the error of `Status.failed`.
pub data Status : Type 0 where
  ok : Status
  failed : Error → Status

-- What the stream of a file is: not open; open, where a read of its buffer throws
-- `std::ios_base::failure`, as that of a directory does; or open, with the bytes that it gives.
pub data FileContents : Type 0 where
  absent : FileContents
  unreadable : FileContents
  readable : List ℕ → FileContents

-- `none` is the exception of the read, which the function does not catch.
unfoldable pub read_binary_file : FileContents → Text → Option (Result (List ℕ))
read_binary_file absent path = some (failure (io (lit "failed to open file: " ++ path)))
read_binary_file unreadable path = none
read_binary_file (readable bytes) path = some (success bytes)

-- `good`: the stream is good after `content` was written to it.
unfoldable pub write_text_file : Bool → Bool → Text → Status
write_text_file opened good path =
    if not opened
    then Status.failed (io (lit "failed to open output file: " ++ path))
    else if not good
    then Status.failed (io (lit "failed to write output file: " ++ path))
    else Status.ok

unfoldable pub ensure_directory : Option Text → Text → Status
ensure_directory (some message) path =
    Status.failed (io (lit "failed to create directory " ++ (path ++ (lit ": " ++ message))))
ensure_directory none path = Status.ok
