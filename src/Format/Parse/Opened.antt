-- ===== src/Format/Parse/Opened.antt =====
-- Lemmas on `BinaryLoader::load`: what it gives for each state of the stream.
use binary_atlas.Prelude.{ℕ, ◌≡◌, ◌⊎◌, inl, inr, refl, none, some, List, ◌++◌}
use binary_atlas.Prelude.Text.{Text, lit}
use binary_atlas.Util.FileIo.{FileContents, absent, unreadable, readable, read_binary_file}
use binary_atlas.Core.Error.{failure, io}
use binary_atlas.Format.ElfTypes.{Elf}
use binary_atlas.Format.Parse.{parse_buffer, parse_file, load}

module _ (e : Elf) (path : Text) where
  -- The three outcomes: an exception, an I/O error, or what the parser makes of the bytes.
  pub load_cases :
      (contents : FileContents)
      → ((contents ≡ unreadable) × (load e contents path ≡ none))
        ⊎ ((contents ≡ absent)
            × (load e contents path ≡ some (failure (io (lit "failed to open file: " ++ path)))))
        ⊎ ((bytes : List ℕ) × (contents ≡ readable bytes)
            × (load e contents path ≡ some (parse_buffer e path bytes)))
  unfolding load parse_file read_binary_file
  load_cases absent = inr (inl (refl, refl))
  load_cases unreadable = inl (refl, refl)
  load_cases (readable bytes) = inr (inr (bytes, refl, refl))

  pub load-none : (contents : FileContents) → load e contents path ≡ none → contents ≡ unreadable
  load-none contents h = elim (load_cases contents) [
    | inl (u, q) ↦ u
    | inr (inl (u, q)) ↦ absurd (cc (h, q))
    | inr (inr (bytes, u, q)) ↦ absurd (cc (h, q))
  ]
