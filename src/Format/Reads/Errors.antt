-- ===== src/Format/Reads/Errors.antt =====
-- Lemmas on the reads of src/format/elf_parser.cpp: the kind of their errors.
use binary_atlas.Prelude.{
  ℕ, zero, suc, ◌+◌, ◌≡◌, Bool, true, false, Option, none, some, if◌then◌else◌,
}
use binary_atlas.Prelude.Text.{Text}
use binary_atlas.Util.ByteReader.{ByteReader, Layout}
use binary_atlas.Core.Error.{
  parse_error, Error, Result, success, failure, parse, reject_if, or_fail, ◌>>=◌,
}
use binary_atlas.Format.Reads.{
  read_bounded_span, compute_entry_count, read_entry, read_entries, read_table,
}

-- A result that is a value or a parse error.
pub data OnlyParse {A : Type 0} : Result A → Type 0 where
  returns : (a : A) → OnlyParse (success a)
  fails : (message : Text) → OnlyParse (failure (parse message))

pub OnlyParse-code :
    {A : Type 0} {r : Result A} → OnlyParse r → (e : Error) → r ≡ failure e → e.code ≡ parse_error
OnlyParse-code (returns a) e h = cc
OnlyParse-code (fails message) e h = cc

pub bind-OnlyParse :
    {A B : Type 0} {m : Result A} {f : A → Result B}
    → OnlyParse m
    → ((a : A) → OnlyParse (f a))
    → OnlyParse (m >>= f)
bind-OnlyParse (returns a) h = h a
bind-OnlyParse (fails message) h = fails message

pub or_fail-OnlyParse :
    {A : Type 0} (o : Option A) (message : Text) → OnlyParse (or_fail o (parse message))
or_fail-OnlyParse none message = fails message
or_fail-OnlyParse (some a) message = returns a

pub reject_if-OnlyParse : (b : Bool) (message : Text) → OnlyParse (reject_if b (parse message))
reject_if-OnlyParse true message = fails message
reject_if-OnlyParse false message = returns tt

pub if-OnlyParse :
    {A : Type 0} (b : Bool) {x y : Result A}
    → OnlyParse x
    → OnlyParse y
    → OnlyParse (if b then x else y)
if-OnlyParse true p q = p
if-OnlyParse false p q = q

pub ruleset parses = (returns, bind-OnlyParse, or_fail-OnlyParse, reject_if-OnlyParse, if-OnlyParse)

pub read_bounded_span-OnlyParse :
    (reader : ByteReader) (offset n : ℕ) (label : Text)
    → OnlyParse (read_bounded_span reader offset n label)
unfolding read_bounded_span
read_bounded_span-OnlyParse reader offset n label = search parses

pub compute_entry_count-OnlyParse :
    (byte_size entry_size : ℕ) (label : Text)
    → OnlyParse (compute_entry_count byte_size entry_size label)
unfolding compute_entry_count
compute_entry_count-OnlyParse byte_size entry_size label = search parses

module _ {T : Type 0} (layout : Layout T) (reader : ByteReader) (offset entry_size : ℕ)
    (label : Text) where
  read_entry-OnlyParse :
      (index : ℕ) → OnlyParse (read_entry layout reader offset entry_size label index)
  unfolding read_entry
  read_entry-OnlyParse index = search parses

  read_entries-OnlyParse :
      (n index : ℕ) → OnlyParse (read_entries layout reader offset entry_size label index n)
  unfolding read_entries
  read_entries-OnlyParse zero index = returns _
  read_entries-OnlyParse (suc n) index =
      search (parses, read_entry-OnlyParse, read_entries-OnlyParse n (index + 1))

  pub read_table-OnlyParse :
      (count : ℕ) → OnlyParse (read_table layout reader offset entry_size label count)
  unfolding read_table
  read_table-OnlyParse count = search (parses, read_entries-OnlyParse) depth 12
