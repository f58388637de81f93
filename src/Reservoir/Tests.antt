-- ===== src/Reservoir/Tests.antt =====
-- A trace of three records of one expert, of which two are kept.
use in_c_test.Prelude.{ℕ, ◌+◌, ◌≡◌, refl, Option, none, some, [], ◌∷◌, ok, list_eq}
use in_c_test.Prelude.Int.{ℤ, pos}
use in_c_test.Text.{Str, codes, strip}
use in_c_test.Json.{Json, int, obj, field, end, get, to_int}
use in_c_test.Reservoir.{Libraries, Manifest, build_reservoir}
use in_c_test.Reservoir.Bounds.{Bounded, build_reservoir-Bounded}

-- A vector is a number here, and a line is the number of its record.
abbrev vector_of : Json → Option ℤ
vector_of (int n) = some n
vector_of _ = none

abbrev record_of : Str → Option Json
record_of [] = none
record_of (c ∷ s) = some (
    obj (
      field (codes "layer") (int (pos 1))
        (field (codes "expert") (int (pos 4)) (field (codes "x") (int (pos c)) end))))

abbrev plain_libraries : Libraries
plain_libraries = record {
  Vector = ℤ;
  Random = ℕ;
  asarray = vector_of;
  length_of = λ v. some 1;
  loads = record_of;
  text_of = λ v. [];
  seeded = λ seed. 0;
  randrange = λ rng n. (rng, rng + 1);
}

abbrev kept_two : Manifest plain_libraries
kept_two = record {
  rows = 3;
  expert_count = 1;
  source_counts = [];
  kind_counts = [];
  experts = ((pos 1, pos 4), record { seen = 3; vectors = pos b'c' ∷ pos b'b' ∷ [] }) ∷ [];
}

three_lines :
    build_reservoir plain_libraries (codes "a\n\nb\nc\n") (pos 2) (pos 1) (pos 7) ≡ ok kept_two
unfolding build_reservoir strip list_eq get to_int
three_lines = refl

build_reservoir-Bounded_example : Bounded plain_libraries (codes "a\n\nb\nc\n") (pos 2) kept_two
build_reservoir-Bounded_example =
    build_reservoir-Bounded plain_libraries (codes "a\n\nb\nc\n") (pos 2) (pos 1) (pos 7) kept_two
      three_lines
