-- ===== src/QueryLog/Tests.antt =====
-- Runs of the log writer.
use stpt_query.Common.{
  ℕ, suc, ◌<◌, ◌≡◌, refl, ap, String, Bool, ◌||◌, none, some, [], ◌∷◌, ◌==◌, if◌then◌else◌, arith,
}
use stpt_query.Common.Dict
use stpt_query.QueryLog.{
  Bytes, Files, rotate, iter_file_lines, read_back, split, iter_recent_lines, iter_lines,
  archive_files,
}
use stpt_query.QueryLog.Reading.{lines_of, iter_file_lines_lem}
use stpt_query.QueryLog.Written.{written, IsLine, iter_file_lines-written}
use stpt_query.QueryLog.Rotation.{IsGapless, rotate_lem}

abbrev space : ℕ → Bool
space c = (c == 32) || (c == 10)

abbrev first : Bytes
first = 65 ∷ 66 ∷ []

abbrev second : Bytes
second = 67 ∷ []

first-IsLine : IsLine space first
first-IsLine = record { one = (refl, (refl, tt)); stripped = refl; full = refl }

second-IsLine : IsLine space second
second-IsLine = record { one = (refl, tt); stripped = refl; full = refl }

iter_file_lines_lem_example :
    iter_file_lines space 2 (32 ∷ 65 ∷ 10 ∷ 10 ∷ 66 ∷ [])
    ≡ lines_of space (split (32 ∷ 65 ∷ 10 ∷ 10 ∷ 66 ∷ []))
iter_file_lines_lem_example =
    iter_file_lines_lem space 2 (omega arith) (32 ∷ 65 ∷ 10 ∷ 10 ∷ 66 ∷ [])

iter_file_lines-written_example :
    iter_file_lines space 2 (written (second ∷ first ∷ [])) ≡ second ∷ first ∷ []
iter_file_lines-written_example =
    iter_file_lines-written space 2 (omega arith) (second ∷ first ∷ [])
      (second-IsLine, (first-IsLine, tt))

-- A current file with the last line, and one backup with an older one.
abbrev two_files : Files
two_files i =
    if i == 0 then some (67 ∷ 10 ∷ []) else if i == 1 then some (65 ∷ 66 ∷ 10 ∷ []) else none

two_IsGapless : IsGapless 1 two_files
two_IsGapless i l u e =
    let same : i ≡ 1 = omega arith in absurd (ground (arith, ap (λ j. two_files j) same))

rotate_lem_example :
    (rotate 2 2 two_files 0 ≡ none)
    × ((i : ℕ) → i < 2 → rotate 2 2 two_files (suc i) ≡ two_files i)
    × ((j : ℕ) → 2 < j → rotate 2 2 two_files j ≡ two_files j)
rotate_lem_example = rotate_lem 2 2 two_files refl (omega arith) two_IsGapless

-- The lines of the older file come first.
older_first : iter_recent_lines space 65536 2 two_files ≡ first ∷ second ∷ []
unfolding iter_recent_lines iter_lines archive_files iter_file_lines read_back
older_first = refl

abbrev entry : Dict.Dict String
entry = ("event", "query") ∷ ("password", "p") ∷ []
