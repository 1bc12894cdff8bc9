-- ===== src/Exclude/Ignore.antt =====
-- internal/exclude/exclude.go: the ignore files.
use aibris.Prelude.{
  ◌==◌, ◌≡◌, refl, ap, Text, codes, List, [], ◌∷◌, ◌++◌, map, false, not, Option, none, some,
  if◌then◌else◌, is_empty, any_of, All, arith,
}
use aibris.FilePath.{join, extend}
use aibris.Cleaner.Items.{trim_space}
use aibris.Exclude.{ExcludeSource, Pattern}
use aibris.Exclude.Patterns.{is_skipped}

-- What the ignore files are read from: XDG_CONFIG_HOME, os.UserHomeDir and os.ReadFile.
pub record IgnoreSystem : Type 0 where
  pub xdg_config_home : Text
  pub user_home : Option Text
  pub read_file : Text → Option Text

abbrev home_ignore_file : Option Text → Text
home_ignore_file none = []
home_ignore_file (some home) =
    if is_empty home
    then []
    else join (join (join home (codes ".config")) (codes "aibris")) (codes "ignore")

-- UserIgnoreFile
unfoldable pub user_ignore_file : IgnoreSystem → Text
user_ignore_file system =
    if not (is_empty system.xdg_config_home)
    then join (join system.xdg_config_home (codes "aibris")) (codes "ignore")
    else home_ignore_file system.user_home

-- RootIgnoreFile
unfoldable pub root_ignore_file : Text → Text
root_ignore_file root = join root (codes ".aibris-ignore")

-- strings.Split(text, "\n")
unfoldable pub split_lines : Text → List Text
split_lines [] = [] ∷ []
split_lines (c ∷ s) = let rest = split_lines s in if c == 10 then [] ∷ rest else extend c rest

-- The loop over the lines of a file.
unfoldable pub pattern_lines : List Text → List Text
pattern_lines [] = []
pattern_lines (line ∷ lines) =
    let rest = pattern_lines lines in
    if is_skipped (trim_space line) then rest else trim_space line ∷ rest

abbrev pub lines_of : Option Text → List Text
lines_of none = []
lines_of (some contents) = pattern_lines (split_lines contents)

-- readIgnoreFile
unfoldable pub read_ignore_file : IgnoreSystem → Text → List Text
read_ignore_file system path = if is_empty path then [] else lines_of (system.read_file path)

abbrev pub from_ignore_file : Text → Pattern
from_ignore_file line = record { raw = line; source = ExcludeSource.ignore_file }

unfoldable pub patterns_of_files : IgnoreSystem → List Text → List Pattern
patterns_of_files system [] = []
patterns_of_files system (file ∷ files) =
    map from_ignore_file (read_ignore_file system file) ++ patterns_of_files system files

-- IgnoreFilePatterns
unfoldable pub ignore_file_patterns : IgnoreSystem → List Text → List Pattern
ignore_file_patterns system roots =
    patterns_of_files system (user_ignore_file system ∷ map root_ignore_file roots)

-- A line of an ignore file that stands for itself.
pub record IsPatternLine (line : Text) : Type 0 where
  pub one_line : any_of (λ c. c == 10) line ≡ false
  pub trimmed : trim_space line ≡ line
  pub used : is_skipped line ≡ false

-- The lines, each with its end.
unfoldable pub written : List Text → Text
written [] = []
written (line ∷ lines) = line ++ 10 ∷ written lines

split_lines-append :
    (line s : Text)
    → any_of (λ c. c == 10) line ≡ false
    → split_lines (line ++ 10 ∷ s) ≡ line ∷ split_lines s
unfolding split_lines any_of
split_lines-append [] s h = refl
split_lines-append (c ∷ line) s h = rw (split_lines-append line s (ground arith)) (ground arith)

pattern_lines-written :
    (lines : List Text)
    → All IsPatternLine lines
    → pattern_lines (split_lines (written lines)) ≡ lines
unfolding written pattern_lines
pattern_lines-written [] h = unfold split_lines trim_space in refl
pattern_lines-written (line ∷ lines) h =
    rw (split_lines-append line (written lines) h.0.one_line)
      (rw h.0.trimmed (rw h.0.used (ap (◌∷◌ line) (pattern_lines-written lines h.1))))

-- Lines that stand for themselves, written to an ignore file one by one, are read back as they are.
pub read_ignore_file-written :
    (system : IgnoreSystem) (path : Text) (lines : List Text)
    → is_empty path ≡ false
    → system.read_file path ≡ some (written lines)
    → All IsPatternLine lines
    → read_ignore_file system path ≡ lines
unfolding read_ignore_file
read_ignore_file-written system path lines named there h =
    rw named (rw there (pattern_lines-written lines h))
