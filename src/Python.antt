-- ===== src/Python.antt =====
-- Operations of Python's `str` and of its modules `re` and `shlex` that the providers use on the
-- texts that they read.
use lapcare.Common.{String, Bool, Option, List}
use lapcare.Common.Int.{ℤ}

pub record Str : Type 0 where
  -- `s.splitlines()`, `s.split()`, `s.strip()`, `s.strip('"')`, `s.upper()`, `s.lower()`
  pub split_lines : String → List String
  pub split : String → List String
  pub strip : String → String
  pub strip_quotes : String → String
  pub upper : String → String
  pub lower : String → String
  -- `part in s`
  pub contains : String → String → Bool
  -- the parts of `s.partition(separator)` before and after the separator
  pub before : String → String → String
  pub after : String → String → String
  -- `int(s)`, nothing on a `ValueError`
  pub parse_int : String → Option ℤ
  -- `shlex.split(s)`, nothing on a `ValueError`
  pub shlex_split : String → Option (List String)
