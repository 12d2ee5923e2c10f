-- ===== src/Libk/Printf/Print.antt =====
-- The variadic calls of src/libk/stdio.c: `fprintf`, `printf` and `perror`.
--
-- A format is given as it stands in the source. The memory holds the strings that `%s` prints,
-- and `literal` is the address of a string constant among them.
use ukulele.Base.{ℕ, List, [], ◌∷◌, String, characters, Option, none, some}
use ukulele.Libk.Errno.{strerror}
use ukulele.Libk.Str.{Memory}
use ukulele.Libk.Stdio.{Io}
use ukulele.Libk.Printf.Convert.{Printing}
use ukulele.Libk.Printf.Format.{vfprintf}

module _ {W : Type 0} (m : Memory) where
  pub fprintf : Io W → Option ℕ → String → List ℕ → Io W × ℕ
  fprintf io stream fmt args =
      let start : Printing W = record { io = io; args = args } in
      let out = vfprintf m stream (characters fmt) start in (out.0.io, out.1)

  pub printf : Io W → String → List ℕ → Io W × ℕ
  unfolding fprintf
  printf io fmt args = fprintf io io.stdout fmt args

  -- `none` is a null pointer.
  pub perror : (String → ℕ) → Io W → Option ℕ → Io W
  unfolding fprintf
  perror literal io (some str) =
      (fprintf io io.stderr "%s: %s\n" (str ∷ literal (strerror io.errno) ∷ [])).0
  perror literal io none = (fprintf io io.stderr "%s\n" (literal (strerror io.errno) ∷ [])).0
