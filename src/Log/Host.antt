-- ===== src/Log/Host.antt =====
-- What the operating system does for atb_sak/src/log/_atb_log.cpp, and what is documented of it.
use vm.Prelude.{ℕ, ◌≡◌, Bool, false, Option, List, [], ◌∷◌, ◌++◌, if◌then◌else◌, ◌==◌}
use vm.Prelude.Int.{ℤ}
use vm.Prelude.Text.{Text, text_key}

-- `struct tm`.
pub record Tm : Type 0 where
  pub tm_year : ℕ
  pub tm_mon : ℕ
  pub tm_mday : ℕ
  pub tm_hour : ℕ
  pub tm_min : ℕ
  pub tm_sec : ℕ

-- The calls on files, over a state of the files. `mkdir` is true where the directory is there after it,
-- `open_append` where the stream is open, `exists` is `access` with F_OK, `append` writes a line to the
-- stream that is open on this path, `print` is `printf`, and `read` gives the bytes of a file that opens.
pub record Host (W : Type 0) : Type 0 where
  pub mkdir : Text → W → W × Bool
  pub open_append : Text → W → W × Bool
  pub exists : Text → W → Bool
  pub rename : Text → Text → W → W
  pub remove : Text → W → W
  pub append : Text → Text → W → W
  pub print : Text → W → W
  pub read : Text → W → Option Text
  pub localtime : ℤ → Tm

-- The lines of a file, none for a file that is not there, and whether a `rename` succeeds. A file that is
-- opened to append keeps its lines; a file that is renamed to a new name keeps them under that name.
pub record IsLawful {W : Type 0} (host : Host W) : Type 0 where
  pub content : Text → W → List Text
  pub renames : Text → Text → W → Bool
  pub content-append :
      (p line q : Text) (w : W)
      → content q (host.append p line w)
        ≡ (if p == q then content q w ++ line ∷ [] else content q w)
  pub content-open_append : (p q : Text) (w : W) → content q (host.open_append p w).0 ≡ content q w
  pub content-exists : (q : Text) (w : W) → host.exists q w ≡ false → content q w ≡ []
  pub content-rename :
      (p q r : Text) (w : W)
      → host.exists q w ≡ false
      → content r (host.rename p q w) ≡ (
          if renames p q w
          then (if q == r then content p w else (if p == r then [] else content r w))
          else content r w)
