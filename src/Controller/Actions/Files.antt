-- ===== src/Controller/Actions/Files.antt =====
-- What the actions do to the contents of the files. The other programs are an argument: what they
-- do to the files is not in the code.
use mathlib.Core.Bool.{false}
use memory_mutation_testing.Base.{◌≡◌, refl, Option, none, some, List, [], ◌∷◌, ◌++◌, if◌then◌else◌}
use memory_mutation_testing.Base.Text.{Bytes, bytes_eq, bytes_eq_self}
use memory_mutation_testing.Controller.Actions.{
  Action, run, make, filter, set_env, make_dir, change_dir, remove, write, Program, cp, copy_file,
}

-- The content of the file at each path; `none` where there is no file.
abbrev pub Files : Type 0
Files = Bytes → Option Bytes

abbrev pub put : Files → Bytes → Option Bytes → Files
put f path text = λ p. if bytes_eq p path then text else f p

-- `cp` of a file that is missing leaves the other as it is.
abbrev pub replaced : Files → Bytes → Option Bytes → Files
replaced f target none = f
replaced f target (some text) = put f target (some text)

abbrev pub copied : Files → Bytes → Bytes → Files
copied f src target = replaced f target (f src)

module _ (outside : Action → Files → Files) where
  abbrev pub run_effect : Program → List Bytes → Files → Files
  run_effect cp (src ∷ target ∷ []) f = copied f src target
  run_effect p args f = outside (run p args) f

  abbrev pub effect : Action → Files → Files
  effect (run p args) f = run_effect p args f
  effect (make dir str target) f = outside (make dir str target) f
  effect (filter script) f = outside (filter script) f
  effect (set_env v text) f = f
  effect (make_dir dir) f = f
  effect (change_dir dir) f = f
  effect (remove path) f = put f path none
  effect (write path text) f = put f path (some text)

  unfoldable pub effects : List Action → Files → Files
  effects [] f = f
  effects (a ∷ as') f = effects as' (effect a f)

  pub effects-append :
      (xs ys : List Action) (f : Files) → effects (xs ++ ys) f ≡ effects ys (effects xs f)
  unfolding effects
  effects-append [] ys f = refl
  effects-append (a ∷ xs) ys f = effects-append xs ys (effect a f)

  pub copy_file-effects :
      (src target : Bytes) (f : Files) → effects (copy_file src target) f ≡ copied f src target
  unfolding effects copy_file
  copy_file-effects src target f = refl

pub put_other :
    (f : Files) (path : Bytes) (text : Option Bytes) (p : Bytes)
    → bytes_eq p path ≡ false
    → put f path text p ≡ f p
put_other f path text p e = rw e refl

replaced_other :
    (f : Files) (target : Bytes) (m : Option Bytes) (p : Bytes)
    → bytes_eq p target ≡ false
    → replaced f target m p ≡ f p
replaced_other f target none p e = refl
replaced_other f target (some text) p e = put_other f target (some text) p e

-- A copy leaves the other files.
pub copied_other :
    (f : Files) (src target p : Bytes) → bytes_eq p target ≡ false → copied f src target p ≡ f p
copied_other f src target p e = replaced_other f target (f src) p e

-- The copy of a file that is there has its content.
pub copied_same :
    (f : Files) (src target text : Bytes)
    → f src ≡ some text
    → copied f src target target ≡ some text
copied_same f src target text e = rw (e, bytes_eq_self target) refl
