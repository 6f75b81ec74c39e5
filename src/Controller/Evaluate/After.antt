-- ===== src/Controller/Evaluate/After.antt =====
-- What holds after a step that may fault.
use mathlib.Core.Option as Option
use memory_mutation_testing.Base.{Bool, true, false, Option, none, some, checked}

module _ {S : Type 0} where
  abbrev pub After : (S → Type 0) → Option S → Type 0
  After P none = Unit {0}
  After P (some s) = P s

  pub After-map :
      (P Q : S → Type 0) (f : S → S) (m : Option S)
      → ((s : S) → P s → Q (f s))
      → After P m
      → After Q (Option.map f m)
  After-map P Q f none keep h = tt
  After-map P Q f (some s) keep h = keep s h

  pub After-checked : (P : S → Type 0) (b : Bool) (m : Option S) → After P m → After P (checked b m)
  After-checked P true m h = h
  After-checked P false m h = tt

  pub After-bind :
      (P Q : S → Type 0) (m : Option S) (next : S → Option S)
      → ((s : S) → P s → After Q (next s))
      → After P m
      → After Q (elim m [ none ↦ none | some s ↦ next s ])
  After-bind P Q none next keep h = tt
  After-bind P Q (some s) next keep h = keep s h
