-- ===== src/Base/Errors.antt =====
-- Errors as values, and methods that change a state and may fail.
use mathlib.Core.Bool.{Bool, true, false}
use mathlib.Core.Path.{◌≡◌, refl}

-- The sentinel errors that the code tells apart. A wrapped error (`%w`) is the error that it wraps,
-- as `errors.Is` sees it; message texts are not modelled.
pub data Error : Type 0 where
  key_not_found key_exists wrong_revision no_keys_found unavailable : Error
  not_found cas_conflict validation : Error
  marshal_failed unmarshal_failed : Error
  invalid_definition : Error
  missing_workflow_id : Error
  failed index_out_of_range : Error

pub data Result (A : Type 0) : Type 0 where
  ok : A → Result A
  err : Error → Result A

abbrev pub is_ok : {A : Type 0} → Result A → Bool
is_ok (ok _) = true
is_ok (err _) = false

pub ok_value : {A : Type 0} (r : Result A) → is_ok r ≡ true → (x : A) × (r ≡ ok x)
ok_value (ok x) h = (x, refl)
ok_value (err e) h = cc

-- What was written before an error stays written, so the state comes back beside the error too.
abbrev pub Exec : Type 0 → Type 0 → Type 0
Exec S A = S → Result A × S

module _ {S A : Type 0} where
  abbrev pub pure : A → Exec S A
  pure a s = (ok a, s)

  abbrev pub raise : Error → Exec S A
  raise e s = (err e, s)

  -- a call that only reads
  abbrev pub reads : (S → Result A) → Exec S A
  reads f s = (f s, s)

  -- a pure call that may fail
  abbrev pub lift : Result A → Exec S A
  lift r s = (r, s)

  -- the call's error is handed to the caller as a value
  abbrev pub attempt : Exec S A → Exec S (Result A)
  attempt m s = let (r, t) = m s in (ok r, t)

module _ {S A B : Type 0} where
  abbrev pub continue : Result A → (A → Exec S B) → Exec S B
  continue (ok a) f s = f a s
  continue (err e) f s = (err e, s)

  infixl 5 ◌>>=◌ ◌>>◌
  abbrev pub ◌>>=◌ : Exec S A → (A → Exec S B) → Exec S B
  ◌>>=◌ m f s = let (r, t) = m s in continue r f t

  abbrev pub ◌>>◌ : Exec S A → Exec S B → Exec S B
  m >> n = m >>= λ _. n

  -- `if err == nil { return f(a) }`, and otherwise the handler on the error
  abbrev pub catch : Result A → (A → Exec S B) → (Error → Exec S B) → Exec S B
  catch (ok a) f g = f a
  catch (err e) f g = g e
