-- ===== src/Shared/Runs.antt =====
-- How an action ends: rules that follow its code step by step.
use mathlib.Core.Path.{◌≡◌, refl, ap}
use mathlib.Core.Bool.{Bool, true, false}
use mathlib.Core.Option.{Option, none, some}
use native.Mathlib.Omega.{arith}
use agent_economy.Shared.Action.{
  Action, Result, ok, err, Error, gets, raise, raise_if, or_raise, handle, lift, after, ◌>>=◌, ◌>>◌,
}

module _ {S : Type 0} where
  -- A raise leaves a state in `Kept`, and a value comes with `Done`.
  abbrev pub Ends : {A : Type 0} → (S → Type 0) → (A → S → Type 0) → Result A × S → Type 0
  Ends Kept Done (err e, v) = Kept v
  Ends Kept Done (ok a, v) = Done a v

  pub record Runs {A : Type 0} (Kept : S → Type 0) (w : S) (m : Action S A) (Done : A → S → Type 0)
      : Type 0 where
    pub ends : Ends Kept Done (m w)

  module _ {A : Type 0} {Kept : S → Type 0} {w : S} {Done : A → S → Type 0} where
    pub run_raise_if :
        (c : Bool) (e : Error) (m : Action S A)
        → Kept w
        → (c ≡ false → Runs Kept w m Done)
        → Runs Kept w (raise_if c e >> m) Done
    run_raise_if true e m k h = record { ends = k }
    run_raise_if false e m k h = record { ends = (h refl).ends }

    pub run_or_raise :
        {X : Type 0} (o : Option X) (e : Error) (f : X → Action S A)
        → Kept w
        → ((x : X) → o ≡ some x → Runs Kept w (f x) Done)
        → Runs Kept w (or_raise o e >>= f) Done
    run_or_raise none e f k h = record { ends = k }
    run_or_raise (some x) e f k h = record { ends = (h x refl).ends }

    pub run_lift :
        {X : Type 0} (r : Result X) (f : X → Action S A)
        → Kept w
        → ((x : X) → r ≡ ok x → Runs Kept w (f x) Done)
        → Runs Kept w (lift r >>= f) Done
    run_lift (err e) f k h = record { ends = k }
    run_lift (ok x) f k h = record { ends = (h x refl).ends }

    -- A read, and a value that has to be there.
    pub run_find :
        {X : Type 0} (g : S → Option X) (e : Error) (f : X → Action S A)
        → Kept w
        → ((x : X) → g w ≡ some x → Runs Kept w (f x) Done)
        → Runs Kept w (gets g >>= λ o. or_raise o e >>= f) Done
    run_find g e f k h = record { ends = (run_or_raise (g w) e f k h).ends }

    -- Any call, by how it ends.
    pub run_call :
        {X : Type 0} (m : Action S X) (f : X → Action S A)
        → ((e : Error) (v : S) → m w ≡ (err e, v) → Kept v)
        → ((x : X) (v : S) → m w ≡ (ok x, v) → Runs Kept v (f x) Done)
        → Runs Kept w (m >>= f) Done
    run_call {X} m f k h = record { ends = go (m w) refl }
      where
        go : (o : Result X × S) → m w ≡ o → Ends Kept Done (let (r, v) = o in after r f v)
        go (err e, v) eq = k e v eq
        go (ok x, v) eq = (h x v eq).ends

    -- A call that comes last.
    pub run_last :
        (m : Action S A)
        → ((e : Error) (v : S) → m w ≡ (err e, v) → Kept v)
        → ((x : A) (v : S) → m w ≡ (ok x, v) → Done x v)
        → Runs Kept w m Done
    run_last m k h = record { ends = go (m w) refl }
      where
        go : (o : Result A × S) → m w ≡ o → Ends Kept Done o
        go (err e, v) eq = k e v eq
        go (ok x, v) eq = h x v eq

    -- A call of which it is known how it runs.
    pub run_bind :
        {X : Type 0} {Before : S → Type 0} {Between : X → S → Type 0} (m : Action S X)
        (f : X → Action S A)
        → Runs Before w m Between
        → ((v : S) → Before v → Kept v)
        → ((x : X) (v : S) → Between x v → Runs Kept v (f x) Done)
        → Runs Kept w (m >>= f) Done
    run_bind {X} {Before} {Between} m f r k h = record { ends = go (m w) r.ends }
      where
        go :
            (o : Result X × S)
            → Ends Before Between o
            → Ends Kept Done (let (r, v) = o in after r f v)
        go (err e, v) b = k v b
        go (ok x, v) b = (h x v b).ends

  -- A check that ends a call.
  pub run_check :
      {Kept : S → Type 0} {w : S} {Done : Unit {0} → S → Type 0} (c : Bool) (e : Error)
      → Kept w
      → (c ≡ false → Done tt w)
      → Runs Kept w (raise_if c e) Done
  run_check true e k h = record { ends = k }
  run_check false e k h = record { ends = h refl }

  -- A result that ends a call.
  pub run_result :
      {A : Type 0} {Kept : S → Type 0} {w : S} {Done : A → S → Type 0} (r : Result A)
      → Kept w
      → ((x : A) → r ≡ ok x → Done x w)
      → Runs Kept w (lift r) Done
  run_result (err e) k h = record { ends = k }
  run_result (ok x) k h = record { ends = h x refl }

  -- What is known of a call that has returned a value.
  pub Ends-ok :
      {A : Type 0} (Kept : S → Type 0) (Done : A → S → Type 0) (o : Result A × S) (x : A) (v : S)
      → Ends Kept Done o
      → o ≡ (ok x, v)
      → Done x v
  Ends-ok Kept Done (err e, u) x v h same = absurd (ground arith)
  Ends-ok {A} Kept Done (ok y, u) x v h same =
      let y_is : y ≡ x = ground arith in
      let u_is : u ≡ v = ap (λ (o : Result A × S). o.1) same in rw (← y_is, ← u_is) h

  -- An error that is passed on as another.
  pub run_handle :
      {A : Type 0} {Kept : S → Type 0} {Done : A → S → Type 0} {w : S} (m : Action S A)
      (f : Error → Error)
      → Runs Kept w m Done
      → Runs Kept w (handle m (λ e. raise (f e))) Done
  run_handle {A} {Kept} {Done} {w} m f r = record { ends = go (m w) r.ends }
    where
      go :
          (o : Result A × S)
          → Ends Kept Done o
          → Ends Kept Done (handle (λ _. o) (λ e. raise (f e)) w)
      go (err e, v) h = h
      go (ok x, v) h = h

  pub Ends-map :
      {A : Type 0} {Kept Held : S → Type 0} {Done Made : A → S → Type 0} (o : Result A × S)
      → ((v : S) → Kept v → Held v)
      → ((x : A) (v : S) → Done x v → Made x v)
      → Ends Kept Done o
      → Ends Held Made o
  Ends-map (err e, v) k d h = k v h
  Ends-map (ok x, v) k d h = d x v h
