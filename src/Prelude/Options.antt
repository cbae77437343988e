-- ===== src/Prelude/Options.antt =====
-- Options: chains, alternatives, and what a chain that succeeds went through.
use mathlib.Core.Path.{◌≡◌, refl}
use mathlib.Core.Option.{Option, none, some}
use native.Mathlib.Omega.{arith}
use runt.Prelude.Tests.{map_some}

-- `Option::and_then`.
abbrev pub and_then : {A B : Type 0} → Option A → (A → Option B) → Option B
and_then none f = none
and_then (some a) f = f a

-- `Option::or`.
abbrev pub or_else : {A : Type 0} → Option A → Option A → Option A
or_else (some a) b = some a
or_else none b = b

pub and_then-some :
    {A B : Type 0} (o : Option A) (f : A → Option B) (b : B)
    → and_then o f ≡ some b
    → (a : A) × (o ≡ some a) × (f a ≡ some b)
and_then-some none f b h = ground arith
and_then-some (some a) f b h = (a, refl, h)

pub and_then-of :
    {A B : Type 0} (o : Option A) (f : A → Option B) (a : A) → o ≡ some a → and_then o f ≡ f a
and_then-of none f a h = ground arith
and_then-of (some b) f a h = cc

pub map_some-some :
    {A B : Type 0} (o : Option A) (f : A → B) (b : B)
    → map_some f o ≡ some b
    → (a : A) × (o ≡ some a) × (f a ≡ b)
map_some-some none f b h = ground arith
map_some-some (some a) f b h = (a, refl, ground arith)
