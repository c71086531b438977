-- ===== src/Base/Outcomes.antt =====
-- How a piece of C code ends: it goes on in a new state, it never comes back from a state
-- (a reset, or an endless wait), or it makes an access outside an array, which C leaves undefined.
use mathlib.Core.Path.{◌≡◌, refl}

pub data Outcome {ℓ} (S : Type ℓ) : Type ℓ where
  next : S → Outcome S
  stopped : S → Outcome S
  fault : Outcome S

-- C's sequencing: what follows runs only if the first part came back.
infixl 5 ◌>>=◌
abbrev pub ◌>>=◌ {ℓ} : {S : Type ℓ} → Outcome S → (S → Outcome S) → Outcome S
next s >>= f = f s
stopped s >>= f = stopped s
fault >>= f = fault

-- The state that a run reaches satisfies `P`, and the run makes no access out of bounds.
abbrev pub Ensures {ℓ} : {S : Type ℓ} → (S → Type 0) → Outcome S → Type 0
Ensures P (next s) = P s
Ensures P (stopped s) = P s
Ensures P fault = ⊥

-- A block that keeps `P` can follow a run that ensures it.
pub Ensures->>= {ℓ} :
    {S : Type ℓ} (P : S → Type 0) (r : Outcome S) (f : S → Outcome S)
    → Ensures P r
    → ((s : S) → P s → Ensures P (f s))
    → Ensures P (r >>= f)
Ensures->>= P (next s) f h k = k s h
Ensures->>= P (stopped s) f h k = h
Ensures->>= P fault f h k = h

pub Ensures-map {ℓ} :
    {S : Type ℓ} {P Q : S → Type 0} (r : Outcome S)
    → Ensures P r
    → ((s : S) → P s → Q s)
    → Ensures Q r
Ensures-map (next s) h k = k s h
Ensures-map (stopped s) h k = k s h
Ensures-map fault h k = h

-- The state that a run reaches, if it reaches one, satisfies `P`.
abbrev pub Leads {ℓ} : {S : Type ℓ} → (S → Type 0) → Outcome S → Type 0
Leads P (next s) = P s
Leads P (stopped s) = P s
Leads P fault = Unit

pub Leads->>= {ℓ} :
    {S : Type ℓ} (P : S → Type 0) (r : Outcome S) (f : S → Outcome S)
    → Leads P r
    → ((s : S) → P s → Leads P (f s))
    → Leads P (r >>= f)
Leads->>= P (next s) f h k = k s h
Leads->>= P (stopped s) f h k = h
Leads->>= P fault f h k = tt

pub Leads-map {ℓ} :
    {S : Type ℓ} {P Q : S → Type 0} (r : Outcome S) → Leads P r → ((s : S) → P s → Q s) → Leads Q r
Leads-map (next s) h k = k s h
Leads-map (stopped s) h k = k s h
Leads-map fault h k = tt

-- The run comes back, in a state that satisfies `P`.
abbrev pub Returns {ℓ} : {S : Type ℓ} → (S → Type 0) → Outcome S → Type 0
Returns P (next s) = P s
Returns P (stopped s) = ⊥
Returns P fault = ⊥

pub Returns->>= {ℓ} :
    {S : Type ℓ} (P Q : S → Type 0) (r : Outcome S) (f : S → Outcome S)
    → Returns P r
    → ((s : S) → P s → Returns Q (f s))
    → Returns Q (r >>= f)
Returns->>= P Q (next s) f h k = k s h
Returns->>= P Q (stopped s) f h k = absurd h
Returns->>= P Q fault f h k = absurd h

pub Returns-map {ℓ} :
    {S : Type ℓ} {P Q : S → Type 0} (r : Outcome S)
    → Returns P r
    → ((s : S) → P s → Q s)
    → Returns Q r
Returns-map (next s) h k = k s h
Returns-map (stopped s) h k = h
Returns-map fault h k = h

pub Returns-and {ℓ} :
    {S : Type ℓ} (P Q : S → Type 0) (r : Outcome S)
    → Returns P r
    → Returns Q r
    → Returns (λ s. P s × Q s) r
Returns-and P Q (next s) h k = (h, k)
Returns-and P Q (stopped s) h k = h
Returns-and P Q fault h k = h

-- The run does not come back, and the state it ends in satisfies `P`.
abbrev pub Stops {ℓ} : {S : Type ℓ} → (S → Type 0) → Outcome S → Type 0
Stops P (next s) = ⊥
Stops P (stopped s) = P s
Stops P fault = ⊥

pub Returns-next {ℓ} :
    {S : Type ℓ} {P : S → Type 0} (r : Outcome S) → Returns P r → (s : S) × P s × (r ≡ next s)
Returns-next (next s) h = (s, h, refl)
Returns-next (stopped s) h = absurd h
Returns-next fault h = absurd h

pub Stops-map {ℓ} :
    {S : Type ℓ} {P Q : S → Type 0} (r : Outcome S) → Stops P r → ((s : S) → P s → Q s) → Stops Q r
Stops-map (next s) h k = h
Stops-map (stopped s) h k = k s h
Stops-map fault h k = h
