-- ===== src/Prelude/Outcome.antt =====
-- Code that changes a state and may raise: an exception keeps the state that the code had reached.
use mathlib.Core.Path.{◌≡◌, refl, ap}
use mathlib.Core.Logic.{◌⊎◌, inl, inr}
use mathlib.Core.Bool.{Bool, true, false}
use ooverlap.Prelude.Tests.{if◌then◌else◌}
use ooverlap.Prelude.Result.{Result, ok, err, Error}

pub data Outcome (W A : Type 0) : Type 0 where
  done : A → W → Outcome W A
  raised : Error → W → Outcome W A

abbrev pub M : Type 0 → Type 0 → Type 0
M W A = W → Outcome W A

abbrev pub and_then : {W A B : Type 0} → Outcome W A → (A → M W B) → Outcome W B
and_then (done a w) rest = rest a w
and_then (raised e w) rest = raised e w

infixl 5 ◌>>=◌
abbrev pub ◌>>=◌ : {W A B : Type 0} → M W A → (A → M W B) → M W B
◌>>=◌ m rest w = and_then (m w) rest

abbrev pub return : {W A : Type 0} → A → M W A
return a w = done a w

abbrev pub throw : {W A : Type 0} → Error → M W A
throw e w = raised e w

-- Code that only computes.
abbrev pub lift : {W A : Type 0} → Result A → M W A
lift (ok a) w = done a w
lift (err e) w = raised e w

-- What the two ends of a run satisfy.
abbrev pub Ends {κ} : {W A : Type 0} → (A → W → Type κ) → (W → Type κ) → Outcome W A → Type κ
Ends P Q (done a w) = P a w
Ends P Q (raised e w) = Q w

pub Outcome-cases :
    {W A : Type 0} (r : Outcome W A)
    → ((a : A) × (w : W) × (r ≡ done a w)) ⊎ ((e : Error) × (w : W) × (r ≡ raised e w))
Outcome-cases (done a w) = inl (a, w, refl)
Outcome-cases (raised e w) = inr (e, w, refl)

pub done_injective :
    {W A : Type 0} {a b : A} {v w : W}
    → ◌≡◌ {A = Outcome W A} (done a v) (done b w)
    → (a ≡ b) × (v ≡ w)
done_injective h = (cc, cc)

and_then-eq-done :
    {W A B : Type 0} (r : Outcome W A) (rest : A → M W B) {b : B} {w' : W}
    → and_then r rest ≡ done b w'
    → (a : A) × (v : W) × (r ≡ done a v) × (rest a v ≡ done b w')
and_then-eq-done (done a v) rest h = (a, v, refl, h)
and_then-eq-done (raised e v) rest h = cc

-- A run that ends well went well up to any of its points.
pub >>=-eq-done :
    {W A B : Type 0} (m : M W A) (rest : A → M W B) (w : W) {b : B} {w' : W}
    → (m >>= rest) w ≡ done b w'
    → (a : A) × (v : W) × (m w ≡ done a v) × (rest a v ≡ done b w')
>>=-eq-done m rest w h = and_then-eq-done (m w) rest h

pub Ends-and_then {κ} :
    {W A B : Type 0} (P : A → W → Type κ) (R : B → W → Type κ) (Q : W → Type κ) (r : Outcome W A)
    (rest : A → M W B)
    → Ends P Q r
    → ((a : A) (v : W) → P a v → Ends R Q (rest a v))
    → Ends R Q (and_then r rest)
Ends-and_then P R Q (done a v) rest h k = k a v h
Ends-and_then P R Q (raised e v) rest h k = h

-- What both ends of the first part promise, the whole promises.
pub Ends-bind {κ} :
    {W A B : Type 0} (P : A → W → Type κ) (R : B → W → Type κ) (Q : W → Type κ) (m : M W A)
    (rest : A → M W B) (w : W)
    → Ends P Q (m w)
    → ((a : A) (v : W) → P a v → Ends R Q (rest a v))
    → Ends R Q ((m >>= rest) w)
Ends-bind P R Q m rest w h k = Ends-and_then P R Q (m w) rest h k

pub Ends-if {κ} :
    {W A : Type 0} (P : A → W → Type κ) (Q : W → Type κ) (b : Bool) (m n : M W A) (w : W)
    → Ends P Q (m w)
    → Ends P Q (n w)
    → Ends P Q ((if b then m else n) w)
Ends-if P Q true m n w h k = h
Ends-if P Q false m n w h k = k

pub Ends-and {κ} :
    {W A : Type 0} (P P' : A → W → Type κ) (Q Q' : W → Type κ) (r : Outcome W A)
    → Ends P Q r
    → Ends P' Q' r
    → Ends (λ a w. P a w × P' a w) (λ w. Q w × Q' w) r
Ends-and P P' Q Q' (done a w) h k = (h, k)
Ends-and P P' Q Q' (raised e w) h k = (h, k)

pub Ends-weaken {κ} :
    {W A : Type 0} (P P' : A → W → Type κ) (Q Q' : W → Type κ) (r : Outcome W A)
    → ((a : A) (w : W) → P a w → P' a w)
    → ((w : W) → Q w → Q' w)
    → Ends P Q r
    → Ends P' Q' r
Ends-weaken P P' Q Q' (done a w) f g h = f a w h
Ends-weaken P P' Q Q' (raised e w) f g h = g w h

pub Ends-done {κ} :
    {W A : Type 0} (P : A → W → Type κ) (Q : W → Type κ) (r : Outcome W A) {a : A} {w : W}
    → Ends P Q r
    → r ≡ done a w
    → P a w
Ends-done P Q (done b v) h e = let (same, same') = done_injective e in rw (← same, ← same') h
Ends-done P Q (raised x v) h e = cc

pub lift-done :
    {W A : Type 0} (r : Result A) {w : W} {a : A} {w' : W}
    → lift r w ≡ done a w'
    → (r ≡ ok a) × (w ≡ w')
lift-done (ok b) h = let (e, e') = done_injective h in (ap ok e, e')
lift-done (err e) h = cc
